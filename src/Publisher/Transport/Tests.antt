-- ===== src/Publisher/Transport/Tests.antt =====
-- Runs of the publisher transport of streamer.js, and its theorems at concrete inputs.
use vrcstreamer.Publisher.Transport.Consistent.{
  run-Alternates, run-created-IsConsistent, Alternates, IsConsistent,
}
use vrcstreamer.Publisher.Transport.Stall.{
  count_fails-run_le, count_fails, run_early, poll-run_stalled,
}
use vrcstreamer.Common.{ℕ, ◌*◌, ◌≤◌, ◌≡◌, refl, true, false, some, List, [], ◌∷◌, arith}
use vrcstreamer.Publisher.Transport.{
  is_stalled, resume_video, pause_video, watch, created, step, poll, run, Transport, Call, polls,
  attaches, aborts, pauses, resumes, fails, stalled, other,
}

abbrev megabytes : ℕ → ℕ
megabytes n = n * 1024 * 1024

-- Two control calls, then the failure after 5 s of stall.
abbrev history : List Call
history =
    attaches 7
    ∷ polls 1000 (megabytes 2)
    ∷ polls 2000 (megabytes 0)
    ∷ polls 3000 (megabytes 3)
    ∷ polls 5_003_000 (megabytes 1)
    ∷ polls 5_003_001 (megabytes 1)
    ∷ []

history_events :
    (run created history).1 ≡ pauses 7 ∷ resumes 7 ∷ pauses 7 ∷ fails (stalled 1024) ∷ []
unfolding run step created watch pause_video resume_video is_stalled
history_events = refl

run-created-IsConsistent_example : IsConsistent (run created history).0
run-created-IsConsistent_example = run-created-IsConsistent history (omega arith)

abbrev attached : Transport
attached = record { congested_at = 0; failed = false; video_control = some 7; video_paused = false }

abbrev polled : List Call
polled = polls 1000 (megabytes 2) ∷ aborts (other 1) ∷ polls 2000 0 ∷ []

run-Alternates_example : Alternates false (run attached polled).1
run-Alternates_example = run-Alternates attached polled (tt, (tt, (tt, tt)))

poll-run_stalled_example :
    (poll
      (run (poll attached 10 (megabytes 2)).0 (polls 20 (megabytes 1) ∷ [])).0
      5_000_010
      300_000).2
    ≡ false
poll-run_stalled_example =
    poll-run_stalled attached 10 (megabytes 2) (polls 20 (megabytes 1) ∷ []) 5_000_010 300_000
      (omega arith) (omega arith) (omega arith) (omega arith) (omega arith) (omega arith)

run_early_example :
    (run attached (polls 10 (megabytes 9) ∷ polls 4_999_999 (megabytes 9) ∷ [])).0.failed ≡ false
run_early_example =
    run_early attached 10 (polls 10 (megabytes 9) ∷ polls 4_999_999 (megabytes 9) ∷ []) refl refl
      (omega arith)

count_fails-run_le_example :
    (count_fails (run attached history).1 ≤ 1)
    × (attached.failed ≡ true → count_fails (run attached history).1 ≡ 0)
count_fails-run_le_example = count_fails-run_le attached history
