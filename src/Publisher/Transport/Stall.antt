-- ===== src/Publisher/Transport/Stall.antt =====
-- When the publisher transport of streamer.js gives up, and how often it says so.
use vrcstreamer.Common.{
  not, ℕ, suc, ◌+◌, ◌≤◌, ◌<◌, ◌≡◌, ◌⊎◌, inl, true, false, List, [], ◌∷◌, ◌++◌, arith, if◌then◌else◌,
  All,
}
use vrcstreamer.Publisher.Transport.{
  is_stalled, resume_video, abort, pause_video, resume_buffered_bytes, stall_timeout_us, watch,
  pause_buffered_bytes, Call, Event, poll, step, run, Transport, polls, aborts, attaches, detaches,
  closes, pauses, resumes, fails,
}

-- A poll that finds more queued than the resume level.
abbrev pub IsBusy : Call → Type 0
IsBusy (polls now queued) = resume_buffered_bytes < queued
IsBusy (aborts e) = ⊥
IsBusy (attaches c) = ⊥
IsBusy (detaches c) = ⊥
IsBusy closes = ⊥

-- Failed, or congested since a time that is not after `start`.
abbrev IsStuck : ℕ → Transport → Type 0
IsStuck start t = (t.failed ≡ true) ⊎ ((0 < t.congested_at) × (t.congested_at ≤ start))

poll-IsStuck :
    (t : Transport) (start now queued : ℕ)
    → resume_buffered_bytes < queued
    → IsStuck start t
    → IsStuck start (poll t now queued).0
unfolding poll watch pause_video abort is_stalled
poll-IsStuck t start now queued b h = ground arith

run-IsStuck :
    (t : Transport) (start : ℕ) (cs : List Call)
    → All IsBusy cs
    → IsStuck start t
    → IsStuck start (run t cs).0
unfolding run step
run-IsStuck t start [] b h = h
run-IsStuck t start (polls now queued ∷ cs) b h =
    run-IsStuck (poll t now queued).0 start cs b.1 (poll-IsStuck t start now queued b.0 h)
run-IsStuck t start (aborts e ∷ cs) b h = absurd b.0
run-IsStuck t start (attaches c ∷ cs) b h = absurd b.0
run-IsStuck t start (detaches c ∷ cs) b h = absurd b.0
run-IsStuck t start (closes ∷ cs) b h = absurd b.0

poll_stuck :
    (t : Transport) (start now queued : ℕ)
    → start + stall_timeout_us ≤ now
    → resume_buffered_bytes < queued
    → IsStuck start t
    → (poll t now queued).2 ≡ false
unfolding poll watch pause_video abort is_stalled
poll_stuck t start now queued a b h = ground arith

begin-IsStuck :
    (t : Transport) (start queued : ℕ)
    → 0 < start
    → pause_buffered_bytes < queued
    → t.congested_at ≤ start
    → IsStuck start (poll t start queued).0
unfolding poll watch pause_video abort is_stalled
begin-IsStuck t start queued a b c = ground arith

-- An upload that stalls is given up: if a poll at time `start` finds the queue above the pause level
-- and every later poll finds it above the resume level, then a poll 5 s after `start` returns false.
pub poll-run_stalled :
    (t : Transport) (start queued : ℕ) (cs : List Call) (now last : ℕ)
    → 0 < start
    → t.congested_at ≤ start
    → pause_buffered_bytes < queued
    → All IsBusy cs
    → start + stall_timeout_us ≤ now
    → resume_buffered_bytes < last
    → (poll (run (poll t start queued).0 cs).0 now last).2 ≡ false
poll-run_stalled t start queued cs now last a b c d e f =
    poll_stuck _ start now last e f (run-IsStuck _ start cs d (begin-IsStuck t start queued a c b))

-- A call whose clock reads from `start` to before `start + 5 s`, and no failure from elsewhere.
abbrev pub IsEarly : ℕ → Call → Type 0
IsEarly start (polls now queued) = (start ≤ now) × (now < start + stall_timeout_us)
IsEarly start (aborts e) = ⊥
IsEarly start (attaches c) = Unit
IsEarly start (detaches c) = Unit
IsEarly start closes = ⊥

abbrev IsFresh : ℕ → Transport → Type 0
IsFresh start t = (t.failed ≡ false) × ((t.congested_at ≡ 0) ⊎ (start ≤ t.congested_at))

step-IsFresh :
    (t : Transport) (start : ℕ) (c : Call)
    → IsEarly start c
    → IsFresh start t
    → IsFresh start (step t c).0
unfolding step watch pause_video resume_video is_stalled
step-IsFresh t start (polls now queued) a h = ground arith
step-IsFresh t start (aborts e) a h = absurd a
step-IsFresh t start (attaches c) a h = ground arith
step-IsFresh t start (detaches c) a h = ground arith
step-IsFresh t start closes a h = absurd a

run-IsFresh :
    (t : Transport) (start : ℕ) (cs : List Call)
    → All (IsEarly start) cs
    → IsFresh start t
    → IsFresh start (run t cs).0
unfolding run
run-IsFresh t start [] a h = h
run-IsFresh t start (c ∷ cs) a h =
    run-IsFresh (step t c).0 start cs a.1 (step-IsFresh t start c a.0 h)

-- No transport that is neither failed nor congested gives up within 5 s of the first poll, however
-- much is queued.
pub run_early :
    (t : Transport) (start : ℕ) (cs : List Call)
    → t.failed ≡ false
    → t.congested_at ≡ 0
    → All (IsEarly start) cs
    → (run t cs).0.failed ≡ false
run_early t start cs a b c = (run-IsFresh t start cs c (a, inl b)).0

abbrev pub count_fails : List Event → ℕ
count_fails [] = 0
count_fails (pauses c ∷ es) = count_fails es
count_fails (resumes c ∷ es) = count_fails es
count_fails (fails e ∷ es) = suc (count_fails es)

count_fails-append : (es fs : List Event) → count_fails (es ++ fs) ≡ count_fails es + count_fails fs
count_fails-append [] fs = omega arith
count_fails-append (pauses c ∷ es) fs = count_fails-append es fs
count_fails-append (resumes c ∷ es) fs = count_fails-append es fs
count_fails-append (fails e ∷ es) fs = omega (arith, count_fails-append es fs)

abbrev budget : Transport → ℕ
budget t = if t.failed then 0 else 1

step-count_fails :
    (t : Transport) (c : Call) → count_fails (step t c).1 + budget (step t c).0 ≤ budget t
unfolding step watch pause_video resume_video is_stalled
step-count_fails t (polls now queued) = ground arith
step-count_fails t (aborts e) = ground arith
step-count_fails t (attaches c) = ground arith
step-count_fails t (detaches c) = ground arith
step-count_fails t closes = ground arith

run-count_fails :
    (t : Transport) (cs : List Call) → count_fails (run t cs).1 + budget (run t cs).0 ≤ budget t
unfolding run
run-count_fails t [] = ground arith
run-count_fails t (c ∷ cs) = omega (
  arith,
  count_fails-append (step t c).1 (run (step t c).0 cs).1,
  step-count_fails t c,
  run-count_fails (step t c).0 cs,
)

-- In any history `onFailure` is called at most once, and never on a transport that has failed or
-- was closed.
pub count_fails-run_le :
    (t : Transport) (cs : List Call)
    → (count_fails (run t cs).1 ≤ 1) × (t.failed ≡ true → count_fails (run t cs).1 ≡ 0)
count_fails-run_le t cs = ground (arith, run-count_fails t cs)

-- The result of a poll is whether the transport is still alive.
pub poll-alive :
    (t : Transport) (now queued : ℕ) → (poll t now queued).2 ≡ not (poll t now queued).0.failed
unfolding poll
poll-alive t now queued = ground arith
