-- ===== src/Publisher/Transport/Consistent.antt =====
-- The pause flag of the publisher transport of streamer.js against its congestion.
use vrcstreamer.Common.{
  ◌++◌, subst, ℕ, ◌<◌, ◌≡◌, refl, Bool, true, false, Option, none, some, List, [], ◌∷◌, arith, All,
}
use vrcstreamer.Publisher.Transport.{
  is_stalled, resume_video, pause_video, abort, poll, congested, Call, run, step, Event, Outcome,
  watch, created, Transport, polls, aborts, attaches, detaches, closes, pauses, resumes, fails,
}

-- Without a video control nothing is paused; with one, the video is paused exactly while congested.
abbrev pub Agrees : Option ℕ → Bool → Bool → Type 0
Agrees none paused full = paused ≡ false
Agrees (some c) paused full = paused ≡ full

abbrev pub IsConsistent : Transport → Type 0
IsConsistent t = Agrees t.video_control t.video_paused (congested t)

-- A call made after the clock's origin.
abbrev pub IsTimed : Call → Type 0
IsTimed (polls now queued) = 0 < now
IsTimed (aborts e) = Unit
IsTimed (attaches c) = Unit
IsTimed (detaches c) = Unit
IsTimed closes = Unit

watch-IsConsistent :
    (t : Transport) (now queued : ℕ)
    → 0 < now
    → IsConsistent t
    → IsConsistent (watch t now queued).0
unfolding watch pause_video resume_video
watch-IsConsistent t now queued p h = ground arith

poll-IsConsistent :
    (t : Transport) (now queued : ℕ) → 0 < now → IsConsistent t → IsConsistent (poll t now queued).0
unfolding poll abort
poll-IsConsistent t now queued p h = ground (arith, watch-IsConsistent t now queued p h)

step-IsConsistent :
    (t : Transport) (c : Call) → IsTimed c → IsConsistent t → IsConsistent (step t c).0
unfolding step pause_video
step-IsConsistent t (polls now queued) p h = poll-IsConsistent t now queued p h
step-IsConsistent t (aborts e) p h = ground arith
step-IsConsistent t (attaches c) p h = ground arith
step-IsConsistent t (detaches c) p h = ground arith
step-IsConsistent t closes p h = refl

run-IsConsistent :
    (t : Transport) (cs : List Call) → All IsTimed cs → IsConsistent t → IsConsistent (run t cs).0
unfolding run
run-IsConsistent t [] p h = h
run-IsConsistent t (c ∷ cs) p h = run-IsConsistent (step t c).0 cs p.1 (step-IsConsistent t c p.0 h)

-- After any calls on a new transport, all polled after the clock's origin: without a video control
-- nothing is paused, and with one the video is paused exactly while the transport is congested.
pub run-created-IsConsistent : (cs : List Call) → All IsTimed cs → IsConsistent (run created cs).0
unfolding created
run-created-IsConsistent cs p = run-IsConsistent created cs p refl

-- The events of a history, from a state with the given pause flag: `pause` and `resume` of the
-- attached control alternate.
abbrev pub Alternates : Bool → List Event → Type 0
Alternates paused [] = Unit {0}
Alternates paused (pauses c ∷ es) = (paused ≡ false) × Alternates true es
Alternates paused (resumes c ∷ es) = (paused ≡ true) × Alternates false es
Alternates paused (fails e ∷ es) = Alternates paused es

-- Calls that leave the attached control in place.
abbrev pub IsKept : Call → Type 0
IsKept (polls now queued) = Unit
IsKept (aborts e) = Unit
IsKept (attaches c) = ⊥
IsKept (detaches c) = ⊥
IsKept closes = ⊥

-- The flag that the events leave behind.
abbrev pub flag_after : Bool → List Event → Bool
flag_after paused [] = paused
flag_after paused (pauses c ∷ es) = flag_after true es
flag_after paused (resumes c ∷ es) = flag_after false es
flag_after paused (fails e ∷ es) = flag_after paused es

abbrev Tracks : Bool → Outcome → Type 0
Tracks paused (t, es) = Alternates paused es × (t.video_paused ≡ flag_after paused es)

step-Tracks : (t : Transport) (c : Call) → IsKept c → Tracks t.video_paused (step t c)
unfolding step watch pause_video resume_video is_stalled
step-Tracks t (polls now queued) k = ground arith
step-Tracks t (aborts e) k = ground arith
step-Tracks t (attaches c) k = absurd k
step-Tracks t (detaches c) k = absurd k
step-Tracks t closes k = absurd k

Alternates-append :
    (paused : Bool) (es fs : List Event)
    → Alternates paused es
    → Alternates (flag_after paused es) fs
    → Alternates paused (es ++ fs)
Alternates-append paused [] fs a b = b
Alternates-append paused (pauses c ∷ es) fs a b = (a.0, Alternates-append true es fs a.1 b)
Alternates-append paused (resumes c ∷ es) fs a b = (a.0, Alternates-append false es fs a.1 b)
Alternates-append paused (fails e ∷ es) fs a b = Alternates-append paused es fs a b

-- While the same control stays attached, whatever is polled or aborted, its `pause` and `resume`
-- calls alternate, beginning with `resume` if it was paused and with `pause` if it was not.
pub run-Alternates :
    (t : Transport) (cs : List Call) → All IsKept cs → Alternates t.video_paused (run t cs).1
unfolding run
run-Alternates t [] k = tt
run-Alternates t (c ∷ cs) k =
    let (a, e) = step-Tracks t c k.0 in
    Alternates-append t.video_paused (step t c).1 _ a
      (subst (λ p. Alternates p (run (step t c).0 cs).1) e (run-Alternates (step t c).0 cs k.1))
