-- ===== src/Publisher/Transport.antt =====
-- `createPublisherTransport` of client/scripts/streamer.js: back-pressure of the streamer's WebSocket.
-- The closure's variables are a record, its calls of others a list of events, oldest first. Times are
-- whole microseconds of `performance.now()`; `queued` is `ws.bufferedAmount`.
pub mod Consistent
pub mod Stall
pub mod Tests
use vrcstreamer.Common.{
  ℕ, ◌+◌, ◌-◌, ◌*◌, ◌/◌, Bool, true, false, not, ◌&&◌, ◌||◌, Option, none, some, List, [], ◌∷◌,
  ◌++◌, ltb, leb, ◌==◌, if◌then◌else◌, is_some,
}

abbrev pub pause_buffered_bytes : ℕ
pause_buffered_bytes = 1024 * 1024

abbrev pub resume_buffered_bytes : ℕ
resume_buffered_bytes = 256 * 1024

-- 5000 ms.
abbrev pub stall_timeout_us : ℕ
stall_timeout_us = 5000 * 1000

-- Controls are told apart by a number, as the code does by identity.
pub record Transport : Type 0 where
  pub congested_at : ℕ
  pub failed : Bool
  pub video_control : Option ℕ
  pub video_paused : Bool

pub data Failure : Type 0 where
  stalled : ℕ → Failure
  other : ℕ → Failure

-- `pauses c` and `resumes c` are calls of the control `c`, `fails e` is a call of `onFailure`.
pub data Event : Type 0 where
  pauses resumes : ℕ → Event
  fails : Failure → Event

abbrev pub Outcome : Type 0
Outcome = Transport × List Event

pub created : Transport
created = record { congested_at = 0; failed = false; video_control = none; video_paused = false }

pub pause_video : Transport → Outcome
pause_video t = elim t.video_control [
  | none ↦ (t, [])
  | some c ↦ if t.video_paused then (t, []) else (record t { video_paused = true }, pauses c ∷ [])
]

pub resume_video : Transport → Outcome
resume_video t = elim t.video_control [
  | none ↦ (t, [])
  | some c ↦ if t.video_paused then (record t { video_paused = false }, resumes c ∷ []) else (t, [])
]

pub abort : Transport → Failure → Outcome
abort t e = if t.failed then (t, []) else (record t { failed = true }, fails e ∷ [])

-- The part of `poll` before the test for a stall.
unfoldable pub watch : Transport → ℕ → ℕ → Outcome
watch t now queued =
    if ltb pause_buffered_bytes queued
    then pause_video (if t.congested_at == 0 then record t { congested_at = now } else t)
    else if not (t.congested_at == 0) && leb queued resume_buffered_bytes
    then resume_video (record t { congested_at = 0 })
    else (t, [])

unfoldable pub is_stalled : Transport → ℕ → Bool
is_stalled t now = not (t.congested_at == 0) && leb stall_timeout_us (now - t.congested_at)

-- The third part is the result of the call.
unfoldable pub poll : Transport → ℕ → ℕ → Transport × List Event × Bool
poll t now queued =
    if t.failed
    then (t, [], false)
    else let (u, es) = watch t now queued in
      let (v, fs) =
        if is_stalled u now then abort u (stalled ((queued + 1023) / 1024)) else (u, []) in
      (v, es ++ fs, not v.failed)

pub attach_video : Transport → ℕ → Outcome
attach_video t c =
    let u : Transport = record t { video_control = some c; video_paused = false } in
    if t.congested_at == 0 then (u, []) else pause_video u

pub detach_video : Transport → ℕ → Transport
detach_video t c = elim t.video_control [
  | none ↦ t
  | some d ↦ if d == c then record t { video_control = none; video_paused = false } else t
]

pub close : Transport → Transport
close t = record t { failed = true; video_control = none; video_paused = false }

abbrev pub congested : Transport → Bool
congested t = not (t.congested_at == 0)

pub data Call : Type 0 where
  polls : ℕ → ℕ → Call
  aborts : Failure → Call
  attaches detaches : ℕ → Call
  closes : Call

pub step : Transport → Call → Outcome
unfolding poll attach_video detach_video close abort
step t (polls now queued) = let (u, es, r) = poll t now queued in (u, es)
step t (aborts e) = abort t e
step t (attaches c) = attach_video t c
step t (detaches c) = (detach_video t c, [])
step t closes = (close t, [])

pub run : Transport → List Call → Outcome
run t [] = (t, [])
run t (c ∷ cs) = let (u, es) = step t c in let (v, fs) = run u cs in (v, es ++ fs)
