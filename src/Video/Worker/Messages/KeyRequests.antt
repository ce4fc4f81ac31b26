-- ===== src/Video/Worker/Messages/KeyRequests.antt =====
-- The key frames that video-worker.js asks for, through the pacing.
use vrcstreamer.Video.Clock.{frame_timestamp_us}
use vrcstreamer.Common.{
  ℕ, ◌+◌, ◌-◌, ◌≡◌, refl, ap, ◌∙◌, ◌⊎◌, inl, inr, Bool, true, false, ◌||◌, Option, none, some, List,
  [], ◌∷◌, ◌++◌, arith, is_some,
}
use vrcstreamer.Common.Int.{pos}
use vrcstreamer.Video.Worker.{
  source_is_ready, frame_timestamp_us, due_index, choose_picture, clear_pacing_timer, Picture,
  render_due, begin_close, wants_keyframe, Environment, Submission, finish_pacing, submit_frame,
  schedule_next_frame, Outcome, run_pacing, fail, conclude, start_current_output, take_source,
  close_source, accepted, refused, threw, Worker, Event, closes, encodes, sets_timer, clears_timer,
  fails,
}
use vrcstreamer.Video.Worker.Messages.{
  Preset, Call, close_all, ends_capture, resumes, transport_resumes, reconfigure_commits,
}

-- Whether each encoded frame was asked for as a key frame, in order.
abbrev pub keys : List Event → List Bool
keys [] = []
keys (closes f ∷ es) = keys es
keys (encodes t d key q p ∷ es) = key ∷ keys es
keys (sets_timer n ∷ es) = keys es
keys (clears_timer ∷ es) = keys es
keys (fails ∷ es) = keys es

abbrev pub IsFirstKey : List Bool → Type 0
IsFirstKey [] = Unit
IsFirstKey (key ∷ rest) = key ≡ true

-- The calls after which a key frame is due.
pub data Restarts : Call → Type 0 where
  after_capture : {now : ℕ} → Restarts (ends_capture now)
  after_resume : {now : ℕ} → Restarts (resumes now)
  after_transport : {now : ℕ} → Restarts (transport_resumes now)
  after_preset : {m : Preset} {now : ℕ} → Restarts (reconfigure_commits m now)

pub keys-append : (es fs : List Event) → keys (es ++ fs) ≡ keys es ++ keys fs
keys-append [] fs = refl
keys-append (closes f ∷ es) fs = keys-append es fs
keys-append (encodes t d key q p ∷ es) fs = ap (◌∷◌ key) (keys-append es fs)
keys-append (sets_timer n ∷ es) fs = keys-append es fs
keys-append (clears_timer ∷ es) fs = keys-append es fs
keys-append (fails ∷ es) fs = keys-append es fs

pub keys-close_all : (fs : List ℕ) → keys (close_all fs) ≡ []
keys-close_all [] = refl
keys-close_all (f ∷ fs) = keys-close_all fs

pub silent-append : (es fs : List Event) → keys es ≡ [] → keys fs ≡ [] → keys (es ++ fs) ≡ []
silent-append es fs a b = rw (keys-append es fs, a, b)

pub keys-close_source : (source : Option ℕ) → keys (close_source source) ≡ []
keys-close_source none = refl
keys-close_source (some f) = refl

-- Nothing was encoded and a key frame is still due, or the first frame encoded is a key frame.
abbrev pub Forced {ℓ} : {D : Type ℓ} → Outcome D → Type 0
Forced (u, es) = ((keys es ≡ []) × (u.force_next_keyframe ≡ true)) ⊎ (keys es ≡ true ∷ [])

-- Nothing was encoded and a key frame is due.
abbrev pub Starts {ℓ} : {D : Type ℓ} → Outcome D → Type 0
Starts (u, es) = (keys es ≡ []) × (u.force_next_keyframe ≡ true)

pub Forced-append {ℓ} :
    {D : Type ℓ} (u v : Worker D) (es fs : List Event)
    → Forced (u, es)
    → keys fs ≡ []
    → (u.force_next_keyframe ≡ true → v.force_next_keyframe ≡ true)
    → Forced (v, es ++ fs)
Forced-append u v es fs (inl (a, b)) c d = inl (silent-append es fs a c, d b)
Forced-append u v es fs (inr a) c d = inr (rw (keys-append es fs, a, c))

module _ {ℓ} {D : Type ℓ} where
  -- Nothing is encoded, and a due key frame stays due.
  abbrev pub Waits : Worker D → Outcome D → Type 0
  Waits w (u, es) = (keys es ≡ []) × (w.force_next_keyframe ≡ true → u.force_next_keyframe ≡ true)

  pub schedule-Waits : (w : Worker D) (now : ℕ) → Waits w (schedule_next_frame w now)
  unfolding schedule_next_frame
  schedule-Waits w now = ground arith

  pub start-Waits : (w : Worker D) (now : ℕ) → Waits w (start_current_output w now)
  unfolding start_current_output
  start-Waits w now = ground (arith, schedule-Waits w now)

  pub fail-Waits : (w : Worker D) → Waits w (fail w)
  unfolding fail begin_close clear_pacing_timer
  fail-Waits w = ground arith

  pub conclude-Forced :
      (u : Worker D) (source : Option ℕ) (now : ℕ) (es : List Event) (r : Submission)
      → Forced (u, es)
      → Forced (conclude u source now es r)
  unfolding conclude
  conclude-Forced u source now es threw h =
      Forced-append u (fail u).0 es ((fail u).1 ++ close_source source) h
        (silent-append (fail u).1 (close_source source) (fail-Waits u).0 (keys-close_source source))
        (fail-Waits u).1
  conclude-Forced u source now es refused h =
      let o = schedule_next_frame u now in
      Forced-append u o.0 es (close_source source ++ o.1) h
        (silent-append (close_source source) o.1 (keys-close_source source)
          (schedule-Waits u now).0)
        (schedule-Waits u now).1
  conclude-Forced u source now es accepted h =
      let drawn : Worker D = record u {
        rendered_source_frame = u.rendered_source_frame || is_some source;
      } in
      let o = schedule_next_frame drawn now in
      Forced-append u o.0 es (close_source source ++ o.1) h
        (silent-append (close_source source) o.1 (keys-close_source source)
          (schedule-Waits drawn now).0)
        (schedule-Waits drawn now).1

  pub submit_frame-Forced :
      (w : Worker D) (e : Environment) (picture : Picture) (t d : ℕ)
      → w.force_next_keyframe ≡ true
      → let (u, es, r) = submit_frame w e picture t d in Forced (u, es)
  unfolding submit_frame wants_keyframe
  submit_frame-Forced w e picture t d h = ground arith

  pub finish_pacing-Forced :
      (w : Worker D) (e : Environment) (source : Option ℕ) (t d : ℕ)
      → w.force_next_keyframe ≡ true
      → Forced (finish_pacing w e source t d)
  unfolding finish_pacing
  finish_pacing-Forced w e source t d h =
      let (u, es, r) = submit_frame w e (choose_picture w source) t d in
      conclude-Forced u source e.schedule_now es r
        (submit_frame-Forced w e (choose_picture w source) t d h)

  pub take_source-force :
      (w : Worker D) (ready : Bool)
      → (take_source w ready).0.force_next_keyframe ≡ w.force_next_keyframe
  unfolding take_source
  take_source-force w ready = ground arith

  pub render_due-Forced :
      (w : Worker D) (e : Environment) → w.force_next_keyframe ≡ true → Forced (render_due w e)
  unfolding render_due
  render_due-Forced w e h =
      let index = due_index w e.now in
      let t = frame_timestamp_us w.fps index in
      let d = frame_timestamp_us w.fps (index + 1) - t in
      let u : Worker D = record w { last_frame_index = pos index; last_timestamp_us = pos t } in
      let ready = source_is_ready u e.ready_now in
      finish_pacing-Forced (take_source u ready).0 e (take_source u ready).1 t d
        (take_source-force u ready ∙ h)

  pub run_pacing-Forced :
      (w : Worker D) (e : Environment) → w.force_next_keyframe ≡ true → Forced (run_pacing w e)
  unfolding run_pacing
  run_pacing-Forced w e h =
      let u : Worker D = record w { pacing_timer = false } in
      ground (arith, render_due-Forced u e h)
