-- ===== src/Video/Worker/Messages/Timestamps.antt =====
-- The timestamps that video-worker.js gives the encoder.
use vrcstreamer.Common.{
  ℕ, suc, ◌+◌, ◌-◌, ◌*◌, ◌≤◌, max, refl, ◌∙◌, inl, inr, Bool, true, false, ◌&&◌, ◌||◌, Option, none,
  some, List, [], ◌∷◌, ◌++◌, arith, leb, if◌then◌else◌, All,
}
use vrcstreamer.Common.Int.{pos, next}
use vrcstreamer.Common.Number.{Number}
use vrcstreamer.Video.Clock.{audio_clock_keyframe_gap_ms, frame_below, frame_timestamp_us, advance}
use vrcstreamer.Video.Clock.Frames.{frame_timestamp_us_step, advance_enough}
use vrcstreamer.Video.Worker.{
  source_is_ready, media_time_ms, run_pacing, due_index, render_due, Environment,
  clear_pacing_timer, begin_close, Outcome, finish_pacing, start_current_output, take_source,
  Worker, Event,
}
use vrcstreamer.Video.Worker.Messages.{
  reconfigure_commit, reconfigure_fail, transport_resume, resume, finish_close, transport_pause,
  reconfigure_begin, push_frame, Call, step, run, clear_source_buffer, enter_placeholder,
  shift_full, sync_audio_clock, on_source_frame, clear_pacing_timer, begin_close,
  start_current_output, Outcome, close_all, paces, syncs, captures, ends_capture, resumes,
  transport_resumes, reconfigure_fails, transport_pauses, reconfigure_begins, begins_close,
  finishes_close, reconfigure_commits,
}
use vrcstreamer.Video.Worker.Messages.FrameTimes.{
  frames, IsAscending, IsFrameRate, frames-append, frames-close_all, SameTimes, IsQuiet,
  silent-append, start-IsQuiet, take_source-SameTimes, finish_pacing-Encodes, Advances,
  Quiet-Advances, Encodes-Advances,
}

module _ {ℓ} {D : Type ℓ} where
  render_due-Advances :
      (w : Worker D) (e : Environment) → IsFrameRate w.fps → Advances w (render_due w e)
  unfolding render_due due_index
  render_due-Advances w e (f, g) =
      let floor = next w.last_timestamp_us in
      let below = frame_below w.audio_sample_rate w.fps (media_time_ms w e.now) in
      let start = max w.scheduled_frame_index (max below (next w.last_frame_index)) in
      let index = advance floor w.fps floor start in
      let t = frame_timestamp_us w.fps index in
      let d = frame_timestamp_us w.fps (index + 1) - t in
      let u : Worker D = record w { last_frame_index = pos index; last_timestamp_us = pos t } in
      let ready = source_is_ready u e.ready_now in
      let same = take_source-SameTimes u ready in
      Encodes-Advances w (take_source u ready).0 t d
        (finish_pacing (take_source u ready).0 e (take_source u ready).1 t d) same.0 same.1
        (advance_enough floor w.fps floor start f g (omega arith)).0
        (omega (arith, frame_timestamp_us_step w.fps index f g))
        (finish_pacing-Encodes (take_source u ready).0 e (take_source u ready).1 t d)

  run_pacing-Advances :
      (w : Worker D) (e : Environment) → IsFrameRate w.fps → Advances w (run_pacing w e)
  unfolding run_pacing
  run_pacing-Advances w e f =
      let u : Worker D = record w { pacing_timer = false } in
      ground (arith, render_due-Advances u e f)

  -- A call of the pacing aside, no handler encodes or moves the frame clock.
  sync-IsQuiet :
      (w : Worker D) (samples : Option ℕ) (now later : ℕ)
      → IsQuiet w (sync_audio_clock w samples now later)
  unfolding sync_audio_clock
  sync-IsQuiet w none now later = ((refl, refl), refl)
  sync-IsQuiet w (some samples) now later =
      let gap =
        w.audio_clock_ready
        && leb (audio_clock_keyframe_gap_ms * 1000) (now - w.audio_clock_updated_at) in
      let u : Worker D = record w {
        force_next_keyframe = w.force_next_keyframe || gap;
        audio_clock_samples = samples;
        audio_clock_updated_at = now;
        audio_clock_ready = true;
      } in
      ground (arith, start-IsQuiet u later)

  shift_full-IsQuiet : (w : Worker D) → IsQuiet w (shift_full w)
  unfolding shift_full
  shift_full-IsQuiet w = ground arith

  IsQuiet-append :
      (w u v : Worker D) (es fs : List Event)
      → IsQuiet w (u, es)
      → IsQuiet u (v, fs)
      → IsQuiet w (v, es ++ fs)
  IsQuiet-append w u v es fs ((a, b), c) ((d, e), f) = ((d ∙ a, e ∙ b), silent-append es fs c f)

  enter_placeholder-IsQuiet : (w : Worker D) (now : ℕ) → IsQuiet w (enter_placeholder w now)
  unfolding enter_placeholder clear_source_buffer
  enter_placeholder-IsQuiet w now =
      let u : Worker D = record w {
        source_buffer = [];
        rendered_source_frame = false;
        placeholder = true;
        force_next_keyframe = true;
      } in
      let o = start_current_output u now in
      IsQuiet-append w u o.0 (close_all w.source_buffer) o.1
        ((refl, refl), frames-close_all w.source_buffer) (start-IsQuiet u now)

  push_frame-SameTimes : (w : Worker D) (frame now : ℕ) → SameTimes w (push_frame w frame now)
  unfolding push_frame
  push_frame-SameTimes w frame now = ground arith

  on_source_frame-IsQuiet :
      (w : Worker D) (frame now later : ℕ) → IsQuiet w (on_source_frame w frame now later)
  unfolding on_source_frame
  on_source_frame-IsQuiet w frame now later =
      let c : Worker D = record w { source_frames = w.source_frames + 1 } in
      let u = (shift_full c).0 in
      let p = push_frame u frame now in
      let same : SameTimes u p = push_frame-SameTimes u frame now in
      let o = start_current_output p later in
      let q = start-IsQuiet p later in
      IsQuiet-append w u o.0 (shift_full c).1 o.1 (shift_full-IsQuiet c)
        ((q.0.0 ∙ same.0, q.0.1 ∙ same.1), q.1)

-- The rates that reconfigurations ask for.
abbrev pub IsRated : Call → Type 0
IsRated (paces e) = Unit
IsRated (syncs samples now later) = Unit
IsRated (captures frame now later) = Unit
IsRated (ends_capture now) = Unit
IsRated (resumes now) = Unit
IsRated (transport_resumes now) = Unit
IsRated (reconfigure_fails now) = Unit
IsRated transport_pauses = Unit
IsRated reconfigure_begins = Unit
IsRated begins_close = Unit
IsRated finishes_close = Unit
IsRated (reconfigure_commits m now) = IsFrameRate m.fps

-- What one call adds, and the bounds of the frame clock before and after it.
abbrev Extends {ℓ} : {D : Type ℓ} → Worker D → Outcome D → Type 0
Extends w (u, es) =
    IsFrameRate u.fps
    × ((fs : List (ℕ × ℕ))
        → IsAscending (next u.last_timestamp_us) fs
        → IsAscending (next w.last_timestamp_us) (frames es ++ fs))

IsAscending-le : (a b : ℕ) (fs : List (ℕ × ℕ)) → a ≤ b → IsAscending b fs → IsAscending a fs
IsAscending-le a b [] h k = tt
IsAscending-le a b ((t, d) ∷ fs) h k = (omega arith, k.1, k.2)

module _ {ℓ} {D : Type ℓ} where
  guarded-IsQuiet :
      (w : Worker D) (b : Bool) (o : Outcome D) → IsQuiet w o → IsQuiet w (if b then (w, []) else o)
  guarded-IsQuiet w true o q = ((refl, refl), refl)
  guarded-IsQuiet w false o q = q

  pause-IsQuiet : (w : Worker D) → IsQuiet w (transport_pause w)
  unfolding transport_pause clear_pacing_timer
  pause-IsQuiet w = ground arith

  begin-IsQuiet : (w : Worker D) → IsQuiet w (reconfigure_begin w)
  unfolding reconfigure_begin clear_pacing_timer
  begin-IsQuiet w = ((refl, refl), refl)

  close-IsQuiet : (w : Worker D) → IsQuiet w (begin_close w)
  unfolding begin_close clear_pacing_timer
  close-IsQuiet w = ((refl, refl), refl)

  finish-IsQuiet : (w : Worker D) → IsQuiet w (finish_close w)
  unfolding finish_close clear_source_buffer
  finish-IsQuiet w = ((refl, refl), frames-close_all w.source_buffer)

  Advances-Extends : (w : Worker D) (o : Outcome D) → IsFrameRate w.fps → Advances w o → Extends w o
  Advances-Extends w (u, es) f (g, h, inl e) =
      (rw g f, λ fs k. rw e (IsAscending-le _ (next u.last_timestamp_us) fs h k))
  Advances-Extends w (u, es) f (g, h, inr (t, d, e, a, b, c)) =
      (rw g f, λ fs k. rw e (a, b, IsAscending-le (suc t) (next u.last_timestamp_us) fs c k))

  Quiet-Extends : (w : Worker D) (o : Outcome D) → IsFrameRate w.fps → IsQuiet w o → Extends w o
  Quiet-Extends w o f q = Advances-Extends w o f (Quiet-Advances w o q)

module _ {ℓ} {D : Type ℓ} ⦃n : Number D⦄ where
  step-Extends : (w : Worker D) (c : Call) → IsFrameRate w.fps → IsRated c → Extends w (step w c)
  unfolding step resume transport_resume reconfigure_fail reconfigure_commit
  step-Extends w (paces e) f r = Advances-Extends w (run_pacing w e) f (run_pacing-Advances w e f)
  step-Extends w (syncs samples now later) f r =
      Quiet-Extends w (if w.closed then (w, []) else sync_audio_clock w samples now later) f
        (guarded-IsQuiet w w.closed _ (sync-IsQuiet w samples now later))
  step-Extends w (captures frame now later) f r =
      Quiet-Extends w (on_source_frame w frame now later) f
        (on_source_frame-IsQuiet w frame now later)
  step-Extends w (ends_capture now) f r =
      Quiet-Extends w (enter_placeholder w now) f (enter_placeholder-IsQuiet w now)
  step-Extends w (resumes now) f r =
      let u : Worker D = record w { paused = false; force_next_keyframe = true } in
      Quiet-Extends w (resume w now) f (guarded-IsQuiet w w.closed _ (start-IsQuiet u now))
  step-Extends w (transport_resumes now) f r =
      let u : Worker D = record w { network_paused = false; force_next_keyframe = true } in
      Quiet-Extends w (transport_resume w now) f
        (guarded-IsQuiet w w.closed _ (start-IsQuiet u now))
  step-Extends w (reconfigure_fails now) f r =
      let u : Worker D = record w { paused = false } in
      Quiet-Extends w (reconfigure_fail w now) f (start-IsQuiet u now)
  step-Extends w transport_pauses f r = Quiet-Extends w (transport_pause w) f (pause-IsQuiet w)
  step-Extends w reconfigure_begins f r = Quiet-Extends w (reconfigure_begin w) f (begin-IsQuiet w)
  step-Extends w begins_close f r = Quiet-Extends w (begin_close w) f (close-IsQuiet w)
  step-Extends w finishes_close f r = Quiet-Extends w (finish_close w) f (finish-IsQuiet w)
  step-Extends w (reconfigure_commits m now) f r = (r, λ fs k. k)

  -- Whatever happens to an initialised worker (pacing, audio clocks, captured frames, pauses, closing,
  -- reconfigurations to rates of 1 to 1000000 frames per second), the encoder gets frames with
  -- strictly rising timestamps, all later than the last frame before, each of positive duration.
  pub frames-run-IsAscending :
      (w : Worker D) (cs : List Call)
      → IsFrameRate w.fps
      → All IsRated cs
      → IsAscending (next w.last_timestamp_us) (frames (run w cs).1)
  unfolding run
  frames-run-IsAscending w [] f r = tt
  frames-run-IsAscending w (c ∷ cs) f r =
      let (u, es) = step w c in
      let (g, k) = step-Extends w c f r.0 in
      rw (frames-append es (run u cs).1)
        (k (frames (run u cs).1) (frames-run-IsAscending u cs g r.1))
