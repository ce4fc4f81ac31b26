-- ===== src/Video/Worker/Messages/Frames.antt =====
-- The captured frames of video-worker.js: each is closed once, or still in the buffer.
use vrcstreamer.Video.Clock.{audio_clock_keyframe_gap_ms, frame_timestamp_us}
use vrcstreamer.Common.{
  ℕ, ◌+◌, ◌-◌, ◌*◌, ◌≡◌, ap, Bool, true, false, ◌&&◌, ◌||◌, Option, none, some, List, [], ◌∷◌,
  arith, leb, if◌then◌else◌,
}
use vrcstreamer.Common.Int.{pos}
use vrcstreamer.Common.Number.{Number}
use vrcstreamer.Video.Worker.{
  source_is_ready, frame_timestamp_us, due_index, clear_pacing_timer, render_due, begin_close,
  Environment, run_pacing, Outcome, start_current_output, take_source, Worker,
}
use vrcstreamer.Video.Worker.Messages.{
  reconfigure_commit, reconfigure_fail, transport_resume, clear_source_buffer, resume,
  audio_clock_keyframe_gap_ms, reconfigure_begin, finish_close, on_source_frame, transport_pause,
  enter_placeholder, shift_full, push_frame, sync_audio_clock, run, step, Call, close_all, paces,
  syncs, captures, ends_capture, resumes, transport_resumes, reconfigure_fails, transport_pauses,
  reconfigure_begins, begins_close, finishes_close, reconfigure_commits,
}
use vrcstreamer.Video.Worker.Messages.ClosedFrames.{
  count, count-append, closed_frames-close_all, closings, closings-append, Conserves, captured,
  held, start-Conserves, finish_pacing-Conserves, take_source-count,
}

module _ {ℓ} {D : Type ℓ} (f : ℕ) where
  render_due-Conserves : (w : Worker D) (e : Environment) → Conserves f 0 w (render_due w e)
  unfolding render_due
  render_due-Conserves w e =
      let index = due_index w e.now in
      let t = frame_timestamp_us w.fps index in
      let d = frame_timestamp_us w.fps (index + 1) - t in
      let u : Worker D = record w { last_frame_index = pos index; last_timestamp_us = pos t } in
      let ready = source_is_ready u e.ready_now in
      let (v, source) = take_source u ready in
      omega (arith, take_source-count f u ready, finish_pacing-Conserves f v e source t d)

  run_pacing-Conserves : (w : Worker D) (e : Environment) → Conserves f 0 w (run_pacing w e)
  unfolding run_pacing
  run_pacing-Conserves w e =
      let u : Worker D = record w { pacing_timer = false } in
      ground (arith, render_due-Conserves u e)

  sync-Conserves :
      (w : Worker D) (samples : Option ℕ) (now later : ℕ)
      → Conserves f 0 w (sync_audio_clock w samples now later)
  unfolding sync_audio_clock
  sync-Conserves w none now later = omega arith
  sync-Conserves w (some samples) now later =
      let gap =
        w.audio_clock_ready
        && leb (audio_clock_keyframe_gap_ms * 1000) (now - w.audio_clock_updated_at) in
      let u : Worker D = record w {
        force_next_keyframe = w.force_next_keyframe || gap;
        audio_clock_samples = samples;
        audio_clock_updated_at = now;
        audio_clock_ready = true;
      } in
      ground (arith, start-Conserves f u later)

  shift_full-Conserves : (w : Worker D) → Conserves f 0 w (shift_full w)
  unfolding shift_full
  shift_full-Conserves w = ground arith

  push_frame-count :
      (w : Worker D) (frame now : ℕ)
      → count f (push_frame w frame now).source_buffer
        ≡ count f w.source_buffer + held f (some frame)
  unfolding push_frame
  push_frame-count w frame now = ground (arith, count-append f w.source_buffer (frame ∷ []))

  on_source_frame-Conserves :
      (w : Worker D) (frame now later : ℕ)
      → Conserves f (held f (some frame)) w (on_source_frame w frame now later)
  unfolding on_source_frame
  on_source_frame-Conserves w frame now later =
      let c : Worker D = record w { source_frames = w.source_frames + 1 } in
      let (u, es) = shift_full c in
      let p = push_frame u frame now in
      let fs = (start_current_output p later).1 in
      omega (
        arith,
        shift_full-Conserves c,
        push_frame-count u frame now,
        start-Conserves f p later,
        closings-append f es fs,
      )

  enter_placeholder-Conserves : (w : Worker D) (now : ℕ) → Conserves f 0 w (enter_placeholder w now)
  unfolding enter_placeholder clear_source_buffer
  enter_placeholder-Conserves w now =
      let u : Worker D = record w {
        source_buffer = [];
        rendered_source_frame = false;
        placeholder = true;
        force_next_keyframe = true;
      } in
      let fs = (start_current_output u now).1 in
      omega (
        arith,
        closings-append f (close_all w.source_buffer) fs,
        ap (count f) (closed_frames-close_all w.source_buffer),
        start-Conserves f u now,
      )

  guarded-Conserves :
      (w : Worker D) (b : Bool) (o : Outcome D)
      → Conserves f 0 w o
      → Conserves f 0 w (if b then (w, []) else o)
  guarded-Conserves w true o h = omega arith
  guarded-Conserves w false o h = h

  pause-Conserves : (w : Worker D) → Conserves f 0 w (transport_pause w)
  unfolding transport_pause clear_pacing_timer
  pause-Conserves w = ground arith

  begin-Conserves : (w : Worker D) → Conserves f 0 w (reconfigure_begin w)
  unfolding reconfigure_begin clear_pacing_timer
  begin-Conserves w = omega arith

  close-Conserves : (w : Worker D) → Conserves f 0 w (begin_close w)
  unfolding begin_close clear_pacing_timer
  close-Conserves w = omega arith

  finish-Conserves : (w : Worker D) → Conserves f 0 w (finish_close w)
  unfolding finish_close clear_source_buffer
  finish-Conserves w = omega (arith, ap (count f) (closed_frames-close_all w.source_buffer))

captured-cons :
    (f : ℕ) (c : Call) (cs : List Call) → captured f (c ∷ cs) ≡ captured f (c ∷ []) + captured f cs
captured-cons f (paces e) cs = omega arith
captured-cons f (syncs samples now later) cs = omega arith
captured-cons f (captures frame now later) cs = omega arith
captured-cons f (ends_capture now) cs = omega arith
captured-cons f (resumes now) cs = omega arith
captured-cons f (transport_resumes now) cs = omega arith
captured-cons f (reconfigure_fails now) cs = omega arith
captured-cons f transport_pauses cs = omega arith
captured-cons f reconfigure_begins cs = omega arith
captured-cons f begins_close cs = omega arith
captured-cons f finishes_close cs = omega arith
captured-cons f (reconfigure_commits m now) cs = omega arith

module _ {ℓ} {D : Type ℓ} ⦃n : Number D⦄ (f : ℕ) where
  step-Conserves : (w : Worker D) (c : Call) → Conserves f (captured f (c ∷ [])) w (step w c)
  unfolding step resume transport_resume reconfigure_fail reconfigure_commit
  step-Conserves w (paces e) = run_pacing-Conserves f w e
  step-Conserves w (syncs samples now later) =
      guarded-Conserves f w w.closed (sync_audio_clock w samples now later)
        (sync-Conserves f w samples now later)
  step-Conserves w (captures frame now later) =
      omega (arith, on_source_frame-Conserves f w frame now later)
  step-Conserves w (ends_capture now) = enter_placeholder-Conserves f w now
  step-Conserves w (resumes now) =
      let u : Worker D = record w { paused = false; force_next_keyframe = true } in
      guarded-Conserves f w w.closed (start_current_output u now) (start-Conserves f u now)
  step-Conserves w (transport_resumes now) =
      let u : Worker D = record w { network_paused = false; force_next_keyframe = true } in
      guarded-Conserves f w w.closed (start_current_output u now) (start-Conserves f u now)
  step-Conserves w (reconfigure_fails now) =
      let u : Worker D = record w { paused = false } in start-Conserves f u now
  step-Conserves w transport_pauses = pause-Conserves f w
  step-Conserves w reconfigure_begins = begin-Conserves f w
  step-Conserves w begins_close = close-Conserves f w
  step-Conserves w finishes_close = finish-Conserves f w
  step-Conserves w (reconfigure_commits m now) = omega arith

  -- No captured frame is lost or closed twice: in every history, a frame was closed and stands in the
  -- buffer as often, together, as it stood in the buffer before and was captured.
  pub closings-run_conserved :
      (w : Worker D) (cs : List Call)
      → let (u, es) = run w cs in
        closings f es + count f u.source_buffer ≡ count f w.source_buffer + captured f cs
  unfolding run
  closings-run_conserved w [] = omega arith
  closings-run_conserved w (c ∷ cs) =
      let (u, es) = step w c in
      omega (
        arith,
        step-Conserves w c,
        closings-run_conserved u cs,
        closings-append f es (run u cs).1,
        captured-cons f c cs,
      )
