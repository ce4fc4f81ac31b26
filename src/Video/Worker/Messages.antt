-- ===== src/Video/Worker/Messages.antt =====
-- What moves the pacing of client/scripts/video-worker.js: its messages, captured frames and the
-- end of a capture, up to or between the waits of the code, and histories of these.
pub mod FrameTimes
pub mod Timestamps
pub mod ClosedFrames
pub mod Frames
pub mod KeyRequests
pub mod Keyframes
pub mod Tests
use vrcstreamer.Common.{
  ℕ, zero, suc, ◌+◌, ◌-◌, ◌*◌, ◌/◌, ◌%◌, ◌^◌, ◌≤◌, ◌<◌, min, max, ◌≡◌, refl, sym, ap, ◌∙◌, ◌≢◌, ◌↔◌,
  ◌⊎◌, inl, inr, Bool, true, false, not, ◌&&◌, ◌||◌, Option, none, some, List, [], ◌∷◌, ◌++◌, map,
  append_assoc, append-nil, arith, ltb, leb, ◌==◌, if◌then◌else◌, Bool-cases, Option-cases, is_some,
  length, get_elem?, get_or, set, take, drop, replicate, All,
}
use vrcstreamer.Common.Int.{ℤ, pos, negsuc, sub_ℕ}
use vrcstreamer.Common.Number.{Number}
use vrcstreamer.Video.RateControl
use vrcstreamer.Video.Clock.{audio_clock_keyframe_gap_ms}
use vrcstreamer.Video.Worker.{
  Worker, Event, closes, Environment, Outcome, start_current_output, run_pacing, clear_pacing_timer,
  begin_close, fail, media_time_ms, source_buffer_frames,
}

abbrev pub close_all : List ℕ → List Event
close_all = map closes

-- `Math.floor(t * fps / 1000000)`.
abbrev pub frame_index_below : ℕ → ℤ → ℤ
frame_index_below fps (pos t) = pos (t * fps / 1000000)
frame_index_below fps (negsuc t) = sub_ℕ 0 ((suc t * fps + 999999) / 1000000)

abbrev pub minus : ℤ → ℕ → ℤ
minus (pos t) k = sub_ℕ t k
minus (negsuc t) k = negsuc (t + k)

-- `Math.round(1000000 / fps)`.
abbrev pub period_us : ℕ → ℕ
period_us fps = (2 * 1000000 + fps) / (2 * fps)

pub record Preset : Type 0 where
  pub width : ℕ
  pub height : ℕ
  pub fps : ℕ
  pub bitrate : ℕ

module _ {ℓ} {D : Type ℓ} where
  -- `none` is a value that is no safe integer, or negative. The clock is read at `now`, and again at
  -- `later` to schedule a frame.
  pub sync_audio_clock : Worker D → Option ℕ → ℕ → ℕ → Outcome D
  sync_audio_clock w none now later = (w, [])
  sync_audio_clock w (some samples) now later =
      let gap =
        w.audio_clock_ready
        && leb (audio_clock_keyframe_gap_ms * 1000) (now - w.audio_clock_updated_at) in
      if w.audio_clock_ready && leb samples w.audio_clock_samples
      then (w, [])
      else start_current_output
          (record w {
            force_next_keyframe = w.force_next_keyframe || gap;
            audio_clock_samples = samples;
            audio_clock_updated_at = now;
            audio_clock_ready = true;
          })
          later

  pub clear_source_buffer : Worker D → Outcome D
  clear_source_buffer w = (record w { source_buffer = [] }, close_all w.source_buffer)

  -- With `start` as it is left out by every caller.
  pub enter_placeholder : Worker D → ℕ → Outcome D
  enter_placeholder w now =
      let (u, es) = clear_source_buffer w in
      let (v, fs) =
        start_current_output
          (record u {
            rendered_source_frame = false;
            placeholder = true;
            force_next_keyframe = true;
          })
          now in
      (v, es ++ fs)

  -- `sourceBuffer.shift().close()` of a full buffer.
  pub shift_full : Worker D → Outcome D
  shift_full w = elim w.source_buffer [
    | [] ↦ (w, [])
    | f ∷ fs ↦
        if length (f ∷ fs) == source_buffer_frames
        then (
          record w { source_buffer = fs; source_buffer_drops = w.source_buffer_drops + 1 },
          closes f ∷ [],
        )
        else (w, [])
  ]

  -- From `sourceBuffer.push(frame)` to `placeholder = false`.
  pub push_frame : Worker D → ℕ → ℕ → Worker D
  push_frame w frame now =
      let pushed : Worker D = record w { source_buffer = w.source_buffer ++ (frame ∷ []) } in
      let first : Worker D = record pushed {
        source_buffer_ready_at = some (media_time_ms w now, w.fps);
        rendered_source_frame = false;
        force_next_keyframe = true;
        placeholder = false;
      } in
      if w.placeholder then first else pushed

  pub on_source_frame : Worker D → ℕ → ℕ → ℕ → Outcome D
  on_source_frame w frame now later =
      let (u, es) = shift_full (record w { source_frames = w.source_frames + 1 }) in
      let (v, fs) = start_current_output (push_frame u frame now) later in (v, es ++ fs)

  pub resume : Worker D → ℕ → Outcome D
  resume w now =
      if w.closed
      then (w, [])
      else start_current_output (record w { paused = false; force_next_keyframe = true }) now

  pub transport_pause : Worker D → Outcome D
  transport_pause w =
      if w.closed then (w, []) else clear_pacing_timer (record w { network_paused = true })

  pub transport_resume : Worker D → ℕ → Outcome D
  transport_resume w now =
      if w.closed
      then (w, [])
      else start_current_output (record w { network_paused = false; force_next_keyframe = true })
          now

  -- `reconfigure`: what precedes the flush of the old encoder, what follows it, and the failure.
  pub reconfigure_begin : Worker D → Outcome D
  reconfigure_begin w = clear_pacing_timer (record w { paused = true })

  pub reconfigure_fail : Worker D → ℕ → Outcome D
  reconfigure_fail w now = start_current_output (record w { paused = false }) now

  -- The end of `closeAll`, after its first wait.
  pub finish_close : Worker D → Outcome D
  finish_close w = clear_source_buffer w

module _ {ℓ} {D : Type ℓ} ⦃n : Number D⦄ where
  pub reconfigure_commit : Worker D → Preset → ℕ → Worker D
  reconfigure_commit w m now =
      let keep = m.width == w.width && m.height == w.height in
      record w {
        width = m.width;
        height = m.height;
        fps = m.fps;
        bitrate_limit = m.bitrate;
        rate_control = RateControl.reset w.rate_control m.bitrate m.fps (n.num now 1000) keep;
        keyframe_interval = m.fps;
        frame_period_us = period_us m.fps;
        last_frame_index = frame_index_below m.fps w.last_timestamp_us;
        last_keyframe_timestamp_us = minus w.last_timestamp_us (m.fps * period_us m.fps);
        force_next_keyframe = true;
      }

  -- `init` between its first two waits; `none` is a sample rate that is not finite or not positive.
  pub begin_init : Worker D → Preset → Option ℕ → ℕ → Outcome D
  begin_init w m rate now =
      let period = period_us (max 1 m.fps) in
      let a : Worker D = record w {
        failed = false;
        closed = false;
        paused = false;
        network_paused = false;
        placeholder = true;
        width = m.width;
        height = m.height;
        fps = m.fps;
        bitrate_limit = m.bitrate;
        keyframe_interval = m.fps;
        frame_period_us = period;
      } in
      elim rate [
        | none ↦ fail a
        | some r ↦ (
          record a {
            audio_sample_rate = r;
            audio_clock_samples = 0;
            audio_clock_updated_at = 0;
            audio_clock_ready = false;
            last_frame_index = negsuc 0;
            last_timestamp_us = negsuc 0;
            source_buffer = [];
            source_buffer_ready_at = none;
            rendered_source_frame = false;
            scheduled_frame_index = 0;
            last_keyframe_timestamp_us = sub_ℕ 0 (m.fps * period);
            submitted = 0;
            source_frames = 0;
            source_buffer_drops = 0;
            queue_drops = 0;
            repeated_frames = 0;
            rate_control = RateControl.reset w.rate_control m.bitrate m.fps (n.num now 1000) false;
            force_next_keyframe = true;
          },
          [],
        )
      ]

-- One event of the worker's loop. A capture's end also stands for the placeholder message.
pub data Call : Type 0 where
  paces : Environment → Call
  syncs : Option ℕ → ℕ → ℕ → Call
  captures : ℕ → ℕ → ℕ → Call
  ends_capture resumes transport_resumes reconfigure_fails : ℕ → Call
  transport_pauses reconfigure_begins begins_close finishes_close : Call
  reconfigure_commits : Preset → ℕ → Call

module _ {ℓ} {D : Type ℓ} ⦃n : Number D⦄ where
  pub step : Worker D → Call → Outcome D
  step w (paces e) = run_pacing w e
  step w (syncs samples now later) =
      if w.closed then (w, []) else sync_audio_clock w samples now later
  step w (captures frame now later) = on_source_frame w frame now later
  step w (ends_capture now) = enter_placeholder w now
  step w (resumes now) = resume w now
  step w (transport_resumes now) = transport_resume w now
  step w (reconfigure_fails now) = reconfigure_fail w now
  step w transport_pauses = transport_pause w
  step w reconfigure_begins = reconfigure_begin w
  step w begins_close = begin_close w
  step w finishes_close = finish_close w
  step w (reconfigure_commits m now) = (reconfigure_commit w m now, [])

  pub run : Worker D → List Call → Outcome D
  run w [] = (w, [])
  run w (c ∷ cs) = let (u, es) = step w c in let (v, fs) = run u cs in (v, es ++ fs)
