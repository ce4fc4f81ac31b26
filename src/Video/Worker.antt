-- ===== src/Video/Worker.antt =====
-- The frame pacing of client/scripts/video-worker.js: its module variables as a record, and the
-- functions that run without a wait. Source frames are numbers. What a function does outside the
-- state is a list of events, oldest first.
pub mod Messages
use vrcstreamer.Common.{
  ℕ, ◌+◌, ◌-◌, ◌*◌, max, Bool, true, false, not, ◌&&◌, ◌||◌, Option, none, some, List, [], ◌∷◌,
  ◌++◌, ltb, leb, ◌==◌, if◌then◌else◌, is_some, length,
}
use vrcstreamer.Common.Int.{ℤ, pos, pos_part, neg_part, next}
use vrcstreamer.Video.RateControl.{VideoRateControl}
use vrcstreamer.Video.RateControl
use vrcstreamer.Video.Clock.{
  media_time, frame_above, frame_below, frame_timestamp_us, advance, audio_clock_grace_ms,
}

abbrev pub max_encoder_queue : ℕ
max_encoder_queue = 2

abbrev pub source_buffer_frames : ℕ
source_buffer_frames = 2

-- `source_buffer_ready_at` is (m, fps) for media time m plus the period of `fps`; `none` is 0.
pub record Worker {ℓ} (D : Type ℓ) : Type ℓ where
  pub source_buffer : List ℕ
  pub source_buffer_ready_at : Option (ℕ × ℕ)
  pub rendered_source_frame : Bool
  pub pacing_timer : Bool
  pub scheduled_frame_index : ℕ
  pub closed : Bool
  pub failed : Bool
  pub paused : Bool
  pub network_paused : Bool
  pub placeholder : Bool
  pub width : ℕ
  pub height : ℕ
  pub fps : ℕ
  pub bitrate_limit : ℕ
  pub rate_control : VideoRateControl D
  pub keyframe_interval : ℕ
  pub frame_period_us : ℕ
  pub audio_sample_rate : ℕ
  pub audio_clock_samples : ℕ
  pub audio_clock_updated_at : ℕ
  pub audio_clock_ready : Bool
  pub last_frame_index : ℤ
  pub last_timestamp_us : ℤ
  pub last_keyframe_timestamp_us : ℤ
  pub submitted : ℕ
  pub source_frames : ℕ
  pub source_buffer_drops : ℕ
  pub queue_drops : ℕ
  pub repeated_frames : ℕ
  pub force_next_keyframe : Bool

pub data Picture : Type 0 where
  source_picture : ℕ → Picture
  placeholder_picture repeated_picture : Picture

-- `closes f` is `close()` of a source frame, `encodes t d key q p` a call of `encoder.encode` for a
-- frame with timestamp t and duration d, `sets_timer n` a `setTimeout(runPacing, …)` with a delay of
-- n / (1000 * rate * fps) ms, `clears_timer` a `clearTimeout`, `fails` the
-- error message of `fail`.
pub data Event : Type 0 where
  closes : ℕ → Event
  encodes : ℕ → ℕ → Bool → ℕ → Picture → Event
  sets_timer : ℕ → Event
  clears_timer fails : Event

-- What a callback meets outside: the clock at its successive readings, the encoder (configured, its
-- queue), and whether making the frame or `encode` throws.
pub record Environment : Type 0 where
  pub now : ℕ
  pub ready_now : ℕ
  pub schedule_now : ℕ
  pub configured : Bool
  pub queue : ℕ
  pub draw_throws : Bool
  pub encode_throws : Bool

pub data Submission : Type 0 where
  accepted refused threw : Submission

abbrev pub Outcome {ℓ} : Type ℓ → Type ℓ
Outcome D = Worker D × List Event

-- `if (source) source.close()` of the `finally` of `runPacing`.
abbrev pub close_source : Option ℕ → List Event
close_source none = []
close_source (some f) = closes f ∷ []

module _ {ℓ} {D : Type ℓ} where
  abbrev pub media_time_ms : Worker D → ℕ → ℕ
  media_time_ms w now =
      media_time w.audio_clock_ready w.audio_sample_rate w.audio_clock_samples
        w.audio_clock_updated_at now

  pub audio_clock_is_fresh : Worker D → ℕ → Bool
  audio_clock_is_fresh w now =
      w.audio_clock_ready && ltb (now - w.audio_clock_updated_at) (audio_clock_grace_ms * 1000)

  abbrev pub is_stopped : Worker D → Bool
  is_stopped w = w.closed || w.paused || w.network_paused

  pub clear_pacing_timer : Worker D → Outcome D
  clear_pacing_timer w = (record w { pacing_timer = false }, clears_timer ∷ [])

  -- `closeAll` up to its first wait.
  pub begin_close : Worker D → Outcome D
  begin_close w =
      clear_pacing_timer (record w { closed = true; paused = true; network_paused = false })

  -- `fail` up to its first wait.
  pub fail : Worker D → Outcome D
  fail w =
      let (u, es) = begin_close (record w { failed = true }) in
      if w.failed then (w, []) else (u, fails ∷ es)

  pub schedule_next_frame : Worker D → ℕ → Outcome D
  schedule_next_frame w now =
      let m = media_time_ms w now in
      let index = max (frame_above w.audio_sample_rate w.fps m) (next w.last_frame_index) in
      let delay = index * 1000000 * w.audio_sample_rate - m * w.fps in
      if is_stopped w || w.pacing_timer || not w.audio_clock_ready
      then (w, [])
      else (record w { scheduled_frame_index = index; pacing_timer = true }, sets_timer delay ∷ [])

  pub start_current_output : Worker D → ℕ → Outcome D
  start_current_output w now =
      if is_stopped w
      then (w, [])
      else if not w.placeholder && not w.rendered_source_frame && length w.source_buffer == 0
      then (w, [])
      else schedule_next_frame w now

  -- `submitFrame`. The test for a key frame is `timestamp - last >= interval * period`.
  pub wants_keyframe : Worker D → ℕ → Bool
  wants_keyframe w timestamp =
      w.force_next_keyframe
      || leb (w.keyframe_interval * w.frame_period_us + pos_part w.last_keyframe_timestamp_us)
          (timestamp + neg_part w.last_keyframe_timestamp_us)

  pub submit_frame : Worker D → Environment → Picture → ℕ → ℕ → Worker D × List Event × Submission
  submit_frame w e picture timestamp duration =
      let key = wants_keyframe w timestamp in
      let (control, quantizer) = RateControl.submit w.rate_control timestamp in
      let repeated : Bool = elim picture [
        | repeated_picture ↦ true
        | placeholder_picture ↦ false
        | source_picture f ↦ false
      ] in
      let asked : Worker D = record w { rate_control = control } in
      let done : Worker D = record asked {
        force_next_keyframe = false;
        last_keyframe_timestamp_us = if key then pos timestamp else w.last_keyframe_timestamp_us;
        repeated_frames = if repeated then w.repeated_frames + 1 else w.repeated_frames;
        submitted = w.submitted + 1;
      } in
      if is_stopped w || not e.configured
      then (w, [], refused)
      else if leb max_encoder_queue e.queue
      then (record w { queue_drops = w.queue_drops + 1 }, [], refused)
      else if e.draw_throws
      then (w, [], threw)
      else if e.encode_throws
      then (asked, [], threw)
      else (done, encodes timestamp duration key quantizer picture ∷ [], accepted)

  -- The front of the buffer, if the pacing may take from it now.
  pub source_is_ready : Worker D → ℕ → Bool
  source_is_ready w now =
      let waited : Bool = elim w.source_buffer_ready_at [
        | none ↦ true
        | some (m, fps) ↦ leb (m * fps + 1000000 * w.audio_sample_rate) (media_time_ms w now * fps)
      ] in
      not w.placeholder
      && (w.rendered_source_frame || leb source_buffer_frames (length w.source_buffer) || waited)

  pub take_source : Worker D → Bool → Worker D × Option ℕ
  take_source w ready = elim w.source_buffer [
    | [] ↦ (w, none)
    | f ∷ fs ↦ if ready then (record w { source_buffer = fs }, some f) else (w, none)
  ]

  pub choose_picture : Worker D → Option ℕ → Picture
  choose_picture w none =
      if w.placeholder || not w.rendered_source_frame then placeholder_picture else repeated_picture
  choose_picture w (some f) = source_picture f

  -- What follows the submission, by its result.
  pub conclude : Worker D → Option ℕ → ℕ → List Event → Submission → Outcome D
  conclude u source now es threw = let (v, fs) = fail u in (v, es ++ (fs ++ close_source source))
  conclude u source now es refused =
      let (v, fs) = schedule_next_frame u now in (v, es ++ (close_source source ++ fs))
  conclude u source now es accepted =
      let drawn : Worker D = record u {
        rendered_source_frame = u.rendered_source_frame || is_some source;
      } in
      let (v, fs) = schedule_next_frame drawn now in (v, es ++ (close_source source ++ fs))

  -- From the submission on, for a source that was taken.
  pub finish_pacing : Worker D → Environment → Option ℕ → ℕ → ℕ → Outcome D
  finish_pacing w e source timestamp duration =
      let (u, es, result) = submit_frame w e (choose_picture w source) timestamp duration in
      conclude u source e.schedule_now es result

  -- The index of the frame that is due; the loop has fuel for every microsecond up to the last frame.
  pub due_index : Worker D → ℕ → ℕ
  due_index w now =
      let floor = next w.last_timestamp_us in
      let below = frame_below w.audio_sample_rate w.fps (media_time_ms w now) in
      advance floor w.fps floor (max w.scheduled_frame_index (max below (next w.last_frame_index)))

  pub render_due : Worker D → Environment → Outcome D
  render_due w e =
      let index = due_index w e.now in
      let timestamp = frame_timestamp_us w.fps index in
      let duration = frame_timestamp_us w.fps (index + 1) - timestamp in
      let u : Worker D = record w {
        last_frame_index = pos index;
        last_timestamp_us = pos timestamp;
      } in
      let (v, source) = take_source u (source_is_ready u e.ready_now) in
      finish_pacing v e source timestamp duration

  pub run_pacing : Worker D → Environment → Outcome D
  run_pacing w e =
      let u : Worker D = record w { pacing_timer = false } in
      let m = media_time_ms w e.now in
      let due = w.scheduled_frame_index * 1000000 * w.audio_sample_rate in
      let delay = max (1000 * w.audio_sample_rate * w.fps) (due - m * w.fps) in
      if is_stopped w
      then (u, [])
      else if ltb (m * w.fps) due
      then if audio_clock_is_fresh w e.ready_now
        then (record u { pacing_timer = true }, sets_timer delay ∷ [])
        else (u, [])
      else render_due u e
