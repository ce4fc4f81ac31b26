-- ===== src/Video/Worker/Messages/Tests.antt =====
-- A short life of the worker, and the theorems on its histories at it.
use vrcstreamer.Common.{ℕ, ◌+◌, ◌≡◌, refl, true, false, none, some, List, [], ◌∷◌, arith, replicate}
use vrcstreamer.Common.Int.{ℤ, pos, negsuc}
use vrcstreamer.Common.Decimal.{decimal_number}
use vrcstreamer.Video.RateControl.{VideoRateControl, quantizer_history_size}
use vrcstreamer.Video.Worker.{Worker, Environment}
use vrcstreamer.Video.Worker.Messages.{
  Call, run, paces, syncs, captures, transport_resumes, transport_pauses,
}
use vrcstreamer.Video.Worker.Messages.Timestamps.{frames-run-IsAscending}
use vrcstreamer.Video.Worker.Messages.FrameTimes.{frames, IsAscending}
use vrcstreamer.Video.Worker.Messages.Frames.{closings-run_conserved}
use vrcstreamer.Video.Worker.Messages.ClosedFrames.{count, closings}
use vrcstreamer.Video.Worker.Messages.Keyframes.{run-IsFirstKey}
use vrcstreamer.Video.Worker.Messages.KeyRequests.{keys, IsFirstKey, after_transport}

abbrev control : VideoRateControl ℤ
control = record {
  frame_timestamps = replicate quantizer_history_size none;
  frame_quantizers = replicate quantizer_history_size 0;
  min_quantizer = 18;
  blocked_until = pos 0;
  budget = pos 2000000;
  capacity = pos 2000000;
  available = pos 2000000;
  updated_at = pos 0;
  adjusted_at = pos 0;
  smoothed_bitrate = pos 0;
  quantizer = 24;
  adjustments = 0;
  frame_slot = 0;
}

-- As `init` leaves it for 640x360 at 30 frames per second.
abbrev ready : Worker ℤ
ready = record {
  source_buffer = [];
  source_buffer_ready_at = none;
  rendered_source_frame = false;
  pacing_timer = false;
  scheduled_frame_index = 0;
  closed = false;
  failed = false;
  paused = false;
  network_paused = false;
  placeholder = true;
  width = 640;
  height = 360;
  fps = 30;
  bitrate_limit = 2000000;
  rate_control = control;
  keyframe_interval = 30;
  frame_period_us = 33333;
  audio_sample_rate = 48000;
  audio_clock_samples = 0;
  audio_clock_updated_at = 0;
  audio_clock_ready = false;
  last_frame_index = negsuc 0;
  last_timestamp_us = negsuc 0;
  last_keyframe_timestamp_us = negsuc 999989;
  submitted = 0;
  source_frames = 0;
  source_buffer_drops = 0;
  queue_drops = 0;
  repeated_frames = 0;
  force_next_keyframe = true;
}

abbrev at_ : ℕ → Environment
at_ t = record {
  now = t;
  ready_now = t;
  schedule_now = t;
  configured = true;
  queue = 0;
  draw_throws = false;
  encode_throws = false;
}

-- The audio clock starts; two frames are captured, the first frames are paced, the transport pauses
-- and is attached again.
abbrev calls : List Call
calls =
    syncs (some 1024) 100000 100000
    ∷ captures 7 100000 100000
    ∷ captures 8 101000 101000
    ∷ paces (at_ 133400)
    ∷ transport_pauses
    ∷ transport_resumes 140000
    ∷ paces (at_ 166800)
    ∷ []

frames-run-IsAscending_example : IsAscending 0 (frames (run ready calls).1)
frames-run-IsAscending_example =
    frames-run-IsAscending ready calls (omega arith, omega arith)
      (tt, (tt, (tt, (tt, (tt, (tt, (tt, tt)))))))

closings-run_conserved_example :
    closings 7 (run ready calls).1 + count 7 (run ready calls).0.source_buffer ≡ 1
closings-run_conserved_example = closings-run_conserved 7 ready calls

run-IsFirstKey_example : IsFirstKey (keys (run ready (transport_resumes 90000 ∷ calls)).1)
run-IsFirstKey_example = run-IsFirstKey ready (transport_resumes 90000) calls after_transport refl
