-- ===== src/Video/RateControl/Tests.antt =====
-- Runs of the quantizer control of video-worker.js, and its theorems at concrete inputs.
use vrcstreamer.Common.{
  true, List, min, ◌+◌, ◌≤◌, ◌≡◌, refl, false, none, [], ◌∷◌, arith, replicate,
}
use vrcstreamer.Common.Int.{ℤ, pos}
use vrcstreamer.Common.Decimal.{decimal_number, decimal-IsOrdered}
use vrcstreamer.Video.RateControl.{
  resets, updates, Call, max_quantizer, VideoRateControl, submits, records, reset, record_frame,
  run, step, submit, frame_quantizer, free_slot, blocked_minimum, spend, overflow,
  quantizer_history_size,
}
use vrcstreamer.Video.RateControl.Block.{quantizer-run_blocked}
use vrcstreamer.Video.RateControl.Bounds.{IsInRange, run-reset-IsInRange}

-- The object as constructed; the fields that only `reset` sets hold 0.
abbrev created : VideoRateControl ℤ
created = record {
  frame_timestamps = replicate quantizer_history_size none;
  frame_quantizers = replicate quantizer_history_size 0;
  min_quantizer = 0;
  blocked_until = pos 0;
  budget = pos 0;
  capacity = pos 0;
  available = pos 0;
  updated_at = pos 0;
  adjusted_at = pos 0;
  smoothed_bitrate = pos 0;
  quantizer = 0;
  adjustments = 0;
  frame_slot = 0;
}

-- 2 Mbit/s at 30 frames per second, 1 s after the clock's origin.
abbrev started : VideoRateControl ℤ
started = reset created 2_000_000 30 (pos 1_000_000) false

-- One frame, and the megabyte that it was coded to.
burst : VideoRateControl ℤ
burst = record_frame (run started (submits 33 ∷ [])) 1_000_000 (pos 1_100_000) 33

burst_quantizer : burst.quantizer ≡ 25
unfolding burst record_frame run step submit frame_quantizer free_slot blocked_minimum spend
    overflow reset
burst_quantizer = refl

run-reset-IsInRange_example : IsInRange (
    run
      (reset created 2_000_000 30 (pos 1_000_000) false)
      (submits 33 ∷ records 1_000_000 (pos 1_100_000) 33 ∷ []))
run-reset-IsInRange_example =
    run-reset-IsInRange created 2_000_000 30 (pos 1_000_000) false
      (submits 33 ∷ records 1_000_000 (pos 1_100_000) 33 ∷ []) (omega arith) refl

-- The same frame; later a large improvement is offered and a smaller frame is recorded.
abbrev in_flight : VideoRateControl ℤ
in_flight = run started (submits 33 ∷ [])

abbrev later : List (Call ℤ)
later =
    updates (pos 1000) (pos 1000) (pos 9_000_000) true
    ∷ records 10 (pos 15_000_000) 34
    ∷ resets 4_000_000 60 (pos 16_000_000) true
    ∷ []

quantizer-run_blocked_example :
    min max_quantizer (frame_quantizer in_flight 33 + 1)
    ≤ (run (record_frame in_flight 1_000_000 (pos 1_100_000) 33) later).quantizer
unfolding run step submit free_slot blocked_minimum spend reset
quantizer-run_blocked_example =
    quantizer-run_blocked decimal-IsOrdered (pos 1_100_000) 1_000_000 33 in_flight later
      (run-reset-IsInRange created 2_000_000 30 (pos 1_000_000) false (submits 33 ∷ [])
        (omega arith) refl)
      refl refl (refl, ((refl, refl), ((refl, refl), tt)))
