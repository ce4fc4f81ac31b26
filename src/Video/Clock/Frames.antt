-- ===== src/Video/Clock/Frames.antt =====
-- Frame times of video-worker.js.
use vrcstreamer.Video.Clock.{advance, frame_timestamp_us}
use vrcstreamer.Common.{ℕ, zero, suc, ◌+◌, ◌≤◌, ◌<◌, arith}

-- At no more than a million frames per second each frame's time is later than the one before.
pub frame_timestamp_us_step :
    (fps index : ℕ)
    → 0 < fps
    → fps ≤ 1000000
    → frame_timestamp_us fps index < frame_timestamp_us fps (index + 1)
unfolding frame_timestamp_us
frame_timestamp_us_step fps index a b = grind arith

-- With a round for each microsecond of `floor`, the loop ends by its test.
pub advance_enough :
    (fuel fps floor index : ℕ)
    → 0 < fps
    → fps ≤ 1000000
    → floor ≤ frame_timestamp_us fps index + fuel
    → (floor ≤ frame_timestamp_us fps (advance fuel fps floor index))
      × (index ≤ advance fuel fps floor index)
unfolding advance
advance_enough zero fps floor index a b h = omega arith
advance_enough (suc fuel) fps floor index a b h =
    ground
      (arith, frame_timestamp_us_step fps index a b, advance_enough fuel fps floor (index + 1) a b)
