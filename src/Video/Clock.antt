-- ===== src/Video/Clock.antt =====
-- Times of client/scripts/video-worker.js. `performance.now()` is a whole number of microseconds.
-- Media time is exact: a number m stands for m / (1000 * rate) ms, with `rate` the audio sample rate,
-- so that a sample is 1000000 and a microsecond is `rate`.
pub mod Frames
use vrcstreamer.Common.{
  ℕ, zero, suc, ◌+◌, ◌-◌, ◌*◌, ◌/◌, ◌%◌, ◌^◌, ◌≤◌, ◌<◌, min, max, ◌≡◌, refl, sym, ap, ◌∙◌, ◌≢◌, ◌↔◌,
  ◌⊎◌, inl, inr, Bool, true, false, not, ◌&&◌, ◌||◌, Option, none, some, List, [], ◌∷◌, ◌++◌, map,
  append_assoc, append-nil, arith, ltb, leb, ◌==◌, if◌then◌else◌, Bool-cases, Option-cases, is_some,
  length, get_elem?, get_or, set, take, drop, replicate, All,
}

abbrev pub audio_clock_grace_ms : ℕ
audio_clock_grace_ms = 100

abbrev pub audio_clock_keyframe_gap_ms : ℕ
audio_clock_keyframe_gap_ms = 1000

-- `frameTimestampUs`: `Math.round(frameIndex * 1000000 / fps)`.
pub frame_timestamp_us : ℕ → ℕ → ℕ
frame_timestamp_us fps index = (2 * index * 1000000 + fps) / (2 * fps)

-- `mediaTimeMs`, for a clock that read `samples` at time `updated`.
pub media_time : Bool → ℕ → ℕ → ℕ → ℕ → ℕ
media_time ready rate samples updated now =
    if ready
    then samples * 1000000 + min (now - updated) (audio_clock_grace_ms * 1000) * rate
    else 0

-- `Math.ceil(elapsedMs * fps / 1000)` and `Math.floor(elapsedMs * fps / 1000)`.
pub frame_above : ℕ → ℕ → ℕ → ℕ
frame_above rate fps m = (m * fps + 1000000 * rate - 1) / (1000000 * rate)

pub frame_below : ℕ → ℕ → ℕ → ℕ
frame_below rate fps m = m * fps / (1000000 * rate)

-- The loop `while (timestamp <= lastTimestampUs) frameIndex++`, where `floor` is one more than
-- `lastTimestampUs`.
pub advance : ℕ → ℕ → ℕ → ℕ → ℕ
advance zero fps floor index = index
advance (suc fuel) fps floor index = elim (ltb (frame_timestamp_us fps index) floor) [
  | true ↦ advance fuel fps floor (index + 1)
  | false ↦ index
]
