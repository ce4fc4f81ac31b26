-- ===== src/Wire/Clock.antt =====
-- The sample clock of the native AAC path through the codec's microseconds and back.
use vrcstreamer.Wire.{us_of_samples, rtp_timestamp_at}
use vrcstreamer.Common.{ℕ, ◌%◌, ◌^◌, ◌≡◌, arith}

-- At 48 kHz a block's sample count, turned into the codec's whole microseconds and back into RTP
-- ticks, is the sample count again, modulo 2^32.
pub rtp_timestamp_at-us_of_samples :
    (samples : ℕ) → rtp_timestamp_at 48000 (us_of_samples 48000 samples) ≡ samples % 2 ^ 32
unfolding rtp_timestamp_at us_of_samples
rtp_timestamp_at-us_of_samples samples = omega arith
