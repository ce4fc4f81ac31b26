-- ===== src/Publisher/AudioSend/Stale.antt =====
-- The age test of streamer.js on 32-bit sample counts against true sample times.
use vrcstreamer.Publisher.AudioSend.{max_audio_packet_age_samples, audio_timestamp_is_stale}
use vrcstreamer.Common.{ℕ, ◌+◌, ◌^◌, ◌<◌, ◌≡◌, ◌↔◌, true, some, arith}

-- For sample times less than 2^31 apart, however often their 32-bit counts have wrapped, the test
-- says stale exactly when the packet is more than half a second older than the clock.
pub audio_timestamp_is_stale_iff :
    (clock source : ℕ)
    → clock < source + 2 ^ 31
    → source < clock + 2 ^ 31
    → (audio_timestamp_is_stale clock (some source) ≡ true)
      ↔ (source + max_audio_packet_age_samples < clock)
unfolding audio_timestamp_is_stale
audio_timestamp_is_stale_iff clock source a b = ground arith
