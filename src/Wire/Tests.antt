-- ===== src/Wire/Tests.antt =====
-- Packets of the two workers at concrete inputs.
use vrcstreamer.Common.{
  ℕ, ◌%◌, ◌^◌, ◌≡◌, refl, true, some, List, [], ◌∷◌, ◌++◌, inl, inr, none, false, arith, length,
}
use vrcstreamer.Wire.{
  write_bytes, stamp, create_media_packet, set_bytes, audio_packet, video_packet, rtp_timestamp_at,
  us_of_samples, h264_clock_rate,
}
use vrcstreamer.Wire.Server.{
  audio, video, no_idr_slice, for_each_h264_nal, each_h264_nal, see_nal, start_h264_payload,
  rejected_container_signature, rejected_media_signature, looks_like_adts_frame,
  validate_aac_access_unit, inspect_h264_access_unit, parse_streamer_media_frame,
}
use vrcstreamer.Wire.RoundTrip.{audio_packet-parse, video_packet-parse}
use vrcstreamer.Wire.Clock.{rtp_timestamp_at-us_of_samples}

-- An access unit as an AAC encoder gives it.
abbrev raw_unit : List ℕ
raw_unit = 33 ∷ 16 ∷ 5 ∷ 32 ∷ 164 ∷ []

-- A start code and an IDR slice.
abbrev idr_slice : List ℕ
idr_slice = 0 ∷ 0 ∷ 1 ∷ 101 ∷ 136 ∷ 132 ∷ []

-- A start code and a sequence parameter set.
abbrev sps : List ℕ
sps = 0 ∷ 0 ∷ 0 ∷ 1 ∷ 103 ∷ 66 ∷ []

accepts_raw : validate_aac_access_unit raw_unit ≡ none
unfolding validate_aac_access_unit looks_like_adts_frame rejected_media_signature
    rejected_container_signature
accepts_raw = refl

accepts_idr : inspect_h264_access_unit (sps ++ idr_slice) true 100 ≡ inl false
unfolding inspect_h264_access_unit for_each_h264_nal each_h264_nal see_nal start_h264_payload
    rejected_container_signature
accepts_idr = refl

-- A key frame needs an IDR slice.
refuses_sps : inspect_h264_access_unit (0 ∷ 0 ∷ 1 ∷ 65 ∷ 1 ∷ []) true 100 ≡ inr no_idr_slice
unfolding inspect_h264_access_unit for_each_h264_nal each_h264_nal see_nal start_h264_payload
    rejected_container_signature
refuses_sps = refl

audio_packet-parse_example :
    (packet : List ℕ) × (audio_packet raw_unit 0x01020304 ≡ some packet)
    × (parse_streamer_media_frame true 100 packet ≡ inl (audio raw_unit 0x01020304))
    × (length packet ≡ 10)
unfolding validate_aac_access_unit looks_like_adts_frame rejected_media_signature
    rejected_container_signature
audio_packet-parse_example = audio_packet-parse true 100 raw_unit 0x01020304 (omega arith)

video_packet-parse_example :
    (packet : List ℕ) × (video_packet true (some sps) idr_slice 33333 ≡ some packet)
    × (parse_streamer_media_frame true 100 packet
        ≡ inl (video (sps ++ idr_slice) true false (rtp_timestamp_at h264_clock_rate 33333)))
unfolding inspect_h264_access_unit for_each_h264_nal each_h264_nal see_nal start_h264_payload
    rejected_container_signature
video_packet-parse_example = video_packet-parse 100 true (some sps) idr_slice 33333

rtp_timestamp_at-us_of_samples_example :
    rtp_timestamp_at 48000 (us_of_samples 48000 4294968319) ≡ 4294968319 % 2 ^ 32
rtp_timestamp_at-us_of_samples_example = rtp_timestamp_at-us_of_samples 4294968319

-- The bytes of an audio packet.
audio_bytes : audio_packet (33 ∷ 18 ∷ []) 0x01020304 ≡ some (0 ∷ 1 ∷ 2 ∷ 3 ∷ 4 ∷ 33 ∷ 18 ∷ [])
unfolding audio_packet set_bytes create_media_packet stamp write_bytes
audio_bytes = refl
