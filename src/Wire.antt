-- ===== src/Wire.antt =====
-- The media frames that the two workers send to the server, client/scripts/aac-worker.js and
-- client/scripts/video-worker.js, with their timestamps. Bytes are numbers below 256.
pub mod Server
pub mod RoundTrip
pub mod Clock
pub mod Tests
use vrcstreamer.Common.{
  ℕ, zero, suc, ◌+◌, ◌-◌, ◌*◌, ◌/◌, ◌%◌, ◌^◌, ◌≤◌, ◌<◌, min, max, ◌≡◌, refl, sym, ap, ◌∙◌, ◌≢◌, ◌↔◌,
  ◌⊎◌, inl, inr, Bool, true, false, not, ◌&&◌, ◌||◌, Option, none, some, List, [], ◌∷◌, ◌++◌, map,
  append_assoc, append-nil, arith, ltb, leb, ◌==◌, if◌then◌else◌, Bool-cases, Option-cases, is_some,
  length, get_elem?, get_or, set, take, drop, replicate, All,
}

abbrev pub media_frame_header_bytes : ℕ
media_frame_header_bytes = 5

abbrev pub h264_clock_rate : ℕ
h264_clock_rate = 90000

-- `new Uint8Array(size)` is `replicate size 0`. `set_bytes p bytes offset` is `p.set(bytes, offset)`,
-- which throws (`none`) where the bytes do not fit.
pub write_bytes : List ℕ → List ℕ → ℕ → List ℕ
write_bytes p [] offset = p
write_bytes p (b ∷ bytes) offset = write_bytes (set p offset b) bytes (suc offset)

pub set_bytes : List ℕ → List ℕ → ℕ → Option (List ℕ)
unfolding write_bytes
set_bytes p bytes offset =
    if leb (offset + length bytes) (length p) then some (write_bytes p bytes offset) else none

-- A store into a Uint8Array keeps the low eight bits.
pub stamp : List ℕ → ℕ → ℕ → List ℕ
stamp packet kind ts =
    set
      (set (set (set (set packet 0 kind) 1 (ts / 2 ^ 24 % 256)) 2 (ts / 2 ^ 16 % 256)) 3
        (ts / 2 ^ 8 % 256))
      4 (ts % 256)

pub create_media_packet : ℕ → ℕ → List ℕ
create_media_packet size rtp_timestamp =
    stamp (replicate (size + media_frame_header_bytes) 0) 0 rtp_timestamp

-- A packet of the AAC worker: a header, and the access unit copied behind it.
pub audio_packet : List ℕ → ℕ → Option (List ℕ)
audio_packet unit rtp_timestamp =
    set_bytes (create_media_packet (length unit) rtp_timestamp) unit media_frame_header_bytes

-- `Math.round(chunk.timestamp * sampleRate / 1000000) >>> 0` for a time in whole microseconds.
pub rtp_timestamp_at : ℕ → ℕ → ℕ
rtp_timestamp_at rate us = (2 * us * rate + 1000000) / 2000000 % 2 ^ 32

-- `Math.round(timestampSamples * 1000000 / sampleRate)`.
pub us_of_samples : ℕ → ℕ → ℕ
us_of_samples rate samples = (2 * samples * 1000000 + rate) / (2 * rate)

-- `sendVideoPacket`: the packet for a chunk. Parameter sets go in front of a key frame only.
pub video_packet : Bool → Option (List ℕ) → List ℕ → ℕ → Option (List ℕ)
video_packet key header unit us =
    let sets : List ℕ = if key then elim header [ none ↦ [] | some h ↦ h ] else [] in
    let packet =
      stamp (replicate (length unit + length sets + media_frame_header_bytes) 0)
        (if key then 1 else 2) (rtp_timestamp_at h264_clock_rate us) in
    elim (set_bytes packet sets media_frame_header_bytes) [
      | none ↦ none
      | some p ↦ set_bytes p unit (media_frame_header_bytes + length sets)
    ]
