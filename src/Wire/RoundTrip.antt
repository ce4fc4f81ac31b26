-- ===== src/Wire/RoundTrip.antt =====
-- What the workers pack, the server takes apart again.
use vrcstreamer.Common.{
  inr, inl, ◌⊎◌, length-append, length-replicate, le→leb, ℕ, zero, suc, ◌+◌, ◌/◌, ◌%◌, ◌^◌, ◌<◌,
  ◌≡◌, refl, sym, ap, ◌∙◌, Bool, true, false, Option, none, some, List, [], ◌∷◌, ◌++◌, append-nil,
  arith, leb, if◌then◌else◌, length, set, replicate,
}
use vrcstreamer.Wire.{
  h264_clock_rate, rtp_timestamp_at, video_packet, create_media_packet, media_frame_header_bytes,
  write_bytes, set_bytes, stamp, audio_packet,
}
use vrcstreamer.Wire.Server.{
  Refusal, StreamerMediaFrame, audio, video, from_be_bytes, audio_or, video_or,
  validate_aac_access_unit, inspect_h264_access_unit, parse_streamer_media_frame,
}

write_bytes-cons :
    (x : ℕ) (p bytes : List ℕ) (offset : ℕ)
    → write_bytes (x ∷ p) bytes (suc offset) ≡ x ∷ write_bytes p bytes offset
unfolding write_bytes
write_bytes-cons x p [] offset = refl
write_bytes-cons x p (b ∷ bytes) offset = write_bytes-cons x (set p offset b) bytes (suc offset)

write_bytes_front :
    (bytes mid post : List ℕ)
    → length bytes ≡ length mid
    → write_bytes (mid ++ post) bytes 0 ≡ bytes ++ post
unfolding write_bytes
write_bytes_front [] [] post e = refl
write_bytes_front (b ∷ bytes) [] post e = absurd (omega arith)
write_bytes_front [] (m ∷ mid) post e = absurd (omega arith)
write_bytes_front (b ∷ bytes) (m ∷ mid) post e =
    write_bytes-cons b (mid ++ post) bytes 0
    ∙ ap (◌∷◌ b) (write_bytes_front bytes mid post (omega arith))

write_bytes-append :
    (pre bytes mid post : List ℕ)
    → length bytes ≡ length mid
    → write_bytes (pre ++ (mid ++ post)) bytes (length pre) ≡ pre ++ (bytes ++ post)
write_bytes-append [] bytes mid post e = write_bytes_front bytes mid post e
write_bytes-append (x ∷ pre) bytes mid post e =
    write_bytes-cons x (pre ++ (mid ++ post)) bytes (length pre)
    ∙ ap (◌∷◌ x) (write_bytes-append pre bytes mid post e)

-- Bytes that fit are written over what stood there, and the rest is kept.
set_bytes-append :
    (pre bytes mid post : List ℕ)
    → length bytes ≡ length mid
    → set_bytes (pre ++ (mid ++ post)) bytes (length pre) ≡ some (pre ++ (bytes ++ post))
unfolding set_bytes
set_bytes-append pre bytes mid post e =
    let fits : leb (length pre + length bytes) (length (pre ++ (mid ++ post))) ≡ true =
      le→leb _ _ (omega (arith, length-append pre (mid ++ post), length-append mid post)) in
    rw fits (ap some (write_bytes-append pre bytes mid post e))

abbrev pub header : ℕ → ℕ → List ℕ
header kind ts = kind ∷ ts / 2 ^ 24 % 256 ∷ ts / 2 ^ 16 % 256 ∷ ts / 2 ^ 8 % 256 ∷ ts % 256 ∷ []

stamp-replicate :
    (n kind ts : ℕ)
    → stamp (replicate (n + media_frame_header_bytes) 0) kind ts ≡ header kind ts ++ replicate n 0
unfolding stamp
stamp-replicate n kind ts = let e : n + 5 ≡ suc (suc (suc (suc (suc n)))) = omega arith in rw e refl

replicate-add : (m n : ℕ) → replicate {A = ℕ} (m + n) 0 ≡ replicate m 0 ++ replicate n 0
replicate-add zero n = let e : 0 + n ≡ n = omega arith in rw e refl
replicate-add (suc m) n =
    let e : suc m + n ≡ suc (m + n) = omega arith in rw e (ap (◌∷◌ 0) (replicate-add m n))

set_bytes_end :
    (pre bytes mid : List ℕ)
    → length bytes ≡ length mid
    → set_bytes (pre ++ mid) bytes (length pre) ≡ some (pre ++ bytes)
set_bytes_end pre bytes mid e = let h = set_bytes-append pre bytes mid [] e in simp append-nil at h

zeros_length : (bytes : List ℕ) → length bytes ≡ length (replicate {A = ℕ} (length bytes) 0)
zeros_length bytes = sym (length-replicate (length bytes) 0)

audio_packet-eq : (unit : List ℕ) (ts : ℕ) → audio_packet unit ts ≡ some (header 0 ts ++ unit)
unfolding audio_packet create_media_packet
audio_packet-eq unit ts =
    rw (stamp-replicate (length unit) 0 ts)
      (set_bytes_end (header 0 ts) unit (replicate (length unit) 0) (zeros_length unit))

-- The bytes that `sendVideoPacket` puts between the frame header and the chunk.
abbrev pub parameter_sets : Bool → Option (List ℕ) → List ℕ
parameter_sets key none = []
parameter_sets key (some h) = if key then h else []

packed :
    (kind ts : ℕ) (sets unit : List ℕ)
    → elim (set_bytes
          (stamp (replicate (length unit + length sets + media_frame_header_bytes) 0) kind ts)
          sets
          media_frame_header_bytes)
        as (λ _. Option (List ℕ)) [
          | none ↦ none
          | some p ↦ set_bytes p unit (media_frame_header_bytes + length sets)
        ]
      ≡ some (header kind ts ++ (sets ++ unit))
packed kind ts sets unit =
    let c : length unit + length sets ≡ length sets + length unit = omega arith in
    let n : media_frame_header_bytes + length sets ≡ length (header kind ts ++ sets) =
      omega arith in
    rw
      (
        stamp-replicate (length unit + length sets) kind ts,
        c,
        replicate-add (length sets) (length unit),
        set_bytes-append (header kind ts) sets (replicate (length sets) 0)
            (replicate (length unit) 0) (zeros_length sets),
        n,
      )
      (set_bytes_end (header kind ts ++ sets) unit (replicate (length unit) 0) (zeros_length unit))

video_packet-eq :
    (key : Bool) (sets : Option (List ℕ)) (unit : List ℕ) (us : ℕ)
    → video_packet key sets unit us
      ≡ some (
          header (if key then 1 else 2) (rtp_timestamp_at h264_clock_rate us)
          ++ (parameter_sets key sets ++ unit))
unfolding video_packet
video_packet-eq true none unit us = packed 1 _ [] unit
video_packet-eq false none unit us = packed 2 _ [] unit
video_packet-eq true (some h) unit us = packed 1 _ h unit
video_packet-eq false (some h) unit us = packed 2 _ [] unit

rtp_timestamp_at-lt : (rate us : ℕ) → rtp_timestamp_at rate us < 2 ^ 32
unfolding rtp_timestamp_at
rtp_timestamp_at-lt rate us = omega arith

timestamp_bytes :
    (ts : ℕ)
    → ts < 2 ^ 32
    → from_be_bytes (ts / 2 ^ 24 % 256) (ts / 2 ^ 16 % 256) (ts / 2 ^ 8 % 256) (ts % 256) ≡ ts
timestamp_bytes ts h = omega arith

-- Packing an AAC access unit under a 32-bit timestamp never fails, and the server, with any
-- configuration, reads back an audio frame with that timestamp and those bytes if it accepts
-- the access unit, and else gives the reason that it has against that access unit.
pub audio_packet-parse :
    (video_enabled : Bool) (max_bytes : ℕ) (unit : List ℕ) (ts : ℕ)
    → ts < 2 ^ 32
    → (packet : List ℕ) × (audio_packet unit ts ≡ some packet)
      × (parse_streamer_media_frame video_enabled max_bytes packet
          ≡ elim (validate_aac_access_unit unit) as (λ _. StreamerMediaFrame ⊎ Refusal) [
            | none ↦ inl (audio unit ts)
            | some reason ↦ inr reason
          ])
      × (length packet ≡ length unit + media_frame_header_bytes)
unfolding parse_streamer_media_frame
audio_packet-parse video_enabled max_bytes unit ts h =
    let e = timestamp_bytes ts h in
    (
      header 0 ts ++ unit,
      audio_packet-eq unit ts,
      ap (audio_or (validate_aac_access_unit unit) unit) e
          ∙ by_check (validate_aac_access_unit unit),
      omega arith,
    )
  where
    by_check :
        (o : Option Refusal)
        → audio_or o unit ts ≡ elim o as (λ _. StreamerMediaFrame ⊎ Refusal) [
          | none ↦ inl (audio unit ts)
          | some reason ↦ inr reason
        ]
    by_check none = refl
    by_check (some reason) = refl

-- Packing an H.264 chunk never fails. A server with video enabled reads back a frame that is a key frame
-- exactly when the chunk is, with the chunk's time in 90 kHz ticks modulo 2^32, and with the parameter
-- sets in front of the chunk's bytes if it is a key frame, if it accepts these bytes as an access
-- unit, and else gives the reason that it has against them.
pub video_packet-parse :
    (max_bytes : ℕ) (key : Bool) (sets : Option (List ℕ)) (chunk : List ℕ) (us : ℕ)
    → let unit = parameter_sets key sets ++ chunk in
      (packet : List ℕ) × (video_packet key sets chunk us ≡ some packet)
      × (parse_streamer_media_frame true max_bytes packet
          ≡ elim (inspect_h264_access_unit unit key max_bytes)
              as (λ _. StreamerMediaFrame ⊎ Refusal) [
                | inl single_nal ↦
                    inl (video unit key single_nal (rtp_timestamp_at h264_clock_rate us))
                | inr reason ↦ inr reason
              ])
unfolding parse_streamer_media_frame
video_packet-parse max_bytes key sets chunk us =
    (header (if key then 1 else 2) ts ++ unit, video_packet-eq key sets chunk us, parsed key)
  where
    ts : ℕ
    ts = rtp_timestamp_at h264_clock_rate us

    unit : List ℕ
    unit = parameter_sets key sets ++ chunk

    by_check :
        (k : Bool) (r : Bool ⊎ Refusal)
        → video_or r unit k ts ≡ elim r as (λ _. StreamerMediaFrame ⊎ Refusal) [
          | inl single_nal ↦ inl (video unit k single_nal ts)
          | inr reason ↦ inr reason
        ]
    by_check k (inl single_nal) = refl
    by_check k (inr reason) = refl

    e : from_be_bytes (ts / 2 ^ 24 % 256) (ts / 2 ^ 16 % 256) (ts / 2 ^ 8 % 256) (ts % 256) ≡ ts
    e = timestamp_bytes ts (rtp_timestamp_at-lt h264_clock_rate us)

    parsed :
        (k : Bool)
        → parse_streamer_media_frame true max_bytes (header (if k then 1 else 2) ts ++ unit)
          ≡ elim (inspect_h264_access_unit unit k max_bytes)
              as (λ _. StreamerMediaFrame ⊎ Refusal) [
                | inl single_nal ↦ inl (video unit k single_nal ts)
                | inr reason ↦ inr reason
              ]
    parsed true =
        ap (video_or (inspect_h264_access_unit unit true max_bytes) unit true) e
        ∙ by_check true (inspect_h264_access_unit unit true max_bytes)
    parsed false =
        ap (video_or (inspect_h264_access_unit unit false max_bytes) unit false) e
        ∙ by_check false (inspect_h264_access_unit unit false max_bytes)
