-- ===== src/Wire/Server.antt =====
-- How the server takes a media frame apart and which it refuses: `parse_streamer_media_frame` of
-- server/src/media.rs with its checks of the access unit. Bytes are numbers below 256.
use vrcstreamer.Common.{
  ℕ, zero, suc, ◌+◌, ◌-◌, ◌*◌, ◌/◌, ◌%◌, ◌^◌, ◌⊎◌, inl, inr, Bool, true, false, not, ◌&&◌, ◌||◌,
  Option, none, some, List, [], ◌∷◌, ◌++◌, ltb, leb, ◌==◌, if◌then◌else◌, length, get_or, drop,
}

abbrev pub aac_max_access_unit_bytes : ℕ
aac_max_access_unit_bytes = 4096

abbrev pub h264_max_nal_units : ℕ
h264_max_nal_units = 64

-- The texts of the errors.
pub data Refusal : Type 0 where
  empty_frame unknown_type video_disabled audio_header video_header : Refusal
  aac_too_small aac_too_large adts_frame video_codec : Refusal
  container mpeg_ts mpeg_audio : Refusal
  h264_too_small h264_too_large no_start_code too_many_nals forbidden_bit unsupported_nal : Refusal
  no_nals no_slice no_idr_slice : Refusal

abbrev pub has_prefix : List ℕ → List ℕ → Bool
has_prefix frame [] = true
has_prefix [] (c ∷ cs) = false
has_prefix (b ∷ frame) (c ∷ cs) = (b == c) && has_prefix frame cs

abbrev ftyp : List ℕ
ftyp = 102 ∷ 116 ∷ 121 ∷ 112 ∷ []

unfoldable pub rejected_container_signature : List ℕ → Option Refusal
rejected_container_signature frame =
    if has_prefix frame ftyp || has_prefix (drop 4 frame) ftyp
    then some container
    else if has_prefix frame (79 ∷ 103 ∷ 103 ∷ 83 ∷ [])
        || has_prefix frame (82 ∷ 73 ∷ 70 ∷ 70 ∷ [])
        || has_prefix frame (102 ∷ 76 ∷ 97 ∷ 67 ∷ [])
        || has_prefix frame (73 ∷ 68 ∷ 51 ∷ [])
        || has_prefix frame (0x1a ∷ 0x45 ∷ 0xdf ∷ 0xa3 ∷ [])
    then some container
    else if (get_or frame 0 0 == 0x47) && leb 188 (length frame) && (get_or frame 188 0 == 0x47)
    then some mpeg_ts
    else if (get_or frame 0 0 == 0xff) && (get_or frame 1 0 / 32 == 7)
    then some mpeg_audio
    else none

unfoldable pub rejected_media_signature : List ℕ → Option Refusal
rejected_media_signature frame = elim (rejected_container_signature frame) [
  | some reason ↦ some reason
  | none ↦
      if has_prefix frame (0 ∷ 0 ∷ 1 ∷ []) || has_prefix frame (0 ∷ 0 ∷ 0 ∷ 1 ∷ [])
      then some video_codec
      else none
]

unfoldable pub looks_like_adts_frame : List ℕ → Bool
looks_like_adts_frame frame =
    let header_len = if get_or frame 1 0 % 2 == 1 then 7 else 9 in
    let frame_len =
      get_or frame 3 0 % 4 * 2 ^ 11 + get_or frame 4 0 * 2 ^ 3 + get_or frame 5 0 / 2 ^ 5 in
    if ltb (length frame) 7 || not (get_or frame 0 0 == 0xff) || not (get_or frame 1 0 / 16 == 15)
    then false
    else (frame_len == length frame) && leb header_len frame_len

-- `none` is `Ok(())`.
unfoldable pub validate_aac_access_unit : List ℕ → Option Refusal
validate_aac_access_unit unit =
    if ltb (length unit) 4
    then some aac_too_small
    else if ltb aac_max_access_unit_bytes (length unit)
    then some aac_too_large
    else if looks_like_adts_frame unit
    then some adts_frame
    else rejected_media_signature unit

-- The length of a start code that begins here, or 0.
abbrev pub start_code_length : List ℕ → ℕ
start_code_length data_bytes =
    if has_prefix data_bytes (0 ∷ 0 ∷ 1 ∷ [])
    then 3
    else if has_prefix data_bytes (0 ∷ 0 ∷ 0 ∷ 1 ∷ [])
    then 4
    else 0

-- What follows the first start code.
unfoldable pub start_h264_payload : List ℕ → Option (List ℕ)
start_h264_payload [] = none
start_h264_payload (b ∷ bs) =
    let later = start_h264_payload bs in
    let n = start_code_length (b ∷ bs) in if n == 0 then later else some (drop n (b ∷ bs))

-- What the loop over the units of an access unit has found.
pub record Found : Type 0 where
  pub count : ℕ
  pub has_multiple_start_codes : Bool
  pub saw_slice : Bool
  pub saw_idr : Bool

-- A unit of no bytes is passed over.
unfoldable pub see_nal : Found → List ℕ → Found ⊎ Refusal
see_nal v [] = inl v
see_nal v (b ∷ bs) =
    let kind = b % 32 in
    let u : Found = record v { count = v.count + 1 } in
    if ltb h264_max_nal_units u.count
    then inr too_many_nals
    else if leb 128 b
    then inr forbidden_bit
    else if kind == 1
    then inl (record u { saw_slice = true })
    else if kind == 5
    then inl (record u { saw_slice = true; saw_idr = true })
    else if (leb 6 kind && leb kind 12) || (kind == 14)
    then inl u
    else inr unsupported_nal

-- The loop of `for_each_h264_nal`: `nal` is what has been read of the unit, `skip` what is left of its
-- start code.
unfoldable pub each_h264_nal : Found → List ℕ → ℕ → List ℕ → Found ⊎ Refusal
each_h264_nal v nal skip [] = see_nal v nal
each_h264_nal v nal (suc skip) (b ∷ bs) = each_h264_nal v nal skip bs
each_h264_nal v nal zero (b ∷ bs) =
    let longer = each_h264_nal v (nal ++ (b ∷ [])) 0 bs in
    let n = start_code_length (b ∷ bs) in
    if n == 0 then longer else elim (see_nal v nal) [
      | inr reason ↦ inr reason
      | inl u ↦ each_h264_nal (record u { has_multiple_start_codes = true }) [] (n - 1) bs
    ]

unfoldable pub for_each_h264_nal : List ℕ → Found ⊎ Refusal
for_each_h264_nal unit = elim (start_h264_payload unit) [
  | none ↦ inr no_start_code
  | some payload ↦
      let nothing : Found = record {
        count = 0;
        has_multiple_start_codes = false;
        saw_slice = false;
        saw_idr = false;
      } in
      elim (each_h264_nal nothing [] 0 payload) [
        | inr reason ↦ inr reason
        | inl v ↦ if v.count == 0 then inr no_nals else inl v
      ]
]

-- `inl` is whether the access unit is a single unit.
unfoldable pub inspect_h264_access_unit : List ℕ → Bool → ℕ → Bool ⊎ Refusal
inspect_h264_access_unit unit keyframe max_bytes =
    if ltb (length unit) 5
    then inr h264_too_small
    else if ltb max_bytes (length unit)
    then inr h264_too_large
    else elim (rejected_container_signature unit) [
      | some reason ↦ inr reason
      | none ↦ elim (for_each_h264_nal unit) [
        | inr reason ↦ inr reason
        | inl v ↦
            if not v.saw_slice
            then inr no_slice
            else if keyframe && not v.saw_idr
            then inr no_idr_slice
            else inl ((v.count == 1) && not v.has_multiple_start_codes)
      ]
    ]

-- The access unit, for video whether it is a key frame and a single unit, and the timestamp.
pub data StreamerMediaFrame : Type 0 where
  audio : List ℕ → ℕ → StreamerMediaFrame
  video : List ℕ → Bool → Bool → ℕ → StreamerMediaFrame

abbrev pub from_be_bytes : ℕ → ℕ → ℕ → ℕ → ℕ
from_be_bytes b1 b2 b3 b4 = b1 * 2 ^ 24 + b2 * 2 ^ 16 + b3 * 2 ^ 8 + b4

abbrev pub audio_or : Option Refusal → List ℕ → ℕ → StreamerMediaFrame ⊎ Refusal
audio_or none unit ts = inl (audio unit ts)
audio_or (some reason) unit ts = inr reason

abbrev pub video_or : Bool ⊎ Refusal → List ℕ → Bool → ℕ → StreamerMediaFrame ⊎ Refusal
video_or (inl single_nal) unit keyframe ts = inl (video unit keyframe single_nal ts)
video_or (inr reason) unit keyframe ts = inr reason

-- `video_enabled` and `max_bytes` are of the server's configuration.
unfoldable pub parse_streamer_media_frame : Bool → ℕ → List ℕ → StreamerMediaFrame ⊎ Refusal
parse_streamer_media_frame video_enabled max_bytes [] = inr empty_frame
parse_streamer_media_frame video_enabled max_bytes (k ∷ b1 ∷ b2 ∷ b3 ∷ b4 ∷ unit) =
    let ts = from_be_bytes b1 b2 b3 b4 in
    let keyframe = k == 1 in
    if k == 0
    then audio_or (validate_aac_access_unit unit) unit ts
    else if (k == 1) || (k == 2)
    then if not video_enabled
      then inr video_disabled
      else video_or (inspect_h264_access_unit unit keyframe max_bytes) unit keyframe ts
    else inr unknown_type
parse_streamer_media_frame video_enabled max_bytes (k ∷ bs) =
    if k == 0
    then inr audio_header
    else if (k == 1) || (k == 2)
    then if not video_enabled then inr video_disabled else inr video_header
    else inr unknown_type
