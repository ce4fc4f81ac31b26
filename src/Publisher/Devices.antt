-- ===== src/Publisher/Devices.antt =====
-- The choice of what to capture in client/scripts/streamer.js: `getDisplayMediaCompat`, `captureAudio`,
-- `captureVideo`, `requestAudioSource` and `requestVideoSource`. What the browser and the user answer
-- is an argument; texts are lists of character codes.
pub mod Fallbacks
pub mod Requests
pub mod Tests
use vrcstreamer.Common.{
  ℕ, zero, suc, ◌+◌, ◌-◌, ◌*◌, ◌/◌, ◌%◌, ◌^◌, ◌≤◌, ◌<◌, min, max, ◌≡◌, refl, sym, ap, ◌∙◌, ◌≢◌, ◌↔◌,
  ◌⊎◌, inl, inr, Bool, true, false, not, ◌&&◌, ◌||◌, Option, none, some, List, [], ◌∷◌, ◌++◌, map,
  append_assoc, append-nil, arith, ltb, leb, ◌==◌, if◌then◌else◌, Bool-cases, Option-cases, is_some,
  length, get_elem?, get_or, set, take, drop, replicate, All,
}

abbrev pub Text : Type 0
Text = List ℕ

-- An error by its name and its message.
pub data ErrorName : Type 0 where
  type_error not_supported_error overconstrained_error not_found_error : ErrorName
  devices_not_found_error constraint_not_satisfied_error abort_error not_allowed_error : ErrorName
  other_error : ErrorName

pub record Fault : Type 0 where
  pub name : ErrorName
  pub message : Text

-- A letter as a regular expression without case reads it.
abbrev pub lower : ℕ → ℕ
lower c = if leb 65 c && leb c 90 then c + 32 else c

abbrev pub begins : Text → Text → Bool
begins text [] = true
begins [] (p ∷ ps) = false
begins (c ∷ cs) (p ∷ ps) = (lower c == p) && begins cs ps

abbrev pub contains : Text → Text → Bool
contains [] pattern = begins [] pattern
contains (c ∷ cs) pattern = begins (c ∷ cs) pattern || contains cs pattern

-- "not supported", "constraint", "parameter" and "operation".
abbrev pub constraint_words : List Text
constraint_words =
    (110 ∷ 111 ∷ 116 ∷ 32 ∷ 115 ∷ 117 ∷ 112 ∷ 112 ∷ 111 ∷ 114 ∷ 116 ∷ 101 ∷ 100 ∷ [])
    ∷ (99 ∷ 111 ∷ 110 ∷ 115 ∷ 116 ∷ 114 ∷ 97 ∷ 105 ∷ 110 ∷ 116 ∷ [])
    ∷ (112 ∷ 97 ∷ 114 ∷ 97 ∷ 109 ∷ 101 ∷ 116 ∷ 101 ∷ 114 ∷ [])
    ∷ (111 ∷ 112 ∷ 101 ∷ 114 ∷ 97 ∷ 116 ∷ 105 ∷ 111 ∷ 110 ∷ [])
    ∷ []

abbrev pub contains_one : Text → List Text → Bool
contains_one text [] = false
contains_one text (word ∷ words) = contains text word || contains_one text words

pub is_display_media_constraint_error : Fault → Bool
is_display_media_constraint_error e = elim e.name [
  | type_error ↦ true
  | not_supported_error ↦ true
  | overconstrained_error ↦ true
  | _ ↦ contains_one e.message constraint_words
]

pub is_missing_audio_device_error : Fault → Bool
is_missing_audio_device_error e = elim e.name [
  | overconstrained_error ↦ true
  | not_found_error ↦ true
  | devices_not_found_error ↦ true
  | constraint_not_satisfied_error ↦ true
  | _ ↦ false
]

-- `video` and `audio` of the constraints: a Boolean, or the wishes of `videoCaptureConstraints` and
-- `audioCaptureConstraints`, these with an exact device or none. `surfaces` is that the options of
-- `displayMediaOptions` stand with them.
pub data VideoWish : Type 0 where
  no_video any_video : VideoWish
  ideal_video : ℕ → ℕ → ℕ → VideoWish

pub data AudioWish : Type 0 where
  no_audio any_audio : AudioWish
  raw_audio : Option Text → AudioWish

pub record Constraints : Type 0 where
  pub video : VideoWish
  pub audio : AudioWish
  pub surfaces : Bool

-- A captured stream with the numbers of its tracks.
pub record Stream : Type 0 where
  pub ident : ℕ
  pub audio_tracks : ℕ
  pub video_tracks : ℕ

abbrev pub Answer : Type 0
Answer = Stream ⊎ Fault

-- The loop over the fallbacks, with the last error.
pub try_fallbacks : (Constraints → Answer) → Fault → List Constraints → Answer
try_fallbacks ask last [] = inr last
try_fallbacks ask last (c ∷ cs) = elim (ask c) [
  | inl s ↦ inl s
  | inr e ↦ if is_display_media_constraint_error e then try_fallbacks ask e cs else inr e
]

pub get_display_media_compat : (Constraints → Answer) → Constraints → List Constraints → Answer
get_display_media_compat ask primary fallbacks = elim (ask primary) [
  | inl s ↦ inl s
  | inr e ↦ if is_display_media_constraint_error e then try_fallbacks ask e fallbacks else inr e
]

abbrev pub wish : VideoWish → AudioWish → Bool → Constraints
wish v a surfaces = record { video = v; audio = a; surfaces = surfaces }

-- What is asked of the user's screen, `captureVideo` going one step further than `captureAudio`.
pub capture_screen : (Constraints → Answer) → ℕ → ℕ → ℕ → Bool → Answer
capture_screen ask width height fps with_video =
    let video = ideal_video width height fps in
    let audio_only = wish video any_audio false ∷ wish any_video any_audio false ∷ [] in
    get_display_media_compat ask (wish video (raw_audio none) true)
      (if with_video then audio_only ++ (wish any_video no_audio false ∷ []) else audio_only)

-- `captureAudio` of a microphone: the answer, and whether the choice of the device is forgotten.
pub capture_microphone : (Constraints → Answer) → Text → Answer × Bool
capture_microphone ask [] = (ask (wish no_video (raw_audio none) false), false)
capture_microphone ask (c ∷ cs) = elim (ask (wish no_video (raw_audio (some (c ∷ cs))) false)) [
  | inl s ↦ (inl s, false)
  | inr e ↦
      if is_missing_audio_device_error e
      then (ask (wish no_video (raw_audio none) false), true)
      else (inr e, false)
]

-- What is done to a stream, and how a request ends.
pub data Event : Type 0 where
  stops_video_tracks stops_stream : ℕ → Event

pub data Request : Type 0 where
  accepted : Stream → Request
  refused : Request

-- `requestAudioSource` with the captured stream; `is_screen` is that its kind is "screen".
pub request_audio_source : Bool → Answer → Request × List Event
request_audio_source is_screen (inr e) = (refused, [])
request_audio_source is_screen (inl s) =
    let t : Stream = if is_screen then record s { video_tracks = 0 } else s in
    let es : List Event = if is_screen then stops_video_tracks s.ident ∷ [] else [] in
    if t.audio_tracks == 0 then (refused, es ++ (stops_stream s.ident ∷ [])) else (accepted t, es)

pub request_video_source : Bool → Answer → Request × List Event
request_video_source enabled answer =
    let ends : Request × List Event = elim answer [
      | inr e ↦ (refused, [])
      | inl s ↦
          if s.video_tracks == 0 then (refused, stops_stream s.ident ∷ []) else (accepted s, [])
    ] in
    if enabled then ends else (refused, [])
