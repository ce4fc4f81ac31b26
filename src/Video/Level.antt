-- ===== src/Video/Level.antt =====
-- The choice of an H.264 level in client/scripts/video-worker.js: `H264_LEVELS` and `h264Codec`.
pub mod Choice
pub mod Tests
use vrcstreamer.Common.{
  ℕ, zero, suc, ◌+◌, ◌-◌, ◌*◌, ◌/◌, ◌%◌, ◌^◌, ◌≤◌, ◌<◌, min, max, ◌≡◌, refl, sym, ap, ◌∙◌, ◌≢◌, ◌↔◌,
  ◌⊎◌, inl, inr, Bool, true, false, not, ◌&&◌, ◌||◌, Option, none, some, List, [], ◌∷◌, ◌++◌, map,
  append_assoc, append-nil, arith, ltb, leb, ◌==◌, if◌then◌else◌, Bool-cases, Option-cases, is_some,
  length, get_elem?, get_or, set, take, drop, replicate, All,
}

-- Level code, macroblocks in a frame and in a second, and bit rate in kbit/s.
pub record Level : Type 0 where
  pub code : ℕ
  pub max_frame : ℕ
  pub max_second : ℕ
  pub max_bitrate : ℕ

abbrev pub level : ℕ → ℕ → ℕ → ℕ → Level
level c f s b = record { code = c; max_frame = f; max_second = s; max_bitrate = b }

abbrev pub h264_levels : List Level
h264_levels =
    level 0x1f 3600 108000 14000
    ∷ level 0x20 5120 216000 20000
    ∷ level 0x28 8192 245760 20000
    ∷ level 0x29 8192 245760 50000
    ∷ level 0x2a 8704 522240 50000
    ∷ level 0x32 22080 589824 100000
    ∷ level 0x33 36864 983040 100000
    ∷ level 0x34 36864 2073600 100000
    ∷ level 0x3c 139264 4177920 100000
    ∷ level 0x3d 139264 8355840 100000
    ∷ level 0x3e 139264 16711680 100000
    ∷ []

-- `Math.ceil(a / b)`.
abbrev pub ceil_div : ℕ → ℕ → ℕ
ceil_div a b = (a + b - 1) / b

abbrev pub frame_macroblocks : ℕ → ℕ → ℕ
frame_macroblocks width height = ceil_div width 16 * ceil_div height 16

abbrev pub admits : ℕ → ℕ → ℕ → Level → Bool
admits frame second kbps l =
    leb frame l.max_frame && leb second l.max_second && leb kbps l.max_bitrate

pub find_level : ℕ → ℕ → ℕ → List Level → Option Level
find_level frame second kbps [] = none
find_level frame second kbps (l ∷ ls) =
    if admits frame second kbps l then some l else find_level frame second kbps ls

-- The level of a preset; `none` is the error "exceeds supported H.264 levels".
pub h264_level : ℕ → ℕ → ℕ → ℕ → Option Level
unfolding find_level
h264_level width height fps bitrate =
    let frame = frame_macroblocks width height in
    find_level frame (frame * fps) (ceil_div bitrate 1000) h264_levels

-- `avc1.42E0` and the level's code in two upper-case hexadecimal digits, as code points.
abbrev pub upper_hex_digit : ℕ → ℕ
upper_hex_digit d = if ltb d 10 then 48 + d else 55 + d

pub h264_codec : ℕ → ℕ → ℕ → ℕ → Option (List ℕ)
unfolding h264_level
h264_codec width height fps bitrate = elim (h264_level width height fps bitrate) [
  | none ↦ none
  | some l ↦ some (
      97
      ∷ 118
      ∷ 99
      ∷ 49
      ∷ 46
      ∷ 52
      ∷ 50
      ∷ 69
      ∷ 48
      ∷ upper_hex_digit (l.code / 16)
      ∷ upper_hex_digit (l.code % 16)
      ∷ [])
]
