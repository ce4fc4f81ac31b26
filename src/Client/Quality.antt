-- ===== src/Client/Quality.antt =====
-- The video presets of client/scripts/client.js: `normalizeVideoQuality`, `setVideoQualities`,
-- `savedVideoQuality`, `saveVideoQuality` and `applyVideoQuality`. Texts are lists of character codes.
pub mod Bounds
pub mod Digits
pub mod RoundTrip
pub mod Tests
use vrcstreamer.Common.{
  ◌>>=◌, ℕ, zero, suc, ◌+◌, ◌-◌, ◌*◌, ◌/◌, ◌%◌, ◌^◌, ◌≤◌, ◌<◌, min, max, ◌≡◌, refl, sym, ap, ◌∙◌,
  ◌≢◌, ◌↔◌, ◌⊎◌, inl, inr, Bool, true, false, not, ◌&&◌, ◌||◌, Option, none, some, List, [], ◌∷◌,
  ◌++◌, map, append_assoc, append-nil, arith, ltb, leb, ◌==◌, if◌then◌else◌, Bool-cases,
  Option-cases, is_some, length, get_elem?, get_or, set, take, drop, replicate, All,
}

abbrev pub Text : Type 0
Text = List ℕ

abbrev pub same_text : Text → Text → Bool
same_text [] [] = true
same_text [] (d ∷ ds) = false
same_text (c ∷ cs) [] = false
same_text (c ∷ cs) (d ∷ ds) = (c == d) && same_text cs ds

-- The white space that `trim` takes off.
abbrev pub is_space : ℕ → Bool
is_space c =
    (leb 9 c && leb c 13)
    || (c == 32)
    || (c == 160)
    || (c == 5760)
    || (leb 8192 c && leb c 8202)
    || (c == 8232)
    || (c == 8233)
    || (c == 8239)
    || (c == 8287)
    || (c == 12288)
    || (c == 65279)

abbrev pub trim_start : Text → Text
trim_start [] = []
trim_start (c ∷ cs) = if is_space c then trim_start cs else c ∷ cs

-- A character and the trimmed rest before it.
abbrev pub keep_inner : ℕ → Text → Text
keep_inner c [] = if is_space c then [] else c ∷ []
keep_inner c (d ∷ ds) = c ∷ d ∷ ds

abbrev pub trim_end : Text → Text
trim_end [] = []
trim_end (c ∷ cs) = keep_inner c (trim_end cs)

abbrev pub is_digit : ℕ → Bool
is_digit c = leb 48 c && leb c 57

-- `\d*`: the value of the digits, on top of the value so far, and what follows them.
pub read_digits : ℕ → Text → ℕ × Text
read_digits n [] = (n, [])
read_digits n (c ∷ cs) =
    let rest = read_digits (n * 10 + (c - 48)) cs in if is_digit c then rest else (n, c ∷ cs)

-- `(\d+)` as a number.
pub read_number : Text → Option (ℕ × Text)
read_number [] = none
read_number (c ∷ cs) = if is_digit c then some (read_digits 0 (c ∷ cs)) else none

-- One of two characters.
pub read_mark : ℕ → ℕ → Text → Option Text
read_mark a b [] = none
read_mark a b (c ∷ cs) = if (c == a) || (c == b) then some cs else none

-- The four numbers of `^(\d+)x(\d+)\*(\d+)\/(\d+)$`, with either case of the x.
pub read_preset : Text → Option (ℕ × ℕ × ℕ × ℕ)
read_preset text = do
  (width, text1) ← read_number text
  text2 ← read_mark 120 88 text1
  (height, text3) ← read_number text2
  text4 ← read_mark 42 42 text3
  (fps, text5) ← read_number text4
  text6 ← read_mark 47 47 text5
  (rate, text7) ← read_number text6
  elim text7 [ [] ↦ some (width, height, fps, rate) | c ∷ cs ↦ none ]

-- The decimal digits of a number, on fuel.
pub print_number : ℕ → ℕ → Text
print_number zero n = []
print_number (suc fuel) n =
    let rest = print_number fuel (n / 10) in
    if ltb n 10 then (n + 48) ∷ [] else rest ++ ((n % 10 + 48) ∷ [])

abbrev pub decimal : ℕ → Text
decimal n = print_number (suc n) n

pub record Quality : Type 0 where
  pub id : Text
  pub index : ℕ
  pub width : ℕ
  pub height : ℕ
  pub fps : ℕ
  pub bitrate_kbps : ℕ

unfoldable pub bitrate_of : Quality → ℕ
bitrate_of q = q.bitrate_kbps * 1000

-- "1280x720*30/2000" for these numbers.
pub preset_id : ℕ → ℕ → ℕ → ℕ → Text
preset_id width height fps rate =
    decimal width ++ (120 ∷ (decimal height ++ (42 ∷ (decimal fps ++ (47 ∷ decimal rate)))))

-- From 1 to a limit.
abbrev pub is_within : ℕ → ℕ → Bool
is_within n limit = not (ltb n 1) && not (ltb limit n)

-- The numbers of a preset that is in its bounds.
pub make_quality : ℕ → ℕ × ℕ × ℕ × ℕ → Option Quality
make_quality index (width, height, fps, rate) =
    if is_within width 65535
      && is_within height 65535
      && is_within fps 65535
      && is_within rate 4294967295
    then some (record {
      id = preset_id width height fps rate;
      index = index;
      width = width;
      height = height;
      fps = fps;
      bitrate_kbps = rate;
    })
    else none

-- `none` is a value that is no string.
pub normalize_video_quality : Option Text → ℕ → Option Quality
normalize_video_quality none index = none
normalize_video_quality (some value) index = elim (read_preset (trim_end (trim_start value))) [
  | none ↦ none
  | some numbers ↦ make_quality index numbers
]

-- "1280x720*30/2000".
abbrev pub default_preset : Text
default_preset = 49 ∷ 50 ∷ 56 ∷ 48 ∷ 120 ∷ 55 ∷ 50 ∷ 48 ∷ 42 ∷ 51 ∷ 48 ∷ 47 ∷ 50 ∷ 48 ∷ 48 ∷ 48 ∷ []
