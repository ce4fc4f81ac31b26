-- ===== src/Client/Quality/Bounds.antt =====
-- The bounds of the presets that `normalizeVideoQuality` of client/scripts/client.js lets through.
use vrcstreamer.Common.{
  subst, ℕ, ◌≤◌, ◌≡◌, refl, Bool, true, false, ◌&&◌, Option, none, some, arith, if◌then◌else◌,
  is_some,
}
use vrcstreamer.Client.Quality.{
  default_preset, read_number, read_digits, read_mark, is_within, Text, Quality, trim_start,
  trim_end, read_preset, make_quality, preset_id, normalize_video_quality,
}

-- The numbers are within their limits, and the id is the one for them.
abbrev pub IsPreset : Quality → Type 0
IsPreset q =
    (1 ≤ q.width)
    × (q.width ≤ 65535)
    × (1 ≤ q.height)
    × (q.height ≤ 65535)
    × (1 ≤ q.fps)
    × (q.fps ≤ 65535)
    × (1 ≤ q.bitrate_kbps)
    × (q.bitrate_kbps ≤ 4294967295)
    × (q.id ≡ preset_id q.width q.height q.fps q.bitrate_kbps)

some_of_if :
    (b : Bool) (r q : Quality) → (if b then some r else none) ≡ some q → (b ≡ true) × (r ≡ q)
some_of_if true r q e = (refl, cc e)
some_of_if false r q e = absurd (cc e)

within_of : (n limit : ℕ) → is_within n limit ≡ true → (1 ≤ n) × (n ≤ limit)
within_of n limit e = ground (arith, e)

both_of : (a b : Bool) → (a && b) ≡ true → (a ≡ true) × (b ≡ true)
both_of true b e = (refl, e)
both_of false b e = absurd (cc e)

make_quality-IsPreset :
    (index : ℕ) (numbers : ℕ × ℕ × ℕ × ℕ) (q : Quality)
    → make_quality index numbers ≡ some q
    → IsPreset q
unfolding make_quality
make_quality-IsPreset index (width, height, fps, rate) q e =
    let r : Quality = record {
      id = preset_id width height fps rate;
      index = index;
      width = width;
      height = height;
      fps = fps;
      bitrate_kbps = rate;
    } in
    let (bounds, same) =
      some_of_if
        (is_within width 65535
          && is_within height 65535
          && is_within fps 65535
          && is_within rate 4294967295)
        r q e in
    let (three, rate_ok) =
      both_of (is_within width 65535 && is_within height 65535 && is_within fps 65535)
        (is_within rate 4294967295) bounds in
    let (two, fps_ok) =
      both_of (is_within width 65535 && is_within height 65535) (is_within fps 65535) three in
    let (width_ok, height_ok) = both_of (is_within width 65535) (is_within height 65535) two in
    let (a, b) = within_of width 65535 width_ok in
    let (c, d) = within_of height 65535 height_ok in
    let (f, g) = within_of fps 65535 fps_ok in
    let (h, k) = within_of rate 4294967295 rate_ok in
    subst IsPreset same (a, b, c, d, f, g, h, k, refl)

pub normalize_video_quality-IsPreset :
    (value : Option Text) (index : ℕ) (q : Quality)
    → normalize_video_quality value index ≡ some q
    → IsPreset q
unfolding normalize_video_quality
normalize_video_quality-IsPreset none index q e = absurd (cc e)
normalize_video_quality-IsPreset (some value) index q e =
    by_numbers (read_preset (trim_end (trim_start value))) e
  where
    by_numbers :
        (o : Option (ℕ × ℕ × ℕ × ℕ))
        → (elim o [ none ↦ none | some numbers ↦ make_quality index numbers ]) ≡ some q
        → IsPreset q
    by_numbers none e = absurd (cc e)
    by_numbers (some numbers) e = make_quality-IsPreset index numbers q e

pub default_preset-some : is_some (normalize_video_quality (some default_preset) 0) ≡ true
unfolding normalize_video_quality read_preset read_number read_digits read_mark make_quality
default_preset-some = refl
