-- ===== src/Client/Quality/RoundTrip.antt =====
-- The ids of the presets of client/scripts/client.js, read back by `normalizeVideoQuality`.
use vrcstreamer.Common.{
  ℕ, ◌≤◌, ◌≡◌, refl, sym, ap, ◌∙◌, true, false, Option, none, some, [], ◌∷◌, ◌++◌, append-nil,
  arith, All,
}
use vrcstreamer.Common.{All-append}
use vrcstreamer.Client.Quality.{
  Text, is_space, trim_start, trim_end, keep_inner, read_mark, read_preset, decimal, Quality,
  preset_id, is_within, make_quality, normalize_video_quality,
}
use vrcstreamer.Client.Quality.Digits.{
  AreDigits, read_number-decimal, not-is_space, decimal-AreDigits,
}
use vrcstreamer.Client.Quality.Bounds.{IsPreset}

abbrev IsInk : ℕ → Type 0
IsInk c = is_space c ≡ false

trim_start-IsInk : (t : Text) → All IsInk t → trim_start t ≡ t
trim_start-IsInk [] h = refl
trim_start-IsInk (c ∷ cs) h = rw h.0 refl

keep_inner-IsInk : (c : ℕ) (t : Text) → IsInk c → keep_inner c t ≡ c ∷ t
keep_inner-IsInk c [] h = rw h refl
keep_inner-IsInk c (d ∷ ds) h = refl

trim_end-IsInk : (t : Text) → All IsInk t → trim_end t ≡ t
trim_end-IsInk [] h = refl
trim_end-IsInk (c ∷ cs) h = ap (keep_inner c) (trim_end-IsInk cs h.1) ∙ keep_inner-IsInk c cs h.0

digits-IsInk : (t : Text) → AreDigits t → All IsInk t
digits-IsInk [] h = tt
digits-IsInk (c ∷ cs) h = (not-is_space c h.0, digits-IsInk cs h.1)

preset_id-IsInk : (width height fps rate : ℕ) → All IsInk (preset_id width height fps rate)
unfolding preset_id
preset_id-IsInk width height fps rate =
    let ink : (n : ℕ) → All IsInk (decimal n) =
      λ n. digits-IsInk (decimal n) (decimal-AreDigits n) in
    All-append IsInk (decimal width)
      (120 ∷ (decimal height ++ (42 ∷ (decimal fps ++ (47 ∷ decimal rate))))) (ink width)
      (
        refl,
        All-append IsInk (decimal height) (42 ∷ (decimal fps ++ (47 ∷ decimal rate))) (ink height)
            (refl, All-append IsInk (decimal fps) (47 ∷ decimal rate) (ink fps) (refl, ink rate)),
      )

-- The four numbers are read back.
read_preset-preset_id :
    (width height fps rate : ℕ)
    → read_preset (preset_id width height fps rate) ≡ some (width, height, fps, rate)
unfolding read_preset preset_id read_mark
read_preset-preset_id width height fps rate =
    rw
      (
        read_number-decimal width
            (120 ∷ (decimal height ++ (42 ∷ (decimal fps ++ (47 ∷ decimal rate))))) refl,
        read_number-decimal height (42 ∷ (decimal fps ++ (47 ∷ decimal rate))) refl,
        read_number-decimal fps (47 ∷ decimal rate) refl,
        ← append-nil (decimal rate),
      )
      (rw (read_number-decimal rate [] refl) refl)

is_within_of : (n limit : ℕ) → 1 ≤ n → n ≤ limit → is_within n limit ≡ true
is_within_of n limit h k = ground (arith, h, k)

abbrev build : ℕ → Option (ℕ × ℕ × ℕ × ℕ) → Option Quality
build index o = elim o [ none ↦ none | some numbers ↦ make_quality index numbers ]

make_quality_of_preset :
    (q : Quality) (index : ℕ)
    → IsPreset q
    → make_quality index (q.width, q.height, q.fps, q.bitrate_kbps)
      ≡ some (record q { index = index })
unfolding make_quality
make_quality_of_preset q index (a, b, c, d, f, g, h, k, e) =
    rw
      (
        is_within_of q.width 65535 a b,
        is_within_of q.height 65535 c d,
        is_within_of q.fps 65535 f g,
        is_within_of q.bitrate_kbps 4294967295 h k,
      )
      (ap (λ t. some (record q { index = index; id = t })) (sym e))

-- A preset's id is read back as the preset, at any index: the numbers and the id are the same.
pub normalize_video_quality-id :
    (q : Quality) (index : ℕ)
    → IsPreset q
    → normalize_video_quality (some q.id) index ≡ some (record q { index = index })
unfolding normalize_video_quality
normalize_video_quality-id q index h =
    let (a, b, c, d, f, g, k, l, e) = h in
    let id = preset_id q.width q.height q.fps q.bitrate_kbps in
    let ink = preset_id-IsInk q.width q.height q.fps q.bitrate_kbps in
    let trimmed : trim_end (trim_start q.id) ≡ id =
      ap (λ t. trim_end (trim_start t)) e
      ∙ ap trim_end (trim_start-IsInk id ink)
      ∙ trim_end-IsInk id ink in
    ap (build index)
      (ap read_preset trimmed ∙ read_preset-preset_id q.width q.height q.fps q.bitrate_kbps)
    ∙ make_quality_of_preset q index h
