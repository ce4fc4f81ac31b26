-- ===== src/Client/Presets/Lists.antt =====
-- The lists that `setVideoQualities` of client/scripts/client.js makes.
use vrcstreamer.Common.{
  ℕ, suc, ◌≤◌, ◌≡◌, refl, inl, inr, Bool, true, false, Option, none, some, List, [], ◌∷◌, arith,
  if◌then◌else◌, Bool-cases, is_some, length, take, All,
}
use vrcstreamer.Common.{length-take}
use vrcstreamer.Client.Quality.{default_preset, Text, Quality, normalize_video_quality}
use vrcstreamer.Client.Quality.Bounds.{
  default_preset-some, IsPreset, normalize_video_quality-IsPreset,
}
use vrcstreamer.Client.Presets.{has_id, collect, next_qualities}

-- Each id differs from those seen and from those before it.
abbrev pub AreDistinct : List Text → List Quality → Type 0
AreDistinct seen [] = Unit
AreDistinct seen (q ∷ qs) = (has_id seen q.id ≡ false) × AreDistinct (q.id ∷ seen) qs

-- A list of presets in their bounds, with distinct ids, no longer than a limit.
abbrev AreOffered : List Text → ℕ → List Quality → Type 0
AreOffered seen limit qs = AreDistinct seen qs × All IsPreset qs × (length qs ≤ limit)

collect-AreOffered :
    (index : ℕ) (seen : List Text) (values : List (Option Text))
    → AreOffered seen (length values) (collect index seen values)
unfolding collect
collect-AreOffered index seen [] = (tt, tt, omega arith)
collect-AreOffered index seen (value ∷ values) =
    by_value (normalize_video_quality value index)
      (λ q e. normalize_video_quality-IsPreset value index q e)
      (λ more. collect-AreOffered (suc index) more values)
  where
    by_value :
        (o : Option Quality)
        → ((q : Quality) → o ≡ some q → IsPreset q)
        → ((more : List Text) → AreOffered more (length values) (collect (suc index) more values))
        → AreOffered seen (length (value ∷ values)) (elim o [
          | none ↦ collect (suc index) seen values
          | some q ↦
              if has_id seen q.id
              then collect (suc index) seen values
              else q ∷ collect (suc index) (q.id ∷ seen) values
        ])
    by_value none valid later = let (x, y, z) = later seen in (x, y, omega (arith, z))
    by_value (some q) valid later = elim (Bool-cases (has_id seen q.id)) [
      | inl e ↦ let (x, y, z) = later seen in rw e (x, y, omega (arith, z))
      | inr e ↦
          let (x, y, z) = later (q.id ∷ seen) in rw e ((e, x), (valid q refl, y), omega (arith, z))
    ]

collect-offered :
    (values : Option (List (Option Text)))
    → AreOffered [] 32 (
        collect 0 []
          (elim values as (λ v. List (Option Text)) [ none ↦ [] | some vs ↦ take 32 vs ]))
collect-offered none = let (x, y, z) = collect-AreOffered 0 [] [] in (x, y, omega (arith, z))
collect-offered (some vs) =
    let (x, y, z) = collect-AreOffered 0 [] (take 32 vs) in
    (x, y, omega (arith, z, length-take 32 vs))

-- Whatever the server sends, no array and no strings included: the list has at most 32 presets, each
-- with numbers in their bounds and the id for these, and no two with the same id; it is not empty
-- where the server has video.
pub next_qualities-AreDistinct :
    (values : Option (List (Option Text))) (enabled : Bool)
    → let qs = next_qualities values enabled in
      AreDistinct [] qs × All IsPreset qs × (length qs ≤ 32) × (enabled ≡ true → 1 ≤ length qs)
unfolding next_qualities
next_qualities-AreDistinct values enabled =
    by_list
      (collect 0 [] (elim values as (λ v. List (Option Text)) [ none ↦ [] | some vs ↦ take 32 vs ]))
      (collect-offered values) (normalize_video_quality (some default_preset) 0)
      (λ q e. normalize_video_quality-IsPreset (some default_preset) 0 q e) default_preset-some
      enabled
  where
    by_list :
        (qs : List Quality)
        → AreOffered [] 32 qs
        → (o : Option Quality) → ((q : Quality) → o ≡ some q → IsPreset q)
        → is_some o ≡ true
        → (enabled : Bool)
        → let rs : List Quality = elim qs [
          | [] ↦ if enabled then elim o [ none ↦ [] | some q ↦ q ∷ [] ] else []
          | q ∷ more ↦ q ∷ more
        ] in
          AreDistinct [] rs × All IsPreset rs × (length rs ≤ 32) × (enabled ≡ true → 1 ≤ length rs)
    by_list (q ∷ qs) (x, y, z) o valid there enabled = (x, y, z, λ e. omega arith)
    by_list [] h o valid there false = (tt, tt, omega arith, λ e. absurd (cc e))
    by_list [] h none valid there true = absurd (cc there)
    by_list [] h (some q) valid there true =
        ((refl, tt), (valid q refl, tt), omega arith, λ e. omega arith)
