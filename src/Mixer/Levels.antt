-- ===== src/Mixer/Levels.antt =====
-- The clipping and the level meter of `SourceProcessor` of audio-worklet.js.
use vrcstreamer.Common.{
  ℕ, zero, suc, ◌≡◌, inl, inr, false, Option, none, some, List, [], ◌∷◌, Bool-cases, replicate,
}
use vrcstreamer.Common.Number.{Number}
use vrcstreamer.Capture.{clamp}
use vrcstreamer.Mixer.{SourceProcessor, silence, left_out, right_out, mix, process}

-- How the constants 0, 1 and -1 compare.
pub record HasUnits {ℓ} (D : Type ℓ) ⦃n : Number D⦄ : Type ℓ where
  pub one_one : n.lt (n.num 1 1) (n.num 1 1) ≡ false
  pub one_minus : n.lt (n.num 1 1) (n.sub (n.num 0 1) (n.num 1 1)) ≡ false
  pub minus_minus : n.lt (n.sub (n.num 0 1) (n.num 1 1)) (n.sub (n.num 0 1) (n.num 1 1)) ≡ false
  pub one_zero : n.lt (n.num 1 1) (n.num 0 1) ≡ false
  pub zero_minus : n.lt (n.num 0 1) (n.sub (n.num 0 1) (n.num 1 1)) ≡ false

module _ {ℓ} {D : Type ℓ} ⦃n : Number D⦄ where
  abbrev pub IsClipped : D → Type 0
  IsClipped x = (n.lt (n.num 1 1) x ≡ false) × (n.lt x (n.sub (n.num 0 1) (n.num 1 1)) ≡ false)

  abbrev pub AreClipped : List (D × D) → Type 0
  AreClipped [] = Unit
  AreClipped ((l, r) ∷ frames) = IsClipped l × IsClipped r × AreClipped frames

  clamp-IsClipped : HasUnits D → (x : D) → IsClipped (clamp x)
  unfolding clamp
  clamp-IsClipped h x =
      let minus_one = n.sub (n.num 0 1) (n.num 1 1) in
      elim (Bool-cases (n.lt (n.num 1 1) x)) [
        | inl a ↦ rw a (h.one_one, h.one_minus)
        | inr a ↦ elim (Bool-cases (n.lt x minus_one)) [
          | inl b ↦ rw (a, b) (h.one_minus, h.minus_minus)
          | inr b ↦ rw (a, b) (a, b)
        ]
      ]

  mix-AreClipped :
      HasUnits D
      → (p : SourceProcessor D) (frames : List (D × D)) (peak : D)
      → AreClipped (mix p frames peak).0
  unfolding mix left_out right_out
  mix-AreClipped h p [] peak = tt
  mix-AreClipped h p ((l, r) ∷ frames) peak =
      (clamp-IsClipped h _, clamp-IsClipped h _, mix-AreClipped h p frames _)

  silent-AreClipped : HasUnits D → (size : ℕ) → AreClipped (replicate size (silence, silence))
  silent-AreClipped h zero = tt
  silent-AreClipped h (suc size) =
      ((h.one_zero, h.zero_minus), (h.one_zero, h.zero_minus), silent-AreClipped h size)

  -- Whatever the input, the gain and the settings are, no sample that a source puts out is above 1 or
  -- below -1, in arithmetic where 0 lies between -1 and 1 and no number is below itself among these.
  pub process-AreClipped :
      HasUnits D
      → (p : SourceProcessor D) (input : Option (List (D × D))) (size : ℕ)
      → AreClipped (process p input size).1
  unfolding process mix left_out right_out
  process-AreClipped h p none size = silent-AreClipped h size
  process-AreClipped h p (some frames) size = elim (Bool-cases p.mute) [
    | inl e ↦ rw e (silent-AreClipped h size)
    | inr e ↦ rw e (mix-AreClipped h p frames silence)
  ]
