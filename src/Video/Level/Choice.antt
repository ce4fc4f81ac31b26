-- ===== src/Video/Level/Choice.antt =====
-- The level that video-worker.js names in the codec string is the lowest that admits the preset.
use vrcstreamer.Common.{
  ◌⊎◌, subst, ℕ, ◌*◌, ◌≤◌, ◌≡◌, inl, inr, true, false, none, some, List, [], ◌∷◌, arith, Bool-cases,
  All,
}
use vrcstreamer.Video.Level.{
  h264_levels, ceil_div, frame_macroblocks, find_level, h264_level, admits, Level,
}
use native.Mathlib.Nat.{le_refl, mul-le-mul}

-- The codes rise along the table, from above `floor`.
abbrev IsRising : ℕ → List Level → Type 0
IsRising floor [] = Unit
IsRising floor (l ∷ ls) = (floor ≤ l.code) × IsRising l.code ls

module _ (frame second kbps : ℕ) where
  abbrev Lowest : Level → Level → Type 0
  Lowest l k = admits frame second kbps k ≡ true → l.code ≤ k.code

  Rising-All :
      (floor : ℕ) (l : Level) (ls : List Level)
      → l.code ≤ floor
      → IsRising floor ls
      → All (Lowest l) ls
  Rising-All floor l [] a r = tt
  Rising-All floor l (k ∷ ks) a r = (λ _. omega arith, Rising-All k.code l ks (omega arith) r.1)

  find_level-Lowest :
      (floor : ℕ) (ls : List Level) (l : Level)
      → IsRising floor ls
      → find_level frame second kbps ls ≡ some l
      → (admits frame second kbps l ≡ true) × (floor ≤ l.code) × All (Lowest l) ls
  unfolding find_level
  find_level-Lowest floor [] l r e = cc
  find_level-Lowest floor (k ∷ ks) l r e = elim (Bool-cases (admits frame second kbps k)) [
    | inl hit ↦
        let same : some k ≡ some l = rw hit at e in
        let eq : k ≡ l = cc in
        subst
          (λ m. (admits frame second kbps m ≡ true) × (floor ≤ m.code) × All (Lowest m) (k ∷ ks)) eq
          (hit, r.0, ((λ _. le_refl _), Rising-All k.code k ks (le_refl _) r.1))
    | inr miss ↦
        let (a, b, c) = find_level-Lowest k.code ks l r.1 (rw miss at e) in
        (a, omega arith, ((λ h. absurd (ground (arith, h, miss))), c))
  ]

  find_level-none :
      (ls : List Level)
      → find_level frame second kbps ls ≡ none
      → All (λ k. admits frame second kbps k ≡ false) ls
  unfolding find_level
  find_level-none [] e = tt
  find_level-none (k ∷ ks) e = elim (Bool-cases (admits frame second kbps k)) [
    | inl hit ↦ absurd (ground (arith, hit))
    | inr miss ↦ (miss, find_level-none ks (rw miss at e))
  ]

-- The limits of a level, for a picture in `columns` by `rows` macroblocks of 16 by 16 samples.
abbrev pub IsWithin : ℕ → ℕ → ℕ → ℕ → Level → ℕ × ℕ → Type 0
IsWithin width height fps bitrate l (columns, rows) =
    (width ≤ 16 * columns)
    × (height ≤ 16 * rows)
    × (columns * rows ≤ l.max_frame)
    × (columns * rows * fps ≤ l.max_second)
    × (bitrate ≤ 1000 * l.max_bitrate)

-- Some macroblocks cover the picture and stay within the level.
abbrev pub IsFitting : ℕ → ℕ → ℕ → ℕ → Level → Type 0
IsFitting width height fps bitrate l = (grid : ℕ × ℕ) × IsWithin width height fps bitrate l grid

abbrev pub IsIn : Level → List Level → Type 0
IsIn l [] = ⊥
IsIn l (k ∷ ks) = (k ≡ l) ⊎ IsIn l ks

ceil_div_16 : (n : ℕ) → n ≤ 16 * ceil_div n 16
ceil_div_16 n = omega arith

IsFitting-admits :
    (width height fps bitrate : ℕ) (l : Level)
    → IsFitting width height fps bitrate l
    → let frame = frame_macroblocks width height in
      admits frame (frame * fps) (ceil_div bitrate 1000) l ≡ true
IsFitting-admits width height fps bitrate l ((columns, rows), (a, b, c, d, e)) =
    let x : ceil_div width 16 ≤ columns = omega (arith, a) in
    let y : ceil_div height 16 ≤ rows = omega (arith, b) in
    let z : ceil_div bitrate 1000 ≤ l.max_bitrate = omega (arith, e) in
    let m = mul-le-mul x y in let n = mul-le-mul m (le_refl fps) in ground (arith, z, m, n, c, d)

admits-IsFitting :
    (width height fps bitrate : ℕ) (l : Level)
    → let frame = frame_macroblocks width height in
      admits frame (frame * fps) (ceil_div bitrate 1000) l ≡ true
      → IsFitting width height fps bitrate l
admits-IsFitting width height fps bitrate l h = (
  (ceil_div width 16, ceil_div height 16),
  (omega arith, omega arith, ground (arith, h), ground (arith, h), ground (arith, h)),
)

find_level-IsIn :
    (frame second kbps : ℕ) (ls : List Level) (l : Level)
    → find_level frame second kbps ls ≡ some l
    → IsIn l ls
unfolding find_level
find_level-IsIn frame second kbps [] l e = absurd (cc e)
find_level-IsIn frame second kbps (k ∷ ks) l e = elim (Bool-cases (admits frame second kbps k)) [
  | inl hit ↦ let same : some k ≡ some l = rw hit at e in inl cc
  | inr miss ↦ inr (find_level-IsIn frame second kbps ks l (rw miss at e))
]

All-map : (P Q : Level → Type 0) (ls : List Level) → ((l : Level) → P l → Q l) → All P ls → All Q ls
All-map P Q [] f h = tt
All-map P Q (l ∷ ls) f (x, h) = (f l x, All-map P Q ls f h)

-- The level in the codec string is one of the table whose limits on the macroblocks of a frame and of
-- a second and on the bit rate hold some macroblocks that cover the picture, no level of the table
-- of which this is so has a lower code, and the error is thrown only if it is so of no level.
pub h264_level_lowest :
    (width height fps bitrate : ℕ)
    → ((l : Level)
        → h264_level width height fps bitrate ≡ some l
        → IsIn l h264_levels
          × IsFitting width height fps bitrate l
          × All (λ k. IsFitting width height fps bitrate k → l.code ≤ k.code) h264_levels)
      × (h264_level width height fps bitrate ≡ none
          → All (λ k. ¬ IsFitting width height fps bitrate k) h264_levels)
unfolding h264_level
h264_level_lowest width height fps bitrate =
    let frame = frame_macroblocks width height in
    let kbps = ceil_div bitrate 1000 in
    (
      λ l e.
          let (a, b, c) =
            find_level-Lowest frame (frame * fps) kbps 0 h264_levels l (omega arith) e in
          (
            find_level-IsIn frame (frame * fps) kbps h264_levels l e,
            admits-IsFitting width height fps bitrate l a,
            All-map (Lowest frame (frame * fps) kbps l)
                (λ k. IsFitting width height fps bitrate k → l.code ≤ k.code) h264_levels
                (λ k lowest fits. lowest (IsFitting-admits width height fps bitrate k fits)) c,
          ),
      λ e.
          All-map (λ k. admits frame (frame * fps) kbps k ≡ false)
            (λ k. ¬ IsFitting width height fps bitrate k) h264_levels
            (λ k miss fits.
              let hit = IsFitting-admits width height fps bitrate k fits in absurd (cc (hit, miss)))
            (find_level-none frame (frame * fps) kbps h264_levels e),
    )
