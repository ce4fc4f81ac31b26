-- ===== src/Aac/Samples.antt =====
-- `float32ToS16View` of client/scripts/aac-worker.js. A 32-bit float is a whole number of its smallest
-- steps, 2 ^ -149: `none` is NaN, and an infinity is as any number that is far from 0. The products with
-- 32767 and 32768 are exact in JavaScript, and a store into an Int16Array drops the fraction.
pub mod Tests
use vrcstreamer.Common.{
  subst, ==_iff, ℕ, zero, suc, ◌+◌, ◌-◌, ◌*◌, ◌/◌, ◌%◌, ◌^◌, ◌≤◌, ◌<◌, min, max, ◌≡◌, refl, sym, ap,
  ◌∙◌, ◌≢◌, ◌↔◌, ◌⊎◌, inl, inr, Bool, true, false, not, ◌&&◌, ◌||◌, Option, none, some, List, [],
  ◌∷◌, ◌++◌, map, append_assoc, append-nil, arith, ltb, leb, ◌==◌, if◌then◌else◌, Bool-cases,
  Option-cases, is_some, length, get_elem?, get_or, set, take, drop, replicate, All,
}
use vrcstreamer.Common.{length-set, length-replicate}
use vrcstreamer.Common.Int.{ℤ, pos, negsuc, sub_ℕ, pos_part, neg_part}

abbrev pub unit : ℕ
unit = 2 ^ 149

pub to_s16 : Option ℤ → ℤ
to_s16 none = pos 0
to_s16 (some (pos n)) = if leb unit n then pos 32767 else pos (n * 32767 / unit)
to_s16 (some (negsuc n)) =
    if leb unit (suc n) then sub_ℕ 0 32768 else sub_ℕ 0 (suc n * 32768 / unit)

-- The loop, from the index `i`.
pub fill : List ℤ → ℕ → List (Option ℤ) → List ℤ
fill output i [] = output
fill output i (x ∷ input) = fill (set output i (to_s16 x)) (suc i) input

-- The view, and the scratch array that is kept for the next call.
pub float32_to_s16_view : Option (List ℤ) → List (Option ℤ) → List ℤ × List ℤ
float32_to_s16_view scratch input =
    let fresh = replicate (length input) (pos 0) in
    let output : List ℤ = elim scratch [
      | none ↦ fresh
      | some s ↦ if ltb (length s) (length input) then fresh else s
    ] in
    let filled = fill output 0 input in
    (if length filled == length input then filled else take (length input) filled, filled)

-- A 16-bit sample.
abbrev pub IsS16 : ℤ → Type 0
IsS16 s = (pos_part s ≤ 32767) × (neg_part s ≤ 32768)

to_s16-IsS16 : (x : Option ℤ) → IsS16 (to_s16 x)
unfolding to_s16
to_s16-IsS16 none = ground arith
to_s16-IsS16 (some (pos n)) = ground arith
to_s16-IsS16 (some (negsuc n)) = ground arith

length-fill :
    (output : List ℤ) (i : ℕ) (input : List (Option ℤ))
    → length (fill output i input) ≡ length output
unfolding fill
length-fill output i [] = refl
length-fill output i (x ∷ input) =
    length-fill (set output i (to_s16 x)) (suc i) input ∙ length-set output i (to_s16 x)

fill_tail :
    (y : ℤ) (ys : List ℤ) (i : ℕ) (input : List (Option ℤ))
    → fill (y ∷ ys) (suc i) input ≡ y ∷ fill ys i input
unfolding fill
fill_tail y ys i [] = refl
fill_tail y ys i (x ∷ input) = fill_tail y (set ys i (to_s16 x)) (suc i) input

take-fill :
    (output : List ℤ) (input : List (Option ℤ))
    → length input ≤ length output
    → take (length input) (fill output 0 input) ≡ map to_s16 input
unfolding fill
take-fill output [] h = refl
take-fill [] (x ∷ input) h = absurd (omega arith)
take-fill (y ∷ ys) (x ∷ input) h =
    rw (fill_tail (to_s16 x) ys 0 input) (ap (◌∷◌ (to_s16 x)) (take-fill ys input (omega arith)))

take_all : (xs : List ℤ) (n : ℕ) → length xs ≡ n → take n xs ≡ xs
take_all [] zero h = refl
take_all [] (suc n) h = refl
take_all (x ∷ xs) zero h = absurd (omega arith)
take_all (x ∷ xs) (suc n) h = ap (◌∷◌ x) (take_all xs n (omega arith))

-- The two ends of `float32ToS16View` agree.
view_of :
    (filled : List ℤ) (n : ℕ)
    → (if length filled == n then filled else take n filled) ≡ take n filled
view_of filled n = elim (Bool-cases (length filled == n)) [
  | inl e ↦ rw e (sym (take_all filled n ((==_iff (length filled) n).0 e)))
  | inr e ↦ rw e refl
]

to_s16-All : (input : List (Option ℤ)) → All IsS16 (map to_s16 input)
to_s16-All [] = tt
to_s16-All (x ∷ input) = (to_s16-IsS16 x, to_s16-All input)

output_long :
    (scratch : Option (List ℤ)) (n : ℕ)
    → n
      ≤ length (elim scratch [
        | none ↦ replicate n (pos 0)
        | some s ↦ if ltb (length s) n then replicate n (pos 0) else s
      ])
output_long none n = omega (arith, length-replicate n (pos 0))
output_long (some s) n = ground (arith, length-replicate n (pos 0))

-- Whatever scratch array an earlier call has left, the view holds the converted samples and nothing
-- else, each within 16 bits, and the array that is kept is no shorter than it.
pub float32_to_s16_view_lem :
    (scratch : Option (List ℤ)) (input : List (Option ℤ))
    → let (view, kept) = float32_to_s16_view scratch input in
      (view ≡ map to_s16 input) × All IsS16 view × (length input ≤ length kept)
unfolding float32_to_s16_view
float32_to_s16_view_lem scratch input =
    let output : List ℤ = elim scratch [
      | none ↦ replicate (length input) (pos 0)
      | some s ↦ if ltb (length s) (length input) then replicate (length input) (pos 0) else s
    ] in
    let long : length input ≤ length output = output_long scratch (length input) in
    let e : (float32_to_s16_view scratch input).0 ≡ map to_s16 input =
      view_of (fill output 0 input) (length input) ∙ take-fill output input long in
    (
      e,
      subst (All IsS16) (sym e) (to_s16-All input),
      omega (arith, long, length-fill output 0 input),
    )
