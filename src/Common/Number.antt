-- ===== src/Common/Number.antt =====
-- The floating-point numbers of JavaScript, as a parameter: the operations that the sources apply to
-- values that need not be whole numbers, and the IEEE 754 facts that the proofs rely on.
use Prim.Native.Nat.{ℕ}
use mathlib.Core.Path.{◌≡◌}
use mathlib.Core.Bool.{Bool, true, false}

-- `num p q` is the number nearest to p / q, `fmin` and `fmax` are `Math.min` and `Math.max`, `ffloor`
-- is `Math.floor`.
pub record Number {ℓ} (D : Type ℓ) : Type ℓ where
  pub num : ℕ → ℕ → D
  pub add : D → D → D
  pub sub : D → D → D
  pub mul : D → D → D
  pub div : D → D → D
  pub fmin : D → D → D
  pub fmax : D → D → D
  pub ffloor : D → D
  pub lt : D → D → Bool
  pub le : D → D → Bool

-- The order facts that hold of IEEE doubles, NaN and the infinities included: every comparison with
-- NaN is false. Adding a literal is monotone, since rounding is.
pub record IsOrdered {ℓ} (D : Type ℓ) ⦃n : Number D⦄ : Type ℓ where
  pub not-le_of_lt : (a b : D) → n.lt a b ≡ true → n.le b a ≡ false
  pub lt_of_lt_of_le : (a b c : D) → n.lt a b ≡ true → n.le b c ≡ true → n.lt a c ≡ true
  pub add_num_mono :
      (a b : D) (p q : ℕ)
      → n.le a b ≡ true
      → n.le (n.add a (n.num p q)) (n.add b (n.num p q)) ≡ true
