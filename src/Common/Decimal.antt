-- ===== src/Common/Decimal.antt =====
-- Signed fixed-point numbers with three decimal places: a concrete stand-in for JavaScript's numbers,
-- in which the tests and the witnesses run.
use vrcstreamer.Common.{◌+◌, ◌*◌, ◌/◌, Bool, leb, ltb, if◌then◌else◌, arith}
use vrcstreamer.Common.Int.{ℤ, pos, negsuc, pos_part, neg_part, sub_ℕ}
use vrcstreamer.Common.Number.{Number, IsOrdered}

abbrev plus : ℤ → ℤ → ℤ
plus a b = sub_ℕ (pos_part a + pos_part b) (neg_part a + neg_part b)

abbrev minus : ℤ → ℤ → ℤ
minus a b = sub_ℕ (pos_part a + neg_part b) (neg_part a + pos_part b)

abbrev times : ℤ → ℤ → ℤ
times a b =
    sub_ℕ ((pos_part a * pos_part b + neg_part a * neg_part b) / 1000)
      ((pos_part a * neg_part b + neg_part a * pos_part b) / 1000)

abbrev over : ℤ → ℤ → ℤ
over a b =
    sub_ℕ (pos_part a * 1000 / pos_part b + neg_part a * 1000 / neg_part b)
      (pos_part a * 1000 / neg_part b + neg_part a * 1000 / pos_part b)

abbrev below : ℤ → ℤ → Bool
below a b = ltb (pos_part a + neg_part b) (pos_part b + neg_part a)

abbrev at_most : ℤ → ℤ → Bool
at_most a b = leb (pos_part a + neg_part b) (pos_part b + neg_part a)

abbrev floor : ℤ → ℤ
floor (pos n) = pos (n / 1000 * 1000)
floor (negsuc n) = minus (pos 0) (pos ((n + 1000) / 1000 * 1000))

instance abbrev pub decimal_number : Number ℤ
decimal_number = record {
  num = λ p q. pos (p * 1000 / q);
  add = plus;
  sub = minus;
  mul = times;
  div = over;
  fmin = λ a b. if below b a then b else a;
  fmax = λ a b. if below a b then b else a;
  ffloor = floor;
  lt = below;
  le = at_most;
}

pub decimal-IsOrdered : IsOrdered ℤ
decimal-IsOrdered = record {
  not-le_of_lt = λ a b h. ground arith;
  lt_of_lt_of_le = λ a b c h k. ground arith;
  add_num_mono = λ a b p q h. ground arith;
}
