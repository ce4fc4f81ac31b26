-- ===== src/Client/Quality/Digits.antt =====
-- Decimal numbers in the presets of client/scripts/client.js, printed and read back.
use vrcstreamer.Common.{length-append}
use vrcstreamer.Common.{
  ℕ, zero, suc, ◌+◌, ◌-◌, ◌*◌, ◌/◌, ◌%◌, ◌≤◌, ◌<◌, ◌≡◌, refl, ap, ◌∙◌, inl, inr, Bool, true, false,
  not, some, [], ◌∷◌, ◌++◌, arith, ltb, Bool-cases, length, All,
}
use vrcstreamer.Client.Quality.{
  Text, is_digit, is_space, read_digits, read_number, print_number, decimal,
}

abbrev pub AreDigits : Text → Type 0
AreDigits = All (λ c. is_digit c ≡ true)

-- The value of digits, on top of a value.
abbrev value : ℕ → Text → ℕ
value n [] = n
value n (c ∷ cs) = value (n * 10 + (c - 48)) cs

value-snoc : (n : ℕ) (cs : Text) (c : ℕ) → value n (cs ++ (c ∷ [])) ≡ value n cs * 10 + (c - 48)
value-snoc n [] c = refl
value-snoc n (d ∷ ds) c = value-snoc (n * 10 + (d - 48)) ds c

AreDigits-append : (cs ds : Text) → AreDigits cs → AreDigits ds → AreDigits (cs ++ ds)
AreDigits-append [] ds h k = k
AreDigits-append (c ∷ cs) ds h k = (h.0, AreDigits-append cs ds h.1 k)

print_number-AreDigits : (fuel n : ℕ) → AreDigits (print_number fuel n)
unfolding print_number
print_number-AreDigits zero n = tt
print_number-AreDigits (suc fuel) n = elim (Bool-cases (ltb n 10)) [
  | inl e ↦ rw e (ground arith, tt)
  | inr e ↦ rw e (
      AreDigits-append (print_number fuel (n / 10)) ((n % 10 + 48) ∷ [])
        (print_number-AreDigits fuel (n / 10)) (ground arith, tt))
]

value-print_number : (fuel n : ℕ) → n < fuel → value 0 (print_number fuel n) ≡ n
unfolding print_number
value-print_number zero n h = absurd (omega arith)
value-print_number (suc fuel) n h = elim (Bool-cases (ltb n 10)) [
  | inl e ↦ rw e (omega arith)
  | inr e ↦
      let large : 10 ≤ n = ground (arith, e) in
      let ih = value-print_number fuel (n / 10) (omega (arith, h, large)) in
      rw e (omega (arith, ih, value-snoc 0 (print_number fuel (n / 10)) (n % 10 + 48)))
]

read_digits-digits :
    (n : ℕ) (cs rest : Text)
    → AreDigits cs
    → read_digits n (cs ++ rest) ≡ read_digits (value n cs) rest
unfolding read_digits
read_digits-digits n [] rest h = refl
read_digits-digits n (c ∷ cs) rest h = rw h.0 (read_digits-digits (n * 10 + (c - 48)) cs rest h.1)

-- The text does not go on with a digit.
abbrev pub stops : Text → Bool
stops [] = true
stops (c ∷ cs) = not (is_digit c)

read_digits_stop : (n : ℕ) (rest : Text) → stops rest ≡ true → read_digits n rest ≡ (n, rest)
unfolding read_digits
read_digits_stop n [] h = refl
read_digits_stop n (c ∷ cs) h = by_digit (is_digit c) refl h
  where
    by_digit : (b : Bool) → is_digit c ≡ b → not b ≡ true → read_digits n (c ∷ cs) ≡ (n, c ∷ cs)
    by_digit true e k = absurd (cc k)
    by_digit false e k = rw e refl

length-print_number : (fuel n : ℕ) → 1 ≤ length (print_number (suc fuel) n)
unfolding print_number
length-print_number fuel n = elim (Bool-cases (ltb n 10)) [
  | inl e ↦ rw e (omega arith)
  | inr e ↦ rw e (omega (arith, length-append (print_number fuel (n / 10)) ((n % 10 + 48) ∷ [])))
]

read_number-digits :
    (cs rest : Text)
    → AreDigits cs
    → 1 ≤ length cs
    → read_number (cs ++ rest) ≡ some (read_digits 0 (cs ++ rest))
unfolding read_number
read_number-digits [] rest h k = absurd (omega arith)
read_number-digits (c ∷ cs) rest h k = rw h.0 refl

pub read_number-decimal :
    (n : ℕ) (rest : Text) → stops rest ≡ true → read_number (decimal n ++ rest) ≡ some (n, rest)
read_number-decimal n rest h =
    let digits = print_number-AreDigits (suc n) n in
    let amount : value 0 (decimal n) ≡ n = value-print_number (suc n) n (omega arith) in
    read_number-digits (decimal n) rest digits (length-print_number n n)
    ∙ ap some (
        read_digits-digits 0 (decimal n) rest digits
        ∙ ap (λ k. read_digits k rest) amount
        ∙ read_digits_stop n rest h)

-- Digits are no white space.
pub not-is_space : (c : ℕ) → is_digit c ≡ true → is_space c ≡ false
not-is_space c h = ground (arith, h)

pub decimal-AreDigits : (n : ℕ) → AreDigits (decimal n)
decimal-AreDigits n = print_number-AreDigits (suc n) n
