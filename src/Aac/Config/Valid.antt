-- ===== src/Aac/Config/Valid.antt =====
-- What `probeNativeAacEncoder` and `validatePacket` of client/scripts/aac-worker.js let through, in
-- words of the access units and the descriptions that the encoder gives.
use vrcstreamer.Common.{
  subst, ℕ, ◌/◌, ◌%◌, ◌≤◌, ◌≡◌, refl, sym, ap, ◌∙◌, ◌⊎◌, inl, inr, true, Option, none, some, List,
  [], ◌∷◌, ◌++◌, arith, length, get_or,
}
use vrcstreamer.Aac.Config.{
  Text, starts_with, bytes_to_hex, validate_packet, first_packet, config_hex,
}

-- An ADTS header: 12 bits of ones, and a layer of 0.
abbrev pub IsAdts : List ℕ → Type 0
IsAdts unit = (get_or unit 0 0 ≡ 255) × (get_or unit 1 0 / 16 ≡ 15) × (get_or unit 1 0 / 2 % 4 ≡ 0)

-- The first description that has bytes.
abbrev pub first_description : List (List ℕ × Option (List ℕ)) → Option (List ℕ)
first_description [] = none
first_description ((unit, none) ∷ outputs) = first_description outputs
first_description ((unit, some []) ∷ outputs) = first_description outputs
first_description ((unit, some (b ∷ bs)) ∷ outputs) = some (b ∷ bs)

abbrev pub IsPrefix : Text → Text → Type 0
IsPrefix expected text = (rest : Text) × (text ≡ expected ++ rest)

abbrev pub IsExpected : Text → Option (List ℕ) → Type 0
IsExpected expected none = Unit
IsExpected expected (some []) = Unit
IsExpected expected (some (b ∷ bs)) = IsPrefix expected (bytes_to_hex (b ∷ bs))

-- The first access unit has four bytes at least and no ADTS header, and the description, if there is
-- one, begins with the expected configuration.
abbrev pub IsRaw : Text → List (List ℕ × Option (List ℕ)) → Type 0
IsRaw expected [] = ⊥
IsRaw expected ((unit, d) ∷ outputs) =
    (4 ≤ length unit)
    × (¬ IsAdts unit)
    × IsExpected expected (first_description ((unit, d) ∷ outputs))

starts_with-prefix :
    (text expected : Text) → starts_with text expected ≡ true → IsPrefix expected text
starts_with-prefix text [] e = (text, refl)
starts_with-prefix [] (c ∷ cs) e = absurd (cc e)
starts_with-prefix (t ∷ text) (c ∷ cs) e =
    let h : t ≡ c = ground (arith, e) in
    let (rest, k) = starts_with-prefix text cs (ground (arith, e)) in
    (rest, ap (◌∷◌ t) k ∙ ap (λ x. x ∷ (cs ++ rest)) h)

prefix-starts_with : (expected rest : Text) → starts_with (expected ++ rest) expected ≡ true
prefix-starts_with [] rest = refl
prefix-starts_with (c ∷ cs) rest = ground (arith, prefix-starts_with cs rest)

config_hex-cons :
    (c : ℕ) (cs : Text) (outputs : List (List ℕ × Option (List ℕ)))
    → config_hex (c ∷ cs) outputs ≡ c ∷ cs
unfolding config_hex
config_hex-cons c cs [] = refl
config_hex-cons c cs ((unit, none) ∷ outputs) = config_hex-cons c cs outputs
config_hex-cons c cs ((unit, some d) ∷ outputs) = config_hex-cons c cs outputs

abbrev hex_of : Option (List ℕ) → Text
hex_of none = []
hex_of (some d) = bytes_to_hex d

config_hex-first :
    (outputs : List (List ℕ × Option (List ℕ)))
    → config_hex [] outputs ≡ hex_of (first_description outputs)
unfolding config_hex bytes_to_hex
config_hex-first [] = refl
config_hex-first ((unit, none) ∷ outputs) = config_hex-first outputs
config_hex-first ((unit, some []) ∷ outputs) = config_hex-first outputs
config_hex-first ((unit, some (b ∷ bs)) ∷ outputs) = config_hex-cons _ _ outputs

-- `validatePacket` on the hexadecimal text.
abbrev Passes : List ℕ → Text → Text → Type 0
Passes unit hex expected =
    (4 ≤ length unit) × (¬ IsAdts unit) × ((hex ≡ []) ⊎ (starts_with hex expected ≡ true))

valid-Passes :
    (unit : List ℕ) (hex expected : Text)
    → validate_packet (some unit) hex expected 0 ≡ none
    → Passes unit hex expected
unfolding validate_packet
valid-Passes unit [] expected e =
    (ground (arith, e), (λ (a, b, c). ground (arith, a, b, c, e)), inl refl)
valid-Passes unit (c ∷ cs) expected e =
    (ground (arith, e), (λ (a, b, c). ground (arith, a, b, c, e)), inr (ground (arith, e)))

Passes-valid :
    (unit : List ℕ) (hex expected : Text)
    → Passes unit hex expected
    → validate_packet (some unit) hex expected 0 ≡ none
unfolding validate_packet
Passes-valid unit hex expected (a, b, inl e) = rw e (ground (arith, a, b))
Passes-valid unit hex expected (a, b, inr e) = rw e (ground (arith, a, b))

pub validate-IsRaw :
    (expected : Text) (outputs : List (List ℕ × Option (List ℕ)))
    → validate_packet (first_packet outputs) (config_hex [] outputs) expected 0 ≡ none
    → IsRaw expected outputs
unfolding first_packet
validate-IsRaw expected [] e = absurd (unfold validate_packet in cc e)
validate-IsRaw expected ((unit, d) ∷ outputs) e =
    let all = (unit, d) ∷ outputs in
    let (a, b, x) = valid-Passes unit (config_hex [] all) expected e in
    (a, b, by_first (first_description all) (config_hex [] all) (config_hex-first all) x)
  where
    by_first :
        (o : Option (List ℕ)) (hex : Text)
        → hex ≡ hex_of o
        → (hex ≡ []) ⊎ (starts_with hex expected ≡ true)
        → IsExpected expected o
    by_first none hex e x = tt
    by_first (some []) hex e x = tt
    by_first (some (b ∷ bs)) hex e (inr x) =
        starts_with-prefix (bytes_to_hex (b ∷ bs)) expected
          (subst (λ t. starts_with t expected ≡ true) e x)
    by_first (some (b ∷ bs)) hex e (inl x) =
        let empty : bytes_to_hex (b ∷ bs) ≡ [] = sym e ∙ x in
        absurd (unfold bytes_to_hex in cc empty)

pub IsRaw-validate :
    (expected : Text) (outputs : List (List ℕ × Option (List ℕ)))
    → IsRaw expected outputs
    → validate_packet (first_packet outputs) (config_hex [] outputs) expected 0 ≡ none
unfolding first_packet
IsRaw-validate expected [] h = absurd h
IsRaw-validate expected ((unit, d) ∷ outputs) (a, b, x) =
    let all = (unit, d) ∷ outputs in
    Passes-valid unit (config_hex [] all) expected
      (a, b, by_first (first_description all) (config_hex [] all) (config_hex-first all) x)
  where
    by_first :
        (o : Option (List ℕ)) (hex : Text)
        → hex ≡ hex_of o
        → IsExpected expected o
        → (hex ≡ []) ⊎ (starts_with hex expected ≡ true)
    by_first none hex e x = inl e
    by_first (some []) hex e x = inl (unfold bytes_to_hex in e)
    by_first (some (b ∷ bs)) hex e (rest, x) = inr (
        subst (λ t. starts_with t expected ≡ true) (sym (e ∙ x)) (prefix-starts_with expected rest))
