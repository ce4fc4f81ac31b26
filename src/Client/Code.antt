-- ===== src/Client/Code.antt =====
-- The stream code of client/scripts/client.js: `randomCode`, `validStoredCode`, `saveCode`, `rotateCode`
-- and `loadCode`. Texts are lists of character codes; the random bytes are an argument.
pub mod Tests
use vrcstreamer.Common.{
  subst, ℕ, zero, suc, ◌+◌, ◌-◌, ◌*◌, ◌/◌, ◌%◌, ◌^◌, ◌≤◌, ◌<◌, min, max, ◌≡◌, refl, sym, ap, ◌∙◌,
  ◌≢◌, ◌↔◌, ◌⊎◌, inl, inr, Bool, true, false, not, ◌&&◌, ◌||◌, Option, none, some, List, [], ◌∷◌,
  ◌++◌, map, append_assoc, append-nil, arith, ltb, leb, ◌==◌, if◌then◌else◌, Bool-cases,
  Option-cases, is_some, length, get_elem?, get_or, set, take, drop, replicate, All,
}

abbrev pub stream_code_length : ℕ
stream_code_length = 32

abbrev pub stream_code_charset : List ℕ
stream_code_charset =
    65 ∷ 66 ∷ 67 ∷ 68 ∷ 69 ∷ 70 ∷ 71 ∷ 72 ∷ 73 ∷ 74 ∷ 75 ∷ 76 ∷ 77 ∷ 78 ∷ 79 ∷ 80 ∷ 81 ∷ 82 ∷ 83
    ∷ 84 ∷ 85 ∷ 86 ∷ 87 ∷ 88 ∷ 89 ∷ 90 ∷ 97 ∷ 98 ∷ 99 ∷ 100 ∷ 101 ∷ 102 ∷ 103 ∷ 104 ∷ 105 ∷ 106
    ∷ 107 ∷ 108 ∷ 109 ∷ 110 ∷ 111 ∷ 112 ∷ 113 ∷ 114 ∷ 115 ∷ 116 ∷ 117 ∷ 118 ∷ 119 ∷ 120 ∷ 121 ∷ 122
    ∷ 48 ∷ 49 ∷ 50 ∷ 51 ∷ 52 ∷ 53 ∷ 54 ∷ 55 ∷ 56 ∷ 57 ∷ 33 ∷ 35 ∷ 36 ∷ 37 ∷ 38 ∷ 40 ∷ 41 ∷ 42 ∷ 43
    ∷ 44 ∷ 45 ∷ 46 ∷ 47 ∷ 58 ∷ 59 ∷ 60 ∷ 61 ∷ 62 ∷ 63 ∷ 64 ∷ 91 ∷ 93 ∷ 94 ∷ 95 ∷ 123 ∷ 124 ∷ 125
    ∷ 126 ∷ []

-- The page's code, and what the browser has stored.
pub record Codes : Type 0 where
  pub stream_code : List ℕ
  pub stored : Option (List ℕ)

pub code_of_bytes : List ℕ → List ℕ
code_of_bytes [] = []
code_of_bytes (byte ∷ bytes) =
    get_or stream_code_charset (byte % length stream_code_charset) 0 ∷ code_of_bytes bytes

-- `crypto.getRandomValues`, the byte at each place being given.
abbrev pub random_bytes : (ℕ → ℕ) → ℕ → List ℕ
random_bytes byte zero = []
random_bytes byte (suc n) = byte n ∷ random_bytes byte n

pub random_code : (ℕ → ℕ) → List ℕ
random_code byte = code_of_bytes (random_bytes byte stream_code_length)

-- `[\x21-\x7e]`, for each character.
abbrev pub all_visible : List ℕ → Bool
all_visible [] = true
all_visible (c ∷ cs) = (leb 33 c && leb c 126) && all_visible cs

pub valid_stored_code : Option (List ℕ) → Bool
valid_stored_code none = false
valid_stored_code (some code) = (length code == stream_code_length) && all_visible code

-- `stores` is that the browser's storage takes the value.
pub save_code : Codes → Bool → List ℕ → Codes
save_code c stores code = record {
  stream_code = code;
  stored = if stores then some code else c.stored;
}

pub rotate_code : Codes → Bool → (ℕ → ℕ) → Codes × List ℕ
rotate_code c stores byte = let code = random_code byte in (save_code c stores code, code)

-- `loadCode`, and the assignment of its result to `streamCode`.
pub load_code : Codes → Bool → (ℕ → ℕ) → Codes
load_code c stores byte = elim c.stored [
  | none ↦ let (d, code) = rotate_code c stores byte in record d { stream_code = code }
  | some saved ↦
      let (d, code) = rotate_code c stores byte in
      if valid_stored_code (some saved)
      then record c { stream_code = saved }
      else record d { stream_code = code }
]

abbrev IsVisible : ℕ → Type 0
IsVisible c = (33 ≤ c) × (c ≤ 126)

all_visible_of : (cs : List ℕ) → all_visible cs ≡ true → All IsVisible cs
all_visible_of [] h = tt
all_visible_of (c ∷ cs) h =
    let (x, y) = both (leb 33 c && leb c 126) (all_visible cs) h in
    (ground (arith, x), all_visible_of cs y)
  where
    both : (a b : Bool) → (a && b) ≡ true → (a ≡ true) × (b ≡ true)
    both true b k = (refl, k)
    both false b k = absurd (cc k)

get_or-IsVisible :
    (cs : List ℕ) (i d : ℕ) → All IsVisible cs → i < length cs → IsVisible (get_or cs i d)
get_or-IsVisible [] i d h k = absurd (omega arith)
get_or-IsVisible (c ∷ cs) zero d h k = h.0
get_or-IsVisible (c ∷ cs) (suc i) d h k = get_or-IsVisible cs i d h.1 (omega arith)

visible_of : (c : ℕ) → 33 ≤ c → c ≤ 126 → (leb 33 c && leb c 126) ≡ true
visible_of c h k = ground (arith, h, k)

code_of_bytes-visible : (bytes : List ℕ) → all_visible (code_of_bytes bytes) ≡ true
unfolding code_of_bytes
code_of_bytes-visible [] = refl
code_of_bytes-visible (byte ∷ bytes) =
    let c = get_or stream_code_charset (byte % length stream_code_charset) 0 in
    let (x, y) : IsVisible c =
      get_or-IsVisible stream_code_charset (byte % length stream_code_charset) 0
        (all_visible_of stream_code_charset refl) (omega arith) in
    rw (visible_of c x y) (code_of_bytes-visible bytes)

length-code_of_bytes : (bytes : List ℕ) → length (code_of_bytes bytes) ≡ length bytes
unfolding code_of_bytes
length-code_of_bytes [] = refl
length-code_of_bytes (byte ∷ bytes) = ap suc (length-code_of_bytes bytes)

random_code-valid : (byte : ℕ → ℕ) → valid_stored_code (some (random_code byte)) ≡ true
unfolding valid_stored_code random_code
random_code-valid byte =
    let n : length (code_of_bytes (random_bytes byte stream_code_length)) ≡ 32 =
      length-code_of_bytes (random_bytes byte stream_code_length) in
    let v = code_of_bytes-visible (random_bytes byte stream_code_length) in rw (n, v) refl

-- `loadCode` gives a valid code whatever the browser had stored and whatever the random bytes: it has
-- 32 visible characters. A valid stored code is kept.
pub load_code-valid :
    (c : Codes) (stores : Bool) (byte : ℕ → ℕ)
    → (valid_stored_code (some (load_code c stores byte).stream_code) ≡ true)
      × ((saved : List ℕ)
          → c.stored ≡ some saved
          → valid_stored_code (some saved) ≡ true
          → (load_code c stores byte).stream_code ≡ saved)
unfolding load_code rotate_code
load_code-valid c stores byte = by_stored c.stored refl
  where
    by_stored :
        (o : Option (List ℕ))
        → c.stored ≡ o
        → (valid_stored_code (some (load_code c stores byte).stream_code) ≡ true)
          × ((saved : List ℕ)
              → c.stored ≡ some saved
              → valid_stored_code (some saved) ≡ true
              → (load_code c stores byte).stream_code ≡ saved)
    by_stored none e = rw e (random_code-valid byte, λ saved f v. absurd (cc f))
    by_stored (some text) e = elim (Bool-cases (valid_stored_code (some text))) [
      | inl v ↦ rw (e, v) (v, λ saved f k. cc f)
      | inr v ↦
          rw (e, v)
            (
              random_code-valid byte,
              λ saved f k.
                  let same : text ≡ saved = cc f in
                  let valid : valid_stored_code (some text) ≡ true =
                    subst (λ t. valid_stored_code (some t) ≡ true) (sym same) k in
                  absurd (cc (sym v ∙ valid)),
            )
    ]
