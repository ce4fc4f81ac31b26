-- ===== src/Video/AnnexB/Record.antt =====
-- Well-formed avcC records give their parameter sets.
use vrcstreamer.Video.AnnexB.{avc_description_to_annex_b, annex_b, read_both, subarray, read_sets}
use vrcstreamer.Common.{
  take-append, length-append, ℕ, suc, ◌+◌, ◌*◌, ◌/◌, ◌%◌, ◌≤◌, ◌<◌, ◌≡◌, refl, ap, ◌∙◌, some, List,
  [], ◌∷◌, ◌++◌, append_assoc, arith, length, get_or, take, drop,
}

-- A parameter set of an avcC record: its length in two bytes, then its bytes.
abbrev pub encode_set : List ℕ → List ℕ
encode_set part = length part / 256 ∷ length part % 256 ∷ part

abbrev pub encode_sets : List (List ℕ) → List ℕ
encode_sets [] = []
encode_sets (part ∷ parts) = encode_set part ++ encode_sets parts

get_or-append :
    (pre post : List ℕ) (i : ℕ) → get_or (pre ++ post) (length pre + i) 0 ≡ get_or post i 0
get_or-append [] post i = let e : 0 + i ≡ i = omega arith in rw e
get_or-append (y ∷ pre) post i =
    let e : suc (length pre) + i ≡ suc (length pre + i) = omega arith in
    rw e (get_or-append pre post i)

drop-append_add : (pre post : List ℕ) (i : ℕ) → drop (length pre + i) (pre ++ post) ≡ drop i post
drop-append_add [] post i = let e : 0 + i ≡ i = omega arith in rw e
drop-append_add (y ∷ pre) post i =
    let e : suc (length pre) + i ≡ suc (length pre + i) = omega arith in
    rw e (drop-append_add pre post i)

-- One round of the loop, where the set fits.
read_sets_step :
    (count : ℕ) (bytes : List ℕ) (offset a b size next end : ℕ) (parts : List (List ℕ))
    → get_or bytes offset 0 ≡ a
    → get_or bytes (offset + 1) 0 ≡ b
    → a * 256 + b ≡ size
    → offset + 2 + size ≡ next
    → next ≤ length bytes
    → read_sets count bytes next ≡ some (end, parts)
    → read_sets (suc count) bytes offset ≡ some (end, subarray bytes (offset + 2) size ∷ parts)
unfolding read_sets
read_sets_step count bytes offset a b size next end parts ea eb es en fits rest =
    rw (ea, eb, es, en, rest) (ground arith)

read_sets_one :
    (count : ℕ) (pre part tail : List ℕ) (end : ℕ) (parts : List (List ℕ))
    → let bytes = pre ++ (encode_set part ++ tail) in
      read_sets count bytes (length pre + 2 + length part) ≡ some (end, parts)
      → read_sets (suc count) bytes (length pre) ≡ some (end, part ∷ parts)
read_sets_one count pre part tail end parts rest =
    let rec : List ℕ = encode_set part ++ tail in
    let bytes = pre ++ rec in
    let high : get_or bytes (length pre) 0 ≡ length part / 256 =
      let z : length pre + 0 ≡ length pre = omega arith in rw z at (get_or-append pre rec 0) in
    let fits : length pre + 2 + length part ≤ length bytes =
      omega (arith, length-append pre rec, length-append part tail) in
    let found : subarray bytes (length pre + 2) (length part) ≡ part =
      ap (take (length part)) (drop-append_add pre rec 2) ∙ take-append part tail in
    rw found at (
      read_sets_step count bytes (length pre) (length part / 256) (length part % 256) (length part)
        (length pre + 2 + length part) end parts high (get_or-append pre rec 1) (omega arith) refl
        fits rest)

-- Reading sets where `pre` has been read already.
read_sets-encode :
    (parts : List (List ℕ)) (pre post : List ℕ)
    → read_sets (length parts) (pre ++ (encode_sets parts ++ post)) (length pre)
      ≡ some (length pre + length (encode_sets parts), parts)
read_sets-encode [] pre post = unfold read_sets in (ap some (ground arith))
read_sets-encode (part ∷ parts) pre post =
    let tail = encode_sets parts ++ post in
    let front = pre ++ encode_set part in
    let split : front ++ tail ≡ pre ++ (encode_set part ++ tail) =
      append_assoc pre (encode_set part) tail in
    let count : length front ≡ length pre + 2 + length part =
      omega (arith, length-append pre (encode_set part)) in
    let total : length front + length (encode_sets parts)
        ≡ length pre + length (encode_sets (part ∷ parts)) =
      omega (arith, count, length-append part (encode_sets parts)) in
    let ih : read_sets (length parts) (pre ++ (encode_set part ++ tail))
          (length pre + 2 + length part)
        ≡ some (length pre + length (encode_sets (part ∷ parts)), parts) =
      rw (split, total, count) at (read_sets-encode parts front post) in
    rw (append_assoc part (encode_sets parts) post)
      (read_sets_one (length parts) pre part tail _ parts ih)

-- Both loops, where each succeeds and the first does not use up the record.
read_both_step :
    (bytes : List ℕ) (n offset m end : ℕ) (sps pps : List (List ℕ))
    → get_or bytes 5 0 % 32 ≡ n
    → read_sets n bytes 6 ≡ some (offset, sps)
    → offset < length bytes
    → get_or bytes offset 0 ≡ m
    → read_sets m bytes (offset + 1) ≡ some (end, pps)
    → read_both bytes ≡ some (sps ++ pps)
unfolding read_both
read_both_step bytes n offset m end sps pps en es long em ep = ground arith

annex_b-nonempty : (part : List ℕ) (parts : List (List ℕ)) → 0 < length (annex_b (part ∷ parts))
unfolding annex_b
annex_b-nonempty part parts = omega arith

convert_step :
    (bytes : List ℕ) (parts : List (List ℕ))
    → 7 ≤ length bytes
    → get_or bytes 0 0 ≡ 1
    → read_both bytes ≡ some parts
    → 0 < length (annex_b parts)
    → avc_description_to_annex_b (some bytes) ≡ some (annex_b parts)
unfolding avc_description_to_annex_b
convert_step bytes parts a b e c = ground arith

-- The fixed part of an avcC record (version, profile, compatibility, level, length size), the count
-- of sequence parameter sets in the low five bits, the sets, the count of picture parameter sets,
-- these sets, and what may follow.
abbrev pub avc_record :
    (profile compatibility level : ℕ) → (sps pps : List (List ℕ)) → List ℕ → List ℕ
avc_record profile compatibility level sps pps trailing =
    1
    ∷ profile
    ∷ compatibility
    ∷ level
    ∷ 255
    ∷ (224 + length sps)
    ∷ (encode_sets sps ++ (length pps ∷ (encode_sets pps ++ trailing)))

module _ (profile compatibility level : ℕ) (sps pps : List (List ℕ)) (trailing : List ℕ) where
  abbrev bytes : List ℕ
  bytes = avc_record profile compatibility level sps pps trailing

  abbrev fixed : List ℕ
  fixed = 1 ∷ profile ∷ compatibility ∷ level ∷ 255 ∷ (224 + length sps) ∷ []

  read_sps : read_sets (length sps) bytes 6 ≡ some (6 + length (encode_sets sps), sps)
  read_sps = read_sets-encode sps fixed (length pps ∷ (encode_sets pps ++ trailing))

  abbrev before : List ℕ
  before = fixed ++ encode_sets sps

  abbrev after : List ℕ
  after = length pps ∷ (encode_sets pps ++ trailing)

  pps_count : get_or bytes (6 + length (encode_sets sps)) 0 ≡ length pps
  pps_count =
      let e : length before + 0 ≡ 6 + length (encode_sets sps) = omega arith in
      rw e at (get_or-append before after 0)

  read_pps :
      read_sets (length pps) bytes (6 + length (encode_sets sps) + 1)
      ≡ some (6 + length (encode_sets sps) + 1 + length (encode_sets pps), pps)
  read_pps =
      let front = before ++ (length pps ∷ []) in
      let size : length front ≡ 6 + length (encode_sets sps) + 1 =
        omega (arith, length-append before (length pps ∷ [])) in
      let split : front ++ (encode_sets pps ++ trailing) ≡ before ++ after =
        append_assoc before (length pps ∷ []) (encode_sets pps ++ trailing) in
      rw (split, size) at (read_sets-encode pps front trailing)

  long : 6 + length (encode_sets sps) < length bytes
  long = omega (arith, length-append (encode_sets sps) after)

  read_both_record : length sps < 32 → read_both bytes ≡ some (sps ++ pps)
  read_both_record h =
      read_both_step bytes (length sps) (6 + length (encode_sets sps)) (length pps) _ sps pps
        (omega arith) read_sps long pps_count read_pps

  -- An avcC record with fewer than 32 sequence parameter sets, with at least one set in all and
  -- whatever trailing bytes, becomes its sets in order, each behind the start code 00 00 00 01.
  pub avc_description_to_annex_b-record :
      length sps < 32
      → 0 < length sps + length pps
      → avc_description_to_annex_b (some (avc_record profile compatibility level sps pps trailing))
        ≡ some (annex_b (sps ++ pps))
  avc_description_to_annex_b-record h some_set =
      convert_step bytes (sps ++ pps) (omega (arith, length-append (encode_sets sps) after)) refl
        (read_both_record h) (nonempty (sps ++ pps) (omega (arith, length-append sps pps)))
    where
      nonempty : (parts : List (List ℕ)) → 0 < length parts → 0 < length (annex_b parts)
      nonempty [] z = absurd (omega arith)
      nonempty (p ∷ ps) z = annex_b-nonempty p ps
