-- ===== src/Video/AnnexB.antt =====
-- `avcDescriptionToAnnexB` of client/scripts/video-worker.js: the parameter sets of an avcC record as
-- an Annex B byte stream. Bytes are numbers below 256, so `(a << 8) | b` is `a * 256 + b` and
-- `a & 0x1f` is `a % 32`. `none` is `null`.
pub mod Record
pub mod Size
pub mod Tests
use vrcstreamer.Common.{
  ℕ, zero, suc, ◌+◌, ◌-◌, ◌*◌, ◌/◌, ◌%◌, ◌^◌, ◌≤◌, ◌<◌, min, max, ◌≡◌, refl, sym, ap, ◌∙◌, ◌≢◌, ◌↔◌,
  ◌⊎◌, inl, inr, Bool, true, false, not, ◌&&◌, ◌||◌, Option, none, some, List, [], ◌∷◌, ◌++◌, map,
  append_assoc, append-nil, arith, ltb, leb, ◌==◌, if◌then◌else◌, Bool-cases, Option-cases, is_some,
  length, get_elem?, get_or, set, take, drop, replicate, All,
}

abbrev pub start_code : List ℕ
start_code = 0 ∷ 0 ∷ 0 ∷ 1 ∷ []

-- `data.subarray(from, from + count)`.
abbrev pub subarray : List ℕ → ℕ → ℕ → List ℕ
subarray bytes from count = take count (drop from bytes)

-- One of the two loops: `count` parameter sets from `offset` on, with the offset behind the last.
pub read_sets : ℕ → List ℕ → ℕ → Option (ℕ × List (List ℕ))
read_sets zero bytes offset = some (offset, [])
read_sets (suc count) bytes offset =
    let size = get_or bytes offset 0 * 256 + get_or bytes (offset + 1) 0 in
    let next = offset + 2 + size in
    let rest = read_sets count bytes next in
    if ltb (length bytes) (offset + 2)
    then none
    else if ltb (length bytes) next
    then none
    else elim rest [
      | none ↦ none
      | some (end, parts) ↦ some (end, subarray bytes (offset + 2) size ∷ parts)
    ]

pub annex_b : List (List ℕ) → List ℕ
annex_b [] = []
annex_b (part ∷ parts) = start_code ++ (part ++ annex_b parts)

pub read_both : List ℕ → Option (List (List ℕ))
read_both bytes = elim (read_sets (get_or bytes 5 0 % 32) bytes 6) [
  | none ↦ none
  | some (offset, sps) ↦
      if leb (length bytes) offset
      then none
      else elim (read_sets (get_or bytes offset 0) bytes (offset + 1)) [
        | none ↦ none
        | some (end, pps) ↦ some (sps ++ pps)
      ]
]

pub avc_description_to_annex_b : Option (List ℕ) → Option (List ℕ)
avc_description_to_annex_b none = none
avc_description_to_annex_b (some bytes) =
    if ltb (length bytes) 7 || not (get_or bytes 0 0 == 1) then none else elim (read_both bytes) [
      | none ↦ none
      | some parts ↦ if length (annex_b parts) == 0 then none else some (annex_b parts)
    ]
