-- ===== src/Video/AnnexB/Size.antt =====
-- Whatever bytes the codec hands over, the converted parameter sets stay small.
use vrcstreamer.Video.AnnexB.{subarray, avc_description_to_annex_b, annex_b, read_both, read_sets}
use vrcstreamer.Common.{
  length-append, length-take, ℕ, zero, suc, ◌+◌, ◌*◌, ◌%◌, ◌≤◌, ◌<◌, ◌≡◌, inl, inr, some, List, [],
  ◌∷◌, ◌++◌, arith, Option-cases, length, get_or, drop,
}

abbrev pub total : List (List ℕ) → ℕ
total [] = 0
total (part ∷ parts) = 2 + length part + total parts

length-annex_b : (parts : List (List ℕ)) → length (annex_b parts) ≤ 2 * total parts
unfolding annex_b
length-annex_b [] = omega arith
length-annex_b (part ∷ parts) =
    omega (arith, length-append part (annex_b parts), length-annex_b parts)

length-subarray-le : (bytes : List ℕ) (from count : ℕ) → length (subarray bytes from count) ≤ count
length-subarray-le bytes from count = omega (arith, length-take count (drop from bytes))

-- What the loop reads lies between its offsets and inside the record.
read_sets-bounds :
    (count : ℕ) (bytes : List ℕ) (offset end : ℕ) (parts : List (List ℕ))
    → read_sets count bytes offset ≡ some (end, parts)
    → offset ≤ length bytes
    → (offset + total parts ≤ end) × (end ≤ length bytes) × (length parts ≡ count)
unfolding read_sets
read_sets-bounds zero bytes offset end parts e h = ground arith
read_sets-bounds (suc count) bytes offset end [] e h = ground arith
read_sets-bounds (suc count) bytes offset end (part ∷ parts) e h =
    let size = get_or bytes offset 0 * 256 + get_or bytes (offset + 1) 0 in
    ground (
      arith,
      read_sets-bounds count bytes (offset + 2 + size) end parts,
      length-subarray-le bytes (offset + 2) size,
    )

total-append : (ps qs : List (List ℕ)) → total (ps ++ qs) ≡ total ps + total qs
total-append [] qs = omega arith
total-append (p ∷ ps) qs = omega (arith, total-append ps qs)

read_both-total :
    (bytes : List ℕ) (parts : List (List ℕ))
    → 7 ≤ length bytes
    → read_both bytes ≡ some parts
    → total parts ≤ length bytes
unfolding read_both
read_both-total bytes parts long e =
    elim (Option-cases (read_sets (get_or bytes 5 0 % 32) bytes 6)) [
      | inl e1 ↦ absurd (ground arith)
      | inr ((offset, sps), e1) ↦
          let b1 = read_sets-bounds _ bytes 6 offset sps e1 (omega arith) in
          elim (Option-cases (read_sets (get_or bytes offset 0) bytes (offset + 1))) [
            | inl e2 ↦ absurd (ground (arith, e1, e2))
            | inr ((end, pps), e2) ↦ ground (
              arith,
              e1,
              e2,
              b1,
              read_sets-bounds (get_or bytes offset 0) bytes (offset + 1) end pps e2,
              total-append sps pps,
            )
          ]
    ]

-- Whatever the description's bytes are, a converted header is not empty and is at most twice as long
-- as the description.
pub length-avc_description_to_annex_b :
    (bytes out : List ℕ)
    → avc_description_to_annex_b (some bytes) ≡ some out
    → (0 < length out) × (length out ≤ 2 * length bytes)
unfolding avc_description_to_annex_b
length-avc_description_to_annex_b bytes out e = elim (Option-cases (read_both bytes)) [
  | inl e1 ↦ absurd (ground arith)
  | inr (parts, e1) ↦ ground (arith, e1, read_both-total bytes parts, length-annex_b parts)
]
