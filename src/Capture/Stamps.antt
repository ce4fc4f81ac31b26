-- ===== src/Capture/Stamps.antt =====
-- The timestamps of the blocks that `CaptureProcessor` of audio-worklet.js posts.
use vrcstreamer.Common.{
  subst, ℕ, zero, suc, ◌+◌, ◌-◌, ◌≤◌, ◌<◌, min, ◌≡◌, refl, inl, inr, List, [], ◌∷◌, ◌++◌, arith,
  ltb, ◌==◌, if◌then◌else◌, Bool-cases,
}
use vrcstreamer.Common.Number.{Number}
use vrcstreamer.Capture.{CaptureProcessor, Block, Input, gather, gather_all, process}

module _ {ℓ} {D : Type ℓ} where
  -- The buffered samples end where the input begins, at sample `now` of the clock.
  abbrev pub IsStamped : CaptureProcessor D → ℕ → Type 0
  IsStamped c now =
      (c.offset < c.frames) × (c.offset ≤ now) × (0 < c.offset → c.timestamp + c.offset ≡ now)

  -- Blocks that follow each other without a gap, the first at `first`.
  abbrev pub IsSequence : ℕ → ℕ → List (Block D) → Type 0
  IsSequence frames first [] = Unit
  IsSequence frames first (b ∷ bs) = (b.stamp ≡ first) × IsSequence frames (first + frames) bs

module _ {ℓ} {D : Type ℓ} ⦃n : Number D⦄ where
  abbrev turn : CaptureProcessor D → Input D → ℕ → ℕ
  turn c input source = min (c.frames - c.offset) (input.frame_count - source)

  -- A turn moves the end of the buffered samples on, and its block begins where they began.
  gather-IsStamped :
      (c : CaptureProcessor D) (input : Input D) (now source : ℕ)
      → IsStamped c (now + source)
      → source < input.frame_count
      → let (d, bs) = gather c input now source in
        let end = now + (source + turn c input source) in
        IsStamped d end
        × (d.frames ≡ c.frames)
        × ((rest : List (Block D))
            → IsSequence d.frames (end - d.offset) rest
            → IsSequence c.frames (now + source - c.offset) (bs ++ rest))
  unfolding gather
  gather-IsStamped c input now source (a, b, h) lt =
      let count = turn c input source in
      let stamp = if c.offset == 0 then now + source else c.timestamp in
      let begins : stamp ≡ now + source - c.offset = ground arith in
      elim (Bool-cases (c.offset + count == c.frames)) [
        | inl e ↦
            let full : c.offset + count ≡ c.frames = ground arith in
            let next : now + (source + count) - 0 ≡ now + source - c.offset + c.frames =
              omega (arith, full, b) in
            rw e (
              (omega (arith, a), omega arith, λ z. absurd (omega (arith, z))),
              refl,
              λ rest r. (begins, subst (λ k. IsSequence c.frames k rest) next r),
            )
        | inr e ↦
            let part : c.offset + count < c.frames = ground arith in
            let same : now + (source + count) - (c.offset + count) ≡ now + source - c.offset =
              omega (arith, b) in
            rw e (
              (part, omega (arith, b), λ z. omega (arith, begins, b)),
              refl,
              λ rest r. subst (λ k. IsSequence c.frames k rest) same r,
            )
      ]

  gather_all-IsStamped :
      (turns : ℕ) (c : CaptureProcessor D) (input : Input D) (now source : ℕ)
      → IsStamped c (now + source)
      → source ≤ input.frame_count
      → input.frame_count ≤ source + turns
      → let (d, bs) = gather_all turns c input now source in
        IsStamped d (now + input.frame_count) × IsSequence c.frames (now + source - c.offset) bs
  unfolding gather_all
  gather_all-IsStamped zero c input now source p below above =
      let e : source ≡ input.frame_count = omega arith in
      (subst (λ k. IsStamped c (now + k)) e p, tt)
  gather_all-IsStamped (suc turns) c input now source p below above =
      elim (Bool-cases (ltb source input.frame_count)) [
        | inr e ↦
            let z : source ≡ input.frame_count = ground arith in
            rw e (subst (λ k. IsStamped c (now + k)) z p, tt)
        | inl e ↦
            let count = turn c input source in
            let (d, bs) = gather c input now source in
            let (f, cs) = gather_all turns d input now (source + count) in
            let lt : source < input.frame_count = ground arith in
            let more : 0 < count = omega (arith, p.0, lt) in
            let (q, r, s) = gather-IsStamped c input now source p lt in
            let (k, l) =
              gather_all-IsStamped turns d input now (source + count) q (omega (arith, lt))
                (omega arith) in
            rw e (k, s cs l)
      ]

  -- A processor's blocks are stamped with the clock's sample at which they begin: if the buffered
  -- samples end at sample `now`, where the input begins, they end where it ends afterwards, and the
  -- blocks posted follow each other without a gap, the first from the first buffered sample on.
  pub process-IsStamped :
      (c : CaptureProcessor D) (input : Input D) (now : ℕ)
      → IsStamped c now
      → let (d, bs) = process c input now in
        IsStamped d (now + input.frame_count) × IsSequence c.frames (now - c.offset) bs
  unfolding process
  process-IsStamped c input now p =
      let z : now + 0 ≡ now = omega arith in
      rw z at
        (gather_all-IsStamped input.frame_count c input now 0 (rw z p) (omega arith) (omega arith))
