-- ===== src/Capture/Blocks.antt =====
-- The blocks that `CaptureProcessor` of audio-worklet.js posts: their samples and their timestamps.
use vrcstreamer.Common.{
  ℕ, zero, suc, ◌+◌, ◌-◌, ◌*◌, ◌≤◌, ◌<◌, min, ◌≡◌, refl, sym, ap, ◌∙◌, inl, inr, true, false, List,
  [], ◌∷◌, ◌++◌, append_assoc, append-nil, arith, ltb, ◌==◌, Bool-cases, length, take,
}
use vrcstreamer.Common.{length-replicate}
use vrcstreamer.Common.Number.{Number}
use vrcstreamer.Capture.{
  CaptureProcessor, Block, Input, copy_samples, zero_sample, gather, gather_all, process,
}
use vrcstreamer.Capture.Copy.{interleaved, length-copy_samples, take-copy_samples}

module _ {ℓ} {D : Type ℓ} where
  -- The samples of the blocks, in order.
  abbrev pub all_samples : List (Block D) → List D
  all_samples [] = []
  all_samples (b ∷ bs) = b.samples ++ all_samples bs

  -- The buffered samples.
  abbrev pub buffered : CaptureProcessor D → List D
  buffered c = take (c.offset * 2) c.pcm

  -- A stereo processor with a buffer of its size that is not full.
  abbrev pub IsProcessor : CaptureProcessor D → Type 0
  IsProcessor c = (c.channels ≡ 2) × (length c.pcm ≡ c.frames * 2) × (c.offset < c.frames)

  all_samples-append :
      (bs cs : List (Block D)) → all_samples (bs ++ cs) ≡ all_samples bs ++ all_samples cs
  all_samples-append [] cs = refl
  all_samples-append (b ∷ bs) cs =
      rw (all_samples-append bs cs) (sym (append_assoc b.samples (all_samples bs) (all_samples cs)))

  take_all : (xs : List D) → take (length xs) xs ≡ xs
  take_all [] = refl
  take_all (x ∷ xs) = ap (◌∷◌ x) (take_all xs)

  -- Two parts of the input after one another.
  chain_samples :
      (bs cs : List (Block D)) (before between after first second : List D)
      → all_samples bs ++ between ≡ before ++ first
      → all_samples cs ++ after ≡ between ++ second
      → all_samples (bs ++ cs) ++ after ≡ before ++ (first ++ second)
  chain_samples bs cs before between after first second e f =
      rw
        (
          all_samples-append bs cs,
          append_assoc (all_samples bs) (all_samples cs) after,
          f,
          sym (append_assoc (all_samples bs) between second),
          e,
        )
        (append_assoc before first second)

module _ {ℓ} {D : Type ℓ} ⦃n : Number D⦄ where
  interleaved-add :
      (input : Input D) (source m k : ℕ)
      → interleaved input source (m + k)
        ≡ interleaved input source m ++ interleaved input (source + m) k
  interleaved-add input source zero k =
      let e : 0 + k ≡ k = omega arith in let f : source + 0 ≡ source = omega arith in rw (e, f) refl
  interleaved-add input source (suc m) k =
      let e : suc m + k ≡ suc (m + k) = omega arith in
      let f : source + suc m ≡ source + 1 + m = omega arith in
      rw (e, f, interleaved-add input (source + 1) m k) refl

  -- How many samples one turn takes.
  abbrev turn : CaptureProcessor D → Input D → ℕ → ℕ
  turn c input source = min (c.frames - c.offset) (input.frame_count - source)

  -- A turn that fills the buffer leaves the buffered samples and the input's in it.
  full_samples :
      (c : CaptureProcessor D) (input : Input D) (source count : ℕ)
      → length c.pcm ≡ c.frames * 2
      → c.offset + count ≡ c.frames
      → copy_samples input 2 c.pcm c.offset source count
        ≡ buffered c ++ interleaved input source count
  full_samples c input source count b e =
      let pcm = copy_samples input 2 c.pcm c.offset source count in
      let key = take-copy_samples input c.pcm c.offset source count (omega (arith, b, e)) in
      let l : (c.offset + count) * 2 ≡ length pcm =
        omega (arith, length-copy_samples input c.pcm c.offset source count, b, e) in
      sym (ap (λ k. take k pcm) l ∙ take_all pcm) ∙ key

  gather-IsProcessor :
      (c : CaptureProcessor D) (input : Input D) (now source : ℕ)
      → IsProcessor c
      → IsProcessor (gather c input now source).0
  unfolding gather
  gather-IsProcessor c input now source (a, b, d) =
      elim (Bool-cases (c.offset + turn c input source == c.frames)) [
        | inl e ↦ rw e (a, rw a (length-replicate (c.frames * 2) zero_sample), omega arith)
        | inr e ↦ rw e (
          a,
          rw a (length-copy_samples input c.pcm c.offset source (turn c input source) ∙ b),
          not_full e,
        )
      ]
    where
      not_full :
          (c.offset + turn c input source == c.frames) ≡ false
          → c.offset + turn c input source < c.frames
      not_full e = ground arith

  gather-samples :
      (c : CaptureProcessor D) (input : Input D) (now source : ℕ)
      → IsProcessor c
      → let (d, bs) = gather c input now source in
        all_samples bs ++ buffered d ≡ buffered c ++ interleaved input source (turn c input source)
  unfolding gather
  gather-samples c input now source (a, b, d) =
      let count = turn c input source in
      elim (Bool-cases (c.offset + count == c.frames)) [
        | inl e ↦
            let pcm = copy_samples input 2 c.pcm c.offset source count in
            rw (e, a)
              (append-nil (pcm ++ [])
                ∙ (append-nil pcm ∙ full_samples c input source count b (full e)))
        | inr e ↦ rw (e, a) (take-copy_samples input c.pcm c.offset source count (omega arith))
      ]
    where
      full :
          (c.offset + turn c input source == c.frames) ≡ true
          → c.offset + turn c input source ≡ c.frames
      full e = ground arith

  -- The loop from `source` on, with a turn for every sample that is left.
  gather_all-samples :
      (turns : ℕ) (c : CaptureProcessor D) (input : Input D) (now source : ℕ)
      → IsProcessor c
      → source ≤ input.frame_count
      → input.frame_count ≤ source + turns
      → let (d, bs) = gather_all turns c input now source in
        IsProcessor d
        × (all_samples bs ++ buffered d
            ≡ buffered c ++ interleaved input source (input.frame_count - source))
  unfolding gather_all
  gather_all-samples zero c input now source p below above =
      let e : input.frame_count - source ≡ 0 = omega arith in
      (p, rw e (sym (append-nil (buffered c))))
  gather_all-samples (suc turns) c input now source p below above =
      elim (Bool-cases (ltb source input.frame_count)) [
        | inr e ↦
            let z : input.frame_count - source ≡ 0 = ground arith in
            rw (e, z) (p, sym (append-nil (buffered c)))
        | inl e ↦
            let count = turn c input source in
            let (d, bs) = gather c input now source in
            let (f, cs) = gather_all turns d input now (source + count) in
            let lt : source < input.frame_count = ground arith in
            let more : 0 < count = omega (arith, p, lt) in
            let (q, k) =
              gather_all-samples turns d input now (source + count)
                (gather-IsProcessor c input now source p) (omega (arith, lt)) (omega arith) in
            let split : input.frame_count - source
                ≡ count + (input.frame_count - (source + count)) =
              omega (arith, lt) in
            let i1 = interleaved input source count in
            let i2 = interleaved input (source + count) (input.frame_count - (source + count)) in
            let joined : interleaved input source (input.frame_count - source) ≡ i1 ++ i2 =
              ap (interleaved input source) split
              ∙ interleaved-add input source count (input.frame_count - (source + count)) in
            rw e (
              q,
              chain_samples bs cs (buffered c) (buffered d) (buffered f) i1 i2
                    (gather-samples c input now source p) k
                  ∙ ap (λ k. buffered c ++ k) (sym joined),
            )
      ]

  -- No sample is lost, repeated or reordered: for a stereo processor, the samples of the blocks that a
  -- call of `process` posts, and then those it leaves buffered, are the samples buffered before and
  -- then the input's, clamped and interleaved; and the buffer is again not full.
  pub process-samples :
      (c : CaptureProcessor D) (input : Input D) (now : ℕ)
      → IsProcessor c
      → let (d, bs) = process c input now in
        IsProcessor d
        × (all_samples bs ++ buffered d ≡ buffered c ++ interleaved input 0 input.frame_count)
  unfolding process
  process-samples c input now p =
      let z : input.frame_count - 0 ≡ input.frame_count = omega arith in
      rw z at (gather_all-samples input.frame_count c input now 0 p (omega arith) (omega arith))
