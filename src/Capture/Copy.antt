-- ===== src/Capture/Copy.antt =====
-- What the inner loop of `CaptureProcessor.process` of audio-worklet.js writes, for two channels.
use vrcstreamer.Common.{
  ℕ, zero, suc, ◌+◌, ◌*◌, ◌≤◌, ◌<◌, ◌≡◌, refl, sym, ap, List, [], ◌∷◌, ◌++◌, append_assoc,
  append-nil, arith, length, set, take,
}
use vrcstreamer.Common.{length-set}
use vrcstreamer.Common.Number.{Number}
use vrcstreamer.Capture.{Input, left_sample, right_sample, copy_samples}

module _ {ℓ} {D : Type ℓ} where
  take-set_end :
      (xs : List D) (i : ℕ) (a : D)
      → i < length xs
      → take (suc i) (set xs i a) ≡ take i xs ++ (a ∷ [])
  take-set_end [] i a h = absurd (omega arith)
  take-set_end (x ∷ xs) zero a h = refl
  take-set_end (x ∷ xs) (suc i) a h = ap (◌∷◌ x) (take-set_end xs i a (omega arith))

  take-set : (xs : List D) (i : ℕ) (a : D) → take i (set xs i a) ≡ take i xs
  take-set [] i a = refl
  take-set (x ∷ xs) zero a = refl
  take-set (x ∷ xs) (suc i) a = ap (◌∷◌ x) (take-set xs i a)

  -- Two values written behind the first `i` elements.
  take-set_two :
      (xs : List D) (i : ℕ) (a b : D)
      → suc i < length xs
      → take (suc (suc i)) (set (set xs i a) (suc i) b) ≡ take i xs ++ (a ∷ b ∷ [])
  take-set_two xs i a b h =
      let ys = set xs i a in
      let e = take-set_end ys (suc i) b (omega (arith, length-set xs i a)) in
      rw (e, take-set_end xs i a (omega arith)) (append_assoc (take i xs) (a ∷ []) (b ∷ []))

module _ {ℓ} {D : Type ℓ} ⦃n : Number D⦄ where
  -- `count` frames of the input from `source` on, interleaved.
  abbrev pub interleaved : Input D → ℕ → ℕ → List D
  interleaved input source zero = []
  interleaved input source (suc count) =
      left_sample input source ∷ right_sample input source ∷ interleaved input (source + 1) count

  pub length-copy_samples :
      (input : Input D) (pcm : List D) (frame source count : ℕ)
      → length (copy_samples input 2 pcm frame source count) ≡ length pcm
  unfolding copy_samples
  length-copy_samples input pcm frame source zero = refl
  length-copy_samples input pcm frame source (suc count) =
      let once = set pcm (frame * 2) (left_sample input source) in
      let twice = set once (frame * 2 + 1) (right_sample input source) in
      omega (
        arith,
        length-copy_samples input twice (frame + 1) (source + 1) count,
        length-set once (frame * 2 + 1) (right_sample input source),
        length-set pcm (frame * 2) (left_sample input source),
      )

  -- Behind the frames that stood in the buffer now stand the input's.
  pub take-copy_samples :
      (input : Input D) (pcm : List D) (frame source count : ℕ)
      → (frame + count) * 2 ≤ length pcm
      → take ((frame + count) * 2) (copy_samples input 2 pcm frame source count)
        ≡ take (frame * 2) pcm ++ interleaved input source count
  unfolding copy_samples
  take-copy_samples input pcm frame source zero h =
      let e : frame + 0 ≡ frame = omega arith in rw e (sym (append-nil (take (frame * 2) pcm)))
  take-copy_samples input pcm frame source (suc count) h =
      let a = left_sample input source in
      let b = right_sample input source in
      let once = set pcm (frame * 2) a in
      let twice = set once (frame * 2 + 1) b in
      let e : frame + suc count ≡ frame + 1 + count = omega arith in
      let s : frame * 2 + 1 ≡ suc (frame * 2) = omega arith in
      let t : (frame + 1) * 2 ≡ suc (suc (frame * 2)) = omega arith in
      let two : take ((frame + 1) * 2) twice ≡ take (frame * 2) pcm ++ (a ∷ b ∷ []) =
        rw (t, s) (take-set_two pcm (frame * 2) a b (omega arith)) in
      let rest =
        take-copy_samples input twice (frame + 1) (source + 1) count
          (omega (arith, length-set once (frame * 2 + 1) b, length-set pcm (frame * 2) a)) in
      rw (e, rest, two)
        (append_assoc (take (frame * 2) pcm) (a ∷ b ∷ []) (interleaved input (source + 1) count))
