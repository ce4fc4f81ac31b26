-- ===== src/Capture/Tests.antt =====
-- Two calls of `CaptureProcessor.process` of audio-worklet.js, with blocks of four frames.
use vrcstreamer.Common.{◌-◌, ◌≡◌, refl, some, List, [], ◌∷◌, ◌++◌, arith}
use vrcstreamer.Common.Int.{ℤ, pos, negsuc}
use vrcstreamer.Common.Decimal.{decimal_number}
use vrcstreamer.Capture.{
  CaptureProcessor, Block, Input, created, process, gather, gather_all, copy_samples, left_sample,
  right_sample, clamp,
}
use vrcstreamer.Capture.Blocks.{all_samples, buffered, IsProcessor, process-samples}
use vrcstreamer.Capture.Stamps.{IsStamped, IsSequence, process-IsStamped}
use vrcstreamer.Capture.Copy.{interleaved}

-- Six samples; the second channel is the first.
abbrev input : Input ℤ
input = record {
  left_in = some (pos 100 ∷ pos 200 ∷ pos 300 ∷ pos 1400 ∷ negsuc 1999 ∷ pos 500 ∷ []);
  right_in = some (pos 100 ∷ pos 200 ∷ pos 300 ∷ pos 1400 ∷ negsuc 1999 ∷ pos 500 ∷ []);
  frame_count = 6;
}

abbrev first : CaptureProcessor ℤ × List (Block ℤ)
first = process (created 4 2) input 1000

posted :
    all_samples first.1
    ≡ pos 100 ∷ pos 100 ∷ pos 200 ∷ pos 200 ∷ pos 300 ∷ pos 300 ∷ pos 1000 ∷ pos 1000 ∷ []
unfolding process gather_all gather copy_samples left_sample right_sample clamp created
posted = refl

left_over : buffered first.0 ≡ negsuc 999 ∷ negsuc 999 ∷ pos 500 ∷ pos 500 ∷ []
unfolding process gather_all gather copy_samples left_sample right_sample clamp created
left_over = refl

created-IsProcessor : IsProcessor (created {D = ℤ} 4 2)
unfolding created
created-IsProcessor = (refl, refl, omega arith)

process-samples_example :
    IsProcessor (process first.0 input 1006).0
    × (all_samples (process first.0 input 1006).1 ++ buffered (process first.0 input 1006).0
        ≡ buffered first.0 ++ interleaved input 0 6)
process-samples_example =
    process-samples first.0 input 1006
      (process-samples (created 4 2) input 1000 created-IsProcessor).0

first-IsStamped : IsStamped first.0 1006
unfolding process gather_all gather created
first-IsStamped = (omega arith, omega arith, λ z. refl)

process-IsStamped_example :
    IsStamped (process first.0 input 1006).0 1012
    × IsSequence first.0.frames (1006 - first.0.offset) (process first.0 input 1006).1
process-IsStamped_example = process-IsStamped first.0 input 1006 first-IsStamped
