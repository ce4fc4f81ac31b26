-- ===== src/Publisher/EncoderSwap/Tests.antt =====
-- A change of the AAC encoder of streamer.js in the midst of a stream.
use vrcstreamer.Common.{ℕ, ◌*◌, ◌≡◌, refl, true, false, none, some, List, [], ◌∷◌, ◌++◌, map}
use vrcstreamer.Publisher.EncoderSwap.{
  Session, Block, Swap, closes_encoder, swaps, encode_all, Call, captures, completes, run,
  complete_swap,
}
use vrcstreamer.Publisher.EncoderSwap.Clock.{readings, IsRising, run-IsRising}
use vrcstreamer.Publisher.EncoderSwap.Order.{latest, capture_of, complete_swap-latest}

abbrev empty_swap : Swap
empty_swap = record { encoder = 2; mode_key = 7; buffers = [] }

abbrev swapping : Session
swapping = record {
  encoder = 1;
  encoder_mode_key = 6;
  audio_clock_samples = 0;
  swap = some empty_swap;
  preparing = none;
}

abbrev block : ℕ → Block
block i = record { buffer = i; timestamp_samples = i * 1024 }

-- One block more than is kept.
abbrev blocks : List Block
blocks = block 1 ∷ block 2 ∷ block 3 ∷ block 4 ∷ block 5 ∷ block 6 ∷ block 7 ∷ []

complete_swap-latest_example :
    let (u, es) = complete_swap (run swapping (map capture_of blocks)).0 true 2 true in
    (u.encoder ≡ 2)
    × (u.swap ≡ none)
    × (es ≡ closes_encoder 1 ∷ (encode_all 2 (latest blocks) ++ (swaps ∷ [])))
complete_swap-latest_example = complete_swap-latest swapping empty_swap blocks refl refl

-- An old timestamp among them raises no clock.
abbrev calls : List Call
calls =
    captures true 1 (some 1024) false
    ∷ captures true 2 (some 0) true
    ∷ captures true 3 (some 2048) false
    ∷ completes true 2 true
    ∷ captures true 4 (some 3072) false
    ∷ []

run-IsRising_example : IsRising 0 (readings (run swapping calls).1)
run-IsRising_example = run-IsRising swapping calls
