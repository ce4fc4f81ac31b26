-- ===== src/Aac/Worker/Tests.antt =====
-- The messages of aac-worker.js on a concrete history.
use vrcstreamer.Common.{ℕ, ◌≡◌, true, none, some, List, [], ◌∷◌, length}
use vrcstreamer.Aac.Config.{refused}
use vrcstreamer.Aac.Wasm.Tests.{Packets, echo}
use vrcstreamer.Aac.Worker.{
  no_mode, AacWorker, Init, Call, inits, selects, loads, encodes, flushes, run,
}
use vrcstreamer.Aac.Worker.Replies.{answers, due_all, answers-run}

abbrev size : Packets → ℕ
size = length

abbrev fresh : AacWorker Packets
fresh = record {
  mode = no_mode;
  sample_rate = 48000;
  channels = 2;
  bitrate = 320000;
  expected_aac_config_hex = 49 ∷ 49 ∷ 57 ∷ 48 ∷ [];
  native_aac_bitrates = 320000 ∷ [];
  native_encoder = none;
  native_hex = [];
  native_s16_scratch = none;
  ctx = none;
  frame_size = 0;
  input_bytes_per_frame = 0;
}

abbrev setup : Init
setup = record {
  sample_rate = 48000;
  channels = 1;
  bitrate = 192000;
  expected_aac_config_hex = [];
  native_aac_bitrates = none;
  prefer_native = none;
  allow_wasm_fallback = none;
}

-- No native encoder; the other one takes frames of one sample, and is closed at the end.
abbrev history : List (Call Packets)
history =
    inits setup
    ∷ encodes [] [] (some 0) true 0
    ∷ selects setup (refused []) 0 true
    ∷ loads [] (some ([], 1, 17 ∷ 144 ∷ []))
    ∷ encodes (1 ∷ 2 ∷ 3 ∷ 4 ∷ []) [] (some 5) true 0
    ∷ encodes (1 ∷ 2 ∷ []) [] (some 6) true 0
    ∷ flushes true
    ∷ []

answers_of_history : answers (run size fresh history).1 ≡ 5
answers_of_history = answers-run size fresh history

answers-run_example : answers (run size fresh history).1 ≡ due_all history
answers-run_example = answers-run size fresh history
