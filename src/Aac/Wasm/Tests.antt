-- ===== src/Aac/Wasm/Tests.antt =====
-- The WASM encoder's part of aac-worker.js with a concrete encoder that gives its input back, packet
-- by packet.
use vrcstreamer.Common.{
  ℕ, ◌<◌, ◌≡◌, refl, ap, inl, Option, none, some, List, [], ◌∷◌, ◌++◌, arith, length, take,
}
use vrcstreamer.Common.Int.{ℤ, pos, negsuc}
use vrcstreamer.Aac.Wasm.{Codec, IsFinite, feed, drain, encode_frames, encode_wasm}
use vrcstreamer.Aac.Wasm.Drain.{Receives, due, ArePosted, drain-Receives}
use vrcstreamer.Aac.Wasm.Frames.{fed, frames, bytes_of, encode_wasm-IsFed}

abbrev pcm : List ℕ
pcm = 1 ∷ 2 ∷ 3 ∷ 4 ∷ 5 ∷ 6 ∷ 7 ∷ 8 ∷ []

abbrev pub Packets : Type 0
Packets = List (ℤ × List ℕ)

abbrev pub receive : Packets → Packets × Option (ℤ × List ℕ)
receive [] = ([], none)
receive (p ∷ ps) = (ps, some p)

instance abbrev pub echo : Codec Packets
echo = record {
  get_encode_input = λ s n. some s;
  send_frame = λ s bytes timestamp. inl (s ++ ((pos timestamp, bytes) ∷ []));
  receive_packet = receive;
}

received_less : (s t : Packets) (p : ℤ × List ℕ) → receive s ≡ (t, some p) → length t < length s
received_less [] t p h = absurd (cc h)
received_less (q ∷ ps) t p h = let e : ps ≡ t = ap (λ r. r.0) h in omega (arith, ap length e)

pub echo-IsFinite : IsFinite Packets
echo-IsFinite = record { pending = length; received = received_less }

abbrev size : Packets → ℕ
size = length

pcm_fed :
    fed (encode_wasm size (some []) 2 4 pcm 100).1
    ≡ (1 ∷ 2 ∷ 3 ∷ 4 ∷ [], 100) ∷ (5 ∷ 6 ∷ 7 ∷ 8 ∷ [], 102) ∷ []
unfolding encode_wasm encode_frames feed drain
pcm_fed = refl

encode_wasm-IsFed_example :
    let all = frames 2 4 2 pcm 100 in
    let (t, es, fault) = encode_wasm size (some []) 2 4 pcm 100 in
    (fed es ≡ take (length (fed es)) all) × (fault ≡ none → fed es ≡ all) × (bytes_of all ≡ pcm)
encode_wasm-IsFed_example = encode_wasm-IsFed size [] 2 4 2 pcm 100 (omega arith) refl

abbrev held : Packets
held = (pos 7, 1 ∷ []) ∷ (negsuc 2, 2 ∷ []) ∷ (pos 9, []) ∷ []

drain-Receives_example :
    (ps : Packets) × (Receives held ps (drain 4 held).0 × ArePosted (drain 4 held).1 (due ps))
unfolding echo-IsFinite
drain-Receives_example = drain-Receives echo-IsFinite 4 held (omega arith)
