-- ===== src/Aac/Wasm.antt =====
-- The WASM encoder in client/scripts/aac-worker.js: `encodeWasm` and `drainWasmPackets`, over the
-- encoder of vendor/mediabunny-aac.js as a parameter.
pub mod Frames
pub mod Drain
pub mod Tests
use vrcstreamer.Common.{
  ℕ, zero, suc, ◌+◌, ◌-◌, ◌*◌, ◌/◌, ◌%◌, ◌^◌, ◌≤◌, ◌<◌, min, max, ◌≡◌, refl, sym, ap, ◌∙◌, ◌≢◌, ◌↔◌,
  ◌⊎◌, inl, inr, Bool, true, false, not, ◌&&◌, ◌||◌, Option, none, some, List, [], ◌∷◌, ◌++◌, map,
  append_assoc, append-nil, arith, ltb, leb, ◌==◌, if◌then◌else◌, Bool-cases, Option-cases, is_some,
  length, get_elem?, get_or, set, take, drop, replicate, All,
}
use vrcstreamer.Common.Int.{ℤ, pos, negsuc}
use vrcstreamer.Wire.{audio_packet}

-- The functions of the encoder over its state: `get_encode_input_ptr` (`none` is the null pointer),
-- `send_frame` of the samples written there with its timestamp (`inr` is the negative code), and
-- `receive_packet` with `get_encoded_pts` and `get_encoded_data`, `none` for no packet.
pub record Codec {ℓ} (S : Type ℓ) : Type ℓ where
  pub get_encode_input : S → ℕ → Option S
  pub send_frame : S → List ℕ → ℕ → S ⊎ ℕ
  pub receive_packet : S → S × Option (ℤ × List ℕ)

-- An encoder holds finitely many packets, and a received one is out.
pub record IsFinite {ℓ} (S : Type ℓ) ⦃c : Codec S⦄ : Type ℓ where
  pub pending : S → ℕ
  pub received :
      (s t : S) (p : ℤ × List ℕ) → c.receive_packet s ≡ (t, some p) → pending t < pending s

pub data EncodeFault : Type 0 where
  not_initialized partial_frame allocation_failed : EncodeFault
  encode_failed : ℕ → EncodeFault

-- Calls of the encoder and posted packets: the buffer, the size and the timestamp.
pub data CodecEvent : Type 0 where
  feeds : List ℕ → ℕ → CodecEvent
  posts : Option (List ℕ) → ℕ → ℕ → CodecEvent

-- `pts >>> 0`.
abbrev pub unsigned : ℤ → ℕ
unsigned (pos n) = n % 2 ^ 32
unsigned (negsuc n) = 2 ^ 32 - 1 - n % 2 ^ 32

-- A received packet; one before time 0 is skipped.
abbrev pub post : ℤ × List ℕ → List CodecEvent
post (pos n, unit) = posts (audio_packet unit (n % 2 ^ 32)) (length unit) (n % 2 ^ 32) ∷ []
post (negsuc n, unit) = []

module _ {ℓ} {S : Type ℓ} ⦃c : Codec S⦄ where
  -- `drainWasmPackets`, on fuel.
  pub drain : ℕ → S → S × List CodecEvent
  drain zero s = (s, [])
  drain (suc fuel) s =
      let r = c.receive_packet s in
      let rest = drain fuel r.0 in
      elim r.1 [ none ↦ (r.0, []) | some p ↦ (rest.0, post p ++ rest.1) ]

  -- One turn of the loop of `encodeWasm`, for the bytes of a frame; a drain has fuel for one more turn
  -- than the encoder holds packets.
  pub feed : (S → ℕ) → ℕ → S → List ℕ → ℕ → S × List CodecEvent × Option EncodeFault
  feed pending input_bytes s chunk timestamp = elim (c.get_encode_input s input_bytes) [
    | none ↦ (s, [], some allocation_failed)
    | some t ↦ elim (c.send_frame t chunk timestamp) [
      | inr code ↦ (t, feeds chunk timestamp ∷ [], some (encode_failed code))
      | inl u ↦ let (v, es) = drain (suc (pending u)) u in (v, feeds chunk timestamp ∷ es, none)
    ]
  ]

  -- An error ends the loop.
  abbrev pub go_on :
      S × List CodecEvent × Option EncodeFault
      → S × List CodecEvent × Option EncodeFault
      → S × List CodecEvent × Option EncodeFault
  go_on (s, es, some fault) rest = (s, es, some fault)
  go_on (s, es, none) (t, fs, fault) = (t, es ++ fs, fault)

  -- The loop, on the bytes from the offset on.
  pub encode_frames :
      (S → ℕ) → ℕ → ℕ → ℕ → S → List ℕ → ℕ → S × List CodecEvent × Option EncodeFault
  encode_frames pending frame_size input_bytes zero s bytes timestamp = (s, [], none)
  encode_frames pending frame_size input_bytes (suc fuel) s [] timestamp = (s, [], none)
  encode_frames pending frame_size input_bytes (suc fuel) s (b ∷ bs) timestamp =
      let r = feed pending input_bytes s (take input_bytes (b ∷ bs)) timestamp in
      let rest =
        encode_frames pending frame_size input_bytes fuel r.0 (drop input_bytes (b ∷ bs))
          (timestamp + frame_size) in
      go_on r rest

  -- `encodeWasm`; `ctx` is the encoder, `none` for 0. A remainder by 0 is not equal to 0.
  pub encode_wasm :
      (S → ℕ) → Option S → ℕ → ℕ → List ℕ → ℕ → Option S × List CodecEvent × Option EncodeFault
  encode_wasm pending none frame_size input_bytes pcm timestamp = (none, [], some not_initialized)
  encode_wasm pending (some s) frame_size input_bytes pcm timestamp =
      let whole = not (input_bytes == 0) && (length pcm % input_bytes == 0) in
      let (t, es, fault) =
        encode_frames pending frame_size input_bytes (length pcm) s pcm timestamp in
      if whole then (some t, es, fault) else (some s, [], some partial_frame)
