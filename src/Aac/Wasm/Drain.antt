-- ===== src/Aac/Wasm/Drain.antt =====
-- The loop of `drainWasmPackets` in client/scripts/aac-worker.js.
use vrcstreamer.Common.{
  ℕ, zero, suc, ◌<◌, ◌%◌, ◌^◌, length, ◌≡◌, refl, Option, none, some, List, [], ◌∷◌, ◌++◌, arith,
  is_some,
}
use vrcstreamer.Common.Int.{ℤ, pos, negsuc}
use vrcstreamer.Aac.Wasm.{encode_wasm, Codec, IsFinite, CodecEvent, feeds, posts, post, drain}
use vrcstreamer.Wire.{audio_packet}

-- The messages due for the packets that are not before time 0: the media packet of the access unit, the
-- unit's size, and the timestamp in 32 bits.
abbrev pub due : List (ℤ × List ℕ) → List (Option (List ℕ) × ℕ × ℕ)
due [] = []
due ((pos n, unit) ∷ ps) = (audio_packet unit (n % 2 ^ 32), length unit, n % 2 ^ 32) ∷ due ps
due ((negsuc n, unit) ∷ ps) = due ps

-- What is posted, message by message; nothing else happens.
abbrev pub ArePosted : List CodecEvent → List (Option (List ℕ) × ℕ × ℕ) → Type 0
ArePosted [] [] = Unit
ArePosted [] (m ∷ ms) = ⊥
ArePosted (feeds bytes timestamp ∷ es) ms = ⊥
ArePosted (posts packet size timestamp ∷ es) [] = ⊥
ArePosted (posts packet size timestamp ∷ es) (m ∷ ms) =
    (packet ≡ m.0) × (size ≡ m.1) × (timestamp ≡ m.2) × ArePosted es ms

post-ArePosted :
    (p : ℤ × List ℕ) (ps : List (ℤ × List ℕ)) (es : List CodecEvent)
    → ArePosted es (due ps)
    → ArePosted (post p ++ es) (due (p ∷ ps))
post-ArePosted (pos n, unit) ps es h = (refl, refl, refl, h)
post-ArePosted (negsuc n, unit) ps es h = h

module _ {ℓ} {S : Type ℓ} ⦃c : Codec S⦄ where
  -- From `s` the encoder gives the packets `ps`, one after the other, then none, and is left at `t`.
  abbrev pub Receives : S → List (ℤ × List ℕ) → S → Type ℓ
  Receives s [] t = c.receive_packet s ≡ (t, none)
  Receives s (p ∷ ps) t = (u : S) × (c.receive_packet s ≡ (u, some p)) × Receives u ps t

  -- What a turn does with what it has received.
  abbrev turn : ℕ → S × Option (ℤ × List ℕ) → S × List CodecEvent
  turn fuel r =
      let rest = drain fuel r.0 in
      elim r.1 [ none ↦ (r.0, []) | some p ↦ (rest.0, post p ++ rest.1) ]

  -- For every encoder that holds finitely many packets: with fuel for one more turn than it holds
  -- packets, `drainWasmPackets` takes packets out until there is none, and posts exactly
  -- those with a timestamp that is not negative, in order, each with its bytes, its size and
  -- its timestamp in 32 bits.
  pub drain-Receives :
      (h : IsFinite S) (fuel : ℕ) (s : S)
      → h.pending s < fuel
      → (ps : List (ℤ × List ℕ)) × (Receives s ps (drain fuel s).0
          × ArePosted (drain fuel s).1 (due ps))
  unfolding drain
  drain-Receives h zero s k = absurd (omega arith)
  drain-Receives h (suc fuel) s k =
      by_received (c.receive_packet s) refl (λ u m. drain-Receives h fuel u m)
    where
      by_received :
          (r : S × Option (ℤ × List ℕ))
          → c.receive_packet s ≡ r
          → ((u : S)
              → h.pending u < fuel
              → (ps : List (ℤ × List ℕ)) × (Receives u ps (drain fuel u).0
                  × ArePosted (drain fuel u).1 (due ps)))
          → (ps : List (ℤ × List ℕ)) × (Receives s ps (turn fuel r).0
              × ArePosted (turn fuel r).1 (due ps))
      by_received (t, none) e later = ([], (e, tt))
      by_received (t, some p) e later =
          let (ps, (x, y)) = later t (omega (arith, k, h.received s t p e)) in
          (p ∷ ps, ((t, e, x), post-ArePosted p ps (drain fuel t).1 y))

  -- `encodeWasm` leaves the encoder where it is.
  pub encode_wasm_ctx :
      (pending : S → ℕ) (ctx : Option S) (frame_size input_bytes : ℕ) (pcm : List ℕ) (timestamp : ℕ)
      → is_some (encode_wasm pending ctx frame_size input_bytes pcm timestamp).0 ≡ is_some ctx
  unfolding encode_wasm
  encode_wasm_ctx pending none frame_size input_bytes pcm timestamp = refl
  encode_wasm_ctx pending (some s) frame_size input_bytes pcm timestamp = ground arith
