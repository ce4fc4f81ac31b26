-- ===== src/Aac/Wasm/Frames.antt =====
-- The frames that `encodeWasm` of client/scripts/aac-worker.js gives the encoder.
use vrcstreamer.Common.{
  ℕ, zero, suc, ◌+◌, ◌*◌, ◌%◌, ◌≤◌, ◌<◌, ◌≡◌, refl, sym, ap, ◌∙◌, ◌⊎◌, inl, inr, true, not, ◌&&◌,
  Option, none, some, List, [], ◌∷◌, ◌++◌, arith, ◌==◌, length, take, drop,
}
use vrcstreamer.Common.{length-drop, take-append-drop}
use vrcstreamer.Common.Int.{ℤ, pos, negsuc}
use native.Mathlib.Nat.{mul-mod_left}
use vrcstreamer.Aac.Wasm.{
  feed, go_on, Codec, EncodeFault, allocation_failed, encode_failed, CodecEvent, feeds, posts, post,
  drain, encode_frames, encode_wasm,
}

-- What the encoder was given, in order: the bytes with their timestamp.
abbrev pub fed : List CodecEvent → List (List ℕ × ℕ)
fed [] = []
fed (feeds chunk timestamp ∷ es) = (chunk, timestamp) ∷ fed es
fed (posts packet size timestamp ∷ es) = fed es

-- The first `n` frames of the bytes.
abbrev pub frames : ℕ → ℕ → ℕ → List ℕ → ℕ → List (List ℕ × ℕ)
frames frame_size input_bytes zero bytes timestamp = []
frames frame_size input_bytes (suc n) bytes timestamp =
    (take input_bytes bytes, timestamp)
    ∷ frames frame_size input_bytes n (drop input_bytes bytes) (timestamp + frame_size)

abbrev pub bytes_of : List (List ℕ × ℕ) → List ℕ
bytes_of [] = []
bytes_of ((chunk, timestamp) ∷ rest) = chunk ++ bytes_of rest

fed-append : (es fs : List CodecEvent) → fed (es ++ fs) ≡ fed es ++ fed fs
fed-append [] fs = refl
fed-append (feeds chunk timestamp ∷ es) fs = ap (◌∷◌ (chunk, timestamp)) (fed-append es fs)
fed-append (posts packet size timestamp ∷ es) fs = fed-append es fs

fed-post : (p : ℤ × List ℕ) → fed (post p) ≡ []
fed-post (pos n, unit) = refl
fed-post (negsuc n, unit) = refl

nil_of_length : (xs : List ℕ) → length xs ≡ 0 → xs ≡ []
nil_of_length [] h = refl
nil_of_length (x ∷ xs) h = absurd (omega arith)

bytes_of-frames :
    (frame_size input_bytes n : ℕ) (bytes : List ℕ) (timestamp : ℕ)
    → length bytes ≡ n * input_bytes
    → bytes_of (frames frame_size input_bytes n bytes timestamp) ≡ bytes
bytes_of-frames frame_size input_bytes zero bytes timestamp h =
    sym (nil_of_length bytes (omega arith))
bytes_of-frames frame_size input_bytes (suc n) bytes timestamp h =
    let rest : length (drop input_bytes bytes) ≡ n * input_bytes =
      omega (arith, h, length-drop input_bytes bytes) in
    rw
      (bytes_of-frames frame_size input_bytes n (drop input_bytes bytes) (timestamp + frame_size)
        rest)
      (take-append-drop input_bytes bytes)

all_fed :
    (frame : List ℕ × ℕ) (l : List (List ℕ × ℕ)) → l ≡ frame ∷ [] → l ≡ take (length l) (frame ∷ [])
all_fed frame l e = rw e refl

one_fed :
    (frame : List ℕ × ℕ) (all l : List (List ℕ × ℕ))
    → l ≡ take (length l) (frame ∷ [])
    → l ≡ take (length l) (frame ∷ all)
one_fed frame all [] h = refl
one_fed frame all (a ∷ []) h = h
one_fed frame all (a ∷ b ∷ t) h = absurd (omega (arith, ap length h))

is_whole :
    (size n input_bytes : ℕ)
    → 0 < input_bytes
    → size ≡ n * input_bytes
    → (not (input_bytes == 0) && (size % input_bytes == 0)) ≡ true
is_whole size n input_bytes h k =
    let e : size % input_bytes ≡ 0 = ap (λ m. m % input_bytes) k ∙ mul-mod_left n input_bytes in
    ground (arith, h, e)

le_mul : (n m size : ℕ) → 0 < m → size ≡ n * m → n ≤ size
le_mul n zero size h k = absurd (omega arith)
le_mul n (suc m) size h k = omega (arith, k)

module _ {ℓ} {S : Type ℓ} ⦃c : Codec S⦄ where
  abbrev turn : ℕ → S × Option (ℤ × List ℕ) → S × List CodecEvent
  turn fuel r =
      let rest = drain fuel r.0 in
      elim r.1 [ none ↦ (r.0, []) | some p ↦ (rest.0, post p ++ rest.1) ]

  fed-drain : (fuel : ℕ) (s : S) → fed (drain fuel s).1 ≡ []
  unfolding drain
  fed-drain zero s = refl
  fed-drain (suc fuel) s = by_received (c.receive_packet s) (λ t. fed-drain fuel t)
    where
      by_received :
          (r : S × Option (ℤ × List ℕ))
          → ((t : S) → fed (drain fuel t).1 ≡ [])
          → fed (turn fuel r).1 ≡ []
      by_received (t, none) later = refl
      by_received (t, some p) later =
          rw (fed-append (post p) (drain fuel t).1, fed-post p) (later t)

  -- The frames are given in order from the first, and all of them where there is no error.
  abbrev pub IsFed : List (List ℕ × ℕ) → S × List CodecEvent × Option EncodeFault → Type 0
  IsFed all (t, es, fault) = (fed es ≡ take (length (fed es)) all) × (fault ≡ none → fed es ≡ all)

  -- What follows `send_frame`.
  abbrev after_send : (S → ℕ) → List ℕ → ℕ → S → S ⊎ ℕ → S × List CodecEvent × Option EncodeFault
  after_send pending chunk timestamp t r = elim r [
    | inr code ↦ (t, feeds chunk timestamp ∷ [], some (encode_failed code))
    | inl u ↦ let (v, es) = drain (suc (pending u)) u in (v, feeds chunk timestamp ∷ es, none)
  ]

  feed-IsFed :
      (pending : S → ℕ) (input_bytes : ℕ) (s : S) (chunk : List ℕ) (timestamp : ℕ)
      → IsFed ((chunk, timestamp) ∷ []) (feed pending input_bytes s chunk timestamp)
  unfolding feed
  feed-IsFed pending input_bytes s chunk timestamp = by_input (c.get_encode_input s input_bytes)
    where
      by_sent :
          (t : S) (r : S ⊎ ℕ)
          → IsFed ((chunk, timestamp) ∷ []) (after_send pending chunk timestamp t r)
      by_sent t (inr code) = (refl, λ e. absurd (cc e))
      by_sent t (inl u) =
          let e : fed (feeds chunk timestamp ∷ (drain (suc (pending u)) u).1)
              ≡ (chunk, timestamp) ∷ [] =
            ap (◌∷◌ (chunk, timestamp)) (fed-drain (suc (pending u)) u) in
          (
            all_fed (chunk, timestamp) (fed (after_send pending chunk timestamp t (inl u)).1) e,
            λ f. e,
          )

      by_input :
          (o : Option S)
          → IsFed
              ((chunk, timestamp) ∷ [])
              (elim o as (λ k. S × List CodecEvent × Option EncodeFault) [
                | none ↦ (s, [], some allocation_failed)
                | some t ↦ after_send pending chunk timestamp t (c.send_frame t chunk timestamp)
              ])
      by_input none = (refl, λ e. absurd (cc e))
      by_input (some t) = by_sent t (c.send_frame t chunk timestamp)

  go_on-IsFed :
      (frame : List ℕ × ℕ) (all : List (List ℕ × ℕ))
      (r rest : S × List CodecEvent × Option EncodeFault)
      → IsFed (frame ∷ []) r
      → IsFed all rest
      → IsFed (frame ∷ all) (go_on r rest)
  go_on-IsFed frame all (s, es, some fault) rest (x, y) h =
      (one_fed frame all (fed es) x, λ f. absurd (cc f))
  go_on-IsFed frame all (s, es, none) (t, fs, fault) (x, y) (p, q) =
      let e : fed (es ++ fs) ≡ frame ∷ fed fs = fed-append es fs ∙ ap (λ k. k ++ fed fs) (y refl) in
      rw e (ap (◌∷◌ frame) p, λ f. ap (◌∷◌ frame) (q f))

  encode_frames-IsFed :
      (pending : S → ℕ) (frame_size input_bytes n fuel : ℕ) (s : S) (bytes : List ℕ) (timestamp : ℕ)
      → 0 < input_bytes
      → length bytes ≡ n * input_bytes
      → n ≤ fuel
      → IsFed
          (frames frame_size input_bytes n bytes timestamp)
          (encode_frames pending frame_size input_bytes fuel s bytes timestamp)
  unfolding encode_frames
  encode_frames-IsFed pending frame_size input_bytes zero zero s bytes timestamp h k m =
      (refl, λ e. refl)
  encode_frames-IsFed pending frame_size input_bytes zero (suc fuel) s [] timestamp h k m =
      (refl, λ e. refl)
  encode_frames-IsFed pending frame_size input_bytes zero (suc fuel) s (b ∷ bs) timestamp h k m =
      absurd (omega arith)
  encode_frames-IsFed pending frame_size input_bytes (suc n) zero s bytes timestamp h k m =
      absurd (omega arith)
  encode_frames-IsFed pending frame_size input_bytes (suc n) (suc fuel) s [] timestamp h k m =
      absurd (omega arith)
  encode_frames-IsFed pending frame_size input_bytes (suc n) (suc fuel) s (b ∷ bs) timestamp h k m =
      let r = feed pending input_bytes s (take input_bytes (b ∷ bs)) timestamp in
      let rest : length (drop input_bytes (b ∷ bs)) ≡ n * input_bytes =
        omega (arith, k, length-drop input_bytes (b ∷ bs)) in
      go_on-IsFed (take input_bytes (b ∷ bs), timestamp)
        (frames frame_size input_bytes n (drop input_bytes (b ∷ bs)) (timestamp + frame_size)) r
        (encode_frames pending frame_size input_bytes fuel r.0 (drop input_bytes (b ∷ bs))
          (timestamp + frame_size))
        (feed-IsFed pending input_bytes s (take input_bytes (b ∷ bs)) timestamp)
        (encode_frames-IsFed pending frame_size input_bytes n fuel r.0 (drop input_bytes (b ∷ bs))
          (timestamp + frame_size) h rest (omega (arith, m)))

  -- For bytes that are `n` frames long, and every encoder that is there: the encoder is given the
  -- frames of the bytes, in order from the first, each with the timestamp of its first sample,
  -- up to the first error; without an error it is given all of them. Together they are the bytes.
  pub encode_wasm-IsFed :
      (pending : S → ℕ) (s : S) (frame_size input_bytes n : ℕ) (pcm : List ℕ) (timestamp : ℕ)
      → 0 < input_bytes
      → length pcm ≡ n * input_bytes
      → let all = frames frame_size input_bytes n pcm timestamp in
        let (t, es, fault) = encode_wasm pending (some s) frame_size input_bytes pcm timestamp in
        (fed es ≡ take (length (fed es)) all) × (fault ≡ none → fed es ≡ all) × (bytes_of all ≡ pcm)
  unfolding encode_wasm
  encode_wasm-IsFed pending s frame_size input_bytes n pcm timestamp h k =
      let whole : (not (input_bytes == 0) && (length pcm % input_bytes == 0)) ≡ true =
        is_whole (length pcm) n input_bytes h k in
      let fuel : n ≤ length pcm = le_mul n input_bytes (length pcm) h k in
      let (x, y) =
        encode_frames-IsFed pending frame_size input_bytes n (length pcm) s pcm timestamp h k
          fuel in
      rw whole (x, y, bytes_of-frames frame_size input_bytes n pcm timestamp k)
