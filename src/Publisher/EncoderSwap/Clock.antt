-- ===== src/Publisher/EncoderSwap/Clock.antt =====
-- The audio clock that `encodeAudioBlock` of streamer.js passes to the video worker.
use vrcstreamer.Common.{
  ℕ, ◌+◌, ◌<◌, ◌≡◌, refl, ap, ◌∙◌, ◌⊎◌, inl, inr, Bool, true, false, Option, none, some, List, [],
  ◌∷◌, ◌++◌, arith, ltb, Bool-cases,
}
use vrcstreamer.Publisher.EncoderSwap.{
  Session, Block, Swap, Event, encodes, drops, closes_encoder, syncs, swaps, refuses, fails,
  Outcome, push_block, sync_clock, route, encode_audio_block, encode_all, prepare_swap, start_swap,
  abandon_swap, complete_swap, Call, captures, prepares, starts, completes, step, run,
}

-- The clock readings passed on, in order.
abbrev pub readings : List Event → List ℕ
readings [] = []
readings (encodes e b ∷ es) = readings es
readings (drops e ∷ es) = readings es
readings (closes_encoder e ∷ es) = readings es
readings (syncs samples ∷ es) = samples ∷ readings es
readings (swaps ∷ es) = readings es
readings (refuses ∷ es) = readings es
readings (fails ∷ es) = readings es

-- Each above the one before, the first above `last`.
abbrev pub IsRising : ℕ → List ℕ → Type 0
IsRising last [] = Unit
IsRising last (x ∷ xs) = (last < x) × IsRising x xs

readings-append : (es fs : List Event) → readings (es ++ fs) ≡ readings es ++ readings fs
readings-append [] fs = refl
readings-append (encodes e b ∷ es) fs = readings-append es fs
readings-append (drops e ∷ es) fs = readings-append es fs
readings-append (closes_encoder e ∷ es) fs = readings-append es fs
readings-append (syncs samples ∷ es) fs = ap (◌∷◌ samples) (readings-append es fs)
readings-append (swaps ∷ es) fs = readings-append es fs
readings-append (refuses ∷ es) fs = readings-append es fs
readings-append (fails ∷ es) fs = readings-append es fs

readings-encode_all : (e : ℕ) (bs : List Block) → readings (encode_all e bs) ≡ []
readings-encode_all e [] = refl
readings-encode_all e (b ∷ bs) = readings-encode_all e bs

-- A call passes on nothing and leaves the clock, or passes on the clock that it raises.
abbrev Raises : Session → Outcome → Type 0
Raises s (u, es) =
    ((readings es ≡ []) × (u.audio_clock_samples ≡ s.audio_clock_samples))
    ⊎ ((readings es ≡ u.audio_clock_samples ∷ []) × (s.audio_clock_samples < u.audio_clock_samples))

sync_clock-Raises : (s : Session) (b : Block) → Raises s (sync_clock s b)
unfolding sync_clock
sync_clock-Raises s b = elim (Bool-cases (ltb s.audio_clock_samples (b.timestamp_samples + 1024))) [
  | inl e ↦ rw e (inr (refl, ground arith))
  | inr e ↦ rw e (inl (refl, refl))
]

route-Raises :
    (s : Session) (b : Block) (stale : Bool)
    → let (u, es) = route s b stale in
      (readings es ≡ []) × (u.audio_clock_samples ≡ s.audio_clock_samples)
unfolding route push_block
route-Raises s b stale = ground arith

encode_audio_block-Raises :
    (s : Session) (active : Bool) (buffer : ℕ) (t : Option ℕ) (stale : Bool)
    → Raises s (encode_audio_block s active buffer t stale)
unfolding encode_audio_block
encode_audio_block-Raises s active buffer none stale = inl (refl, refl)
encode_audio_block-Raises s false buffer (some t) stale = inl (refl, refl)
encode_audio_block-Raises s true buffer (some t) stale =
    let b : Block = record { buffer = buffer; timestamp_samples = t } in
    let (u, es) = sync_clock s b in
    let (v, fs) = route u b stale in
    let (quiet, same) = route-Raises u b stale in
    elim (sync_clock-Raises s b) [
      | inl (x, y) ↦ inl (rw (readings-append es fs, x) quiet, same ∙ y)
      | inr (x, y) ↦ inr (rw (readings-append es fs, x, quiet, same) refl, rw same y)
    ]

abandon-Raises :
    (s : Session) (active : Bool) (encoder : ℕ)
    → let (u, es) = abandon_swap s active encoder in
      (readings es ≡ []) × (u.audio_clock_samples ≡ s.audio_clock_samples)
unfolding abandon_swap
abandon-Raises s active encoder = ground arith

complete_swap-Raises :
    (s : Session) (active : Bool) (encoder : ℕ) (flushed : Bool)
    → let (u, es) = complete_swap s active encoder flushed in
      (readings es ≡ []) × (u.audio_clock_samples ≡ s.audio_clock_samples)
unfolding complete_swap
complete_swap-Raises s active encoder flushed = by_swap s.swap refl
  where
    silent : (w : Swap) → readings (encode_all w.encoder w.buffers ++ (swaps ∷ [])) ≡ []
    silent w =
        rw
          (
            readings-append (encode_all w.encoder w.buffers) (swaps ∷ []),
            readings-encode_all w.encoder w.buffers,
          )
          refl

    by_swap :
        (o : Option Swap)
        → s.swap ≡ o
        → let (u, es) = complete_swap s active encoder flushed in
          (readings es ≡ []) × (u.audio_clock_samples ≡ s.audio_clock_samples)
    by_swap none e = ground (arith, e, abandon-Raises s active encoder)
    by_swap (some w) e = ground (arith, e, silent w, abandon-Raises s active encoder)

prepare_swap-Raises :
    (s : Session) (mode_key encoder : ℕ)
    → let (u, es) = prepare_swap s mode_key encoder in
      (readings es ≡ []) × (u.audio_clock_samples ≡ s.audio_clock_samples)
unfolding prepare_swap
prepare_swap-Raises s mode_key encoder = ground arith

start_swap-Raises :
    (s : Session) (active : Bool) (mode_key encoder : ℕ) (ready : Bool)
    → let (u, es) = start_swap s active mode_key encoder ready in
      (readings es ≡ []) × (u.audio_clock_samples ≡ s.audio_clock_samples)
unfolding start_swap
start_swap-Raises s active mode_key encoder ready = ground arith

step-Raises : (s : Session) (c : Call) → Raises s (step s c)
unfolding step
step-Raises s (captures active buffer t stale) = encode_audio_block-Raises s active buffer t stale
step-Raises s (prepares mode_key encoder) = inl (prepare_swap-Raises s mode_key encoder)
step-Raises s (starts active mode_key encoder ready) =
    inl (start_swap-Raises s active mode_key encoder ready)
step-Raises s (completes active encoder flushed) =
    inl (complete_swap-Raises s active encoder flushed)

-- In every history, swaps included, the video worker is given a rising audio clock, each reading
-- above the clock before.
pub run-IsRising :
    (s : Session) (cs : List Call) → IsRising s.audio_clock_samples (readings (run s cs).1)
unfolding run
run-IsRising s [] = tt
run-IsRising s (c ∷ cs) =
    let (u, es) = step s c in
    let rest = run-IsRising u cs in
    elim (step-Raises s c) [
      | inl (x, y) ↦ rw (readings-append es (run u cs).1, x) (rw y at rest)
      | inr (x, y) ↦ rw (readings-append es (run u cs).1, x) (y, rest)
    ]
