-- ===== src/Publisher/EncoderSwap.antt =====
-- The way of captured blocks to an AAC encoder in client/scripts/streamer.js, and the change of the
-- encoder: `encodeAudioBlock`, `completeAudioEncoderSwap` and `replaceAudioEncoder`. Encoders, modes
-- and buffers are numbers.
pub mod Order
pub mod Clock
pub mod Tests
use vrcstreamer.Common.{
  ℕ, zero, suc, ◌+◌, ◌-◌, ◌*◌, ◌/◌, ◌%◌, ◌^◌, ◌≤◌, ◌<◌, min, max, ◌≡◌, refl, sym, ap, ◌∙◌, ◌≢◌, ◌↔◌,
  ◌⊎◌, inl, inr, Bool, true, false, not, ◌&&◌, ◌||◌, Option, none, some, List, [], ◌∷◌, ◌++◌, map,
  append_assoc, append-nil, arith, ltb, leb, ◌==◌, if◌then◌else◌, Bool-cases, Option-cases, is_some,
  length, get_elem?, get_or, set, take, drop, replicate, All,
}
use vrcstreamer.Publisher.AudioSend.{max_audio_buffered_blocks}

abbrev pub frames_per_chunk : ℕ
frames_per_chunk = 1024

pub record Block : Type 0 where
  pub buffer : ℕ
  pub timestamp_samples : ℕ

pub record Swap : Type 0 where
  pub encoder : ℕ
  pub mode_key : ℕ
  pub buffers : List Block

-- What these functions use of a session. A swap is told apart by its encoder.
pub record Session : Type 0 where
  pub encoder : ℕ
  pub encoder_mode_key : ℕ
  pub audio_clock_samples : ℕ
  pub swap : Option Swap
  pub preparing : Option ℕ

-- Calls of an encoder, with its number, of the video worker's `syncAudioClock`, of `failActive`, and
-- the outcome of `replaceAudioEncoder`.
pub data Event : Type 0 where
  encodes : ℕ → Block → Event
  drops closes_encoder : ℕ → Event
  syncs : ℕ → Event
  swaps refuses fails : Event

abbrev pub Outcome : Type 0
Outcome = Session × List Event

-- `swap.buffers.shift()` of a full list with its count, and `push`.
pub push_block : Swap → Block → Swap × List Event
push_block w b =
    if leb max_audio_buffered_blocks (length w.buffers)
    then (record w { buffers = drop 1 w.buffers ++ (b ∷ []) }, drops w.encoder ∷ [])
    else (record w { buffers = w.buffers ++ (b ∷ []) }, [])

pub sync_clock : Session → Block → Outcome
sync_clock s b =
    let samples = b.timestamp_samples + frames_per_chunk in
    if ltb s.audio_clock_samples samples
    then (record s { audio_clock_samples = samples }, syncs samples ∷ [])
    else (s, [])

-- After the clock: a stale block is dropped, others are encoded or kept for the new encoder.
pub route : Session → Block → Bool → Outcome
route s b stale = elim s.swap [
  | none ↦ if stale then (s, drops s.encoder ∷ []) else (s, encodes s.encoder b ∷ [])
  | some w ↦
      let (v, es) = push_block w b in
      if stale then (s, drops w.encoder ∷ []) else (record s { swap = some v }, es)
]

-- `active` is `app.active === session`; `none` is a timestamp that is no safe integer, or negative.
pub encode_audio_block : Session → Bool → ℕ → Option ℕ → Bool → Outcome
encode_audio_block s active buffer none stale = (s, [])
encode_audio_block s active buffer (some t) stale =
    let b : Block = record { buffer = buffer; timestamp_samples = t } in
    let (u, es) = sync_clock s b in
    let (v, fs) = route u b stale in if active then (v, es ++ fs) else (s, [])

abbrev pub encode_all : ℕ → List Block → List Event
encode_all e [] = []
encode_all e (b ∷ bs) = encodes e b ∷ encode_all e bs

-- `replaceAudioEncoder` up to the wait for the new encoder.
pub prepare_swap : Session → ℕ → ℕ → Outcome
prepare_swap s mode_key encoder =
    if mode_key == s.encoder_mode_key
    then (s, [])
    else if is_some s.preparing || is_some s.swap
    then (s, refuses ∷ [])
    else (record s { preparing = some encoder }, [])

-- After that wait: the encoder is ready, or it failed or timed out.
pub start_swap : Session → Bool → ℕ → ℕ → Bool → Outcome
start_swap s active mode_key encoder ready =
    let own : Bool = elim s.preparing [ none ↦ false | some e ↦ e == encoder ] in
    let u : Session = if own then record s { preparing = none } else s in
    let w : Swap = record { encoder = encoder; mode_key = mode_key; buffers = [] } in
    if not ready || not active
    then (u, closes_encoder encoder ∷ refuses ∷ [])
    else (record u { swap = some w }, [])

-- The failure of `completeAudioEncoderSwap` for the swap to `encoder`.
pub abandon_swap : Session → Bool → ℕ → Outcome
abandon_swap s active encoder =
    let own : Bool = elim s.swap [ none ↦ false | some w ↦ w.encoder == encoder ] in
    (
      if own then record s { swap = none } else s,
      closes_encoder encoder ∷ refuses ∷ (if active then fails ∷ [] else []),
    )

-- `completeAudioEncoderSwap` for the swap to `encoder`, after the flush of the old encoder, which
-- succeeded or not.
pub complete_swap : Session → Bool → ℕ → Bool → Outcome
complete_swap s active encoder flushed = elim s.swap [
  | none ↦ abandon_swap s active encoder
  | some w ↦
      let done : Session = record s {
        encoder = w.encoder;
        encoder_mode_key = w.mode_key;
        swap = none;
      } in
      if flushed && active && w.encoder == encoder
      then (done, closes_encoder s.encoder ∷ (encode_all w.encoder w.buffers ++ (swaps ∷ [])))
      else abandon_swap s active encoder
]

pub data Call : Type 0 where
  captures : Bool → ℕ → Option ℕ → Bool → Call
  prepares : ℕ → ℕ → Call
  starts : Bool → ℕ → ℕ → Bool → Call
  completes : Bool → ℕ → Bool → Call

pub step : Session → Call → Outcome
step s (captures active buffer t stale) = encode_audio_block s active buffer t stale
step s (prepares mode_key encoder) = prepare_swap s mode_key encoder
step s (starts active mode_key encoder ready) = start_swap s active mode_key encoder ready
step s (completes active encoder flushed) = complete_swap s active encoder flushed

pub run : Session → List Call → Outcome
run s [] = (s, [])
run s (c ∷ cs) = let (u, es) = step s c in let (v, fs) = run u cs in (v, es ++ fs)
