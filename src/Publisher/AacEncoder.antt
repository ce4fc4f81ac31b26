-- ===== src/Publisher/AacEncoder.antt =====
-- `createAacEncoder` of client/scripts/streamer.js: the streamer's side of the AAC worker. The
-- promises of `flush` are told apart by a number that the caller chooses. Names and rates of the
-- statistics are left out.
pub mod Queue
pub mod Promises
pub mod Tests
use vrcstreamer.Common.{
  ℕ, zero, suc, ◌+◌, ◌-◌, ◌*◌, ◌/◌, ◌%◌, ◌^◌, ◌≤◌, ◌<◌, min, max, ◌≡◌, refl, sym, ap, ◌∙◌, ◌≢◌, ◌↔◌,
  ◌⊎◌, inl, inr, Bool, true, false, not, ◌&&◌, ◌||◌, Option, none, some, List, [], ◌∷◌, ◌++◌, map,
  append_assoc, append-nil, arith, ltb, leb, ◌==◌, if◌then◌else◌, Bool-cases, Option-cases, is_some,
  length, get_elem?, get_or, set, take, drop, replicate, All,
}
use vrcstreamer.Publisher.AudioSend.{max_audio_buffered_blocks}

pub record AacEncoder : Type 0 where
  pub closed : Bool
  pub ready_settled : Bool
  pub pending_flush : Option ℕ
  pub pcm_blocks : ℕ
  pub pending_blocks : ℕ
  pub codec_queue : ℕ
  pub dropped_blocks : ℕ
  pub encoded_frames : ℕ
  pub encoded_bytes : ℕ

pub data Promise : Type 0 where
  ready_promise : Promise
  flush_promise : ℕ → Promise

pub data Message : Type 0 where
  init_message flush_message : Message
  encode_message : ℕ → ℕ → Message

-- Messages to the worker, promises made, and resolved (`true`) or rejected, packets and errors handed
-- to the caller, and `worker.terminate()`.
pub data Event : Type 0 where
  posts : Message → Event
  makes : Promise → Event
  settles : Promise → Bool → Event
  hands_packet : ℕ → ℕ → Event
  reports terminates : Event

abbrev pub Outcome : Type 0
Outcome = AacEncoder × List Event

abbrev pub flush_settlement : Option ℕ → Bool → List Event
flush_settlement none ok = []
flush_settlement (some p) ok = settles (flush_promise p) ok ∷ []

-- `ok` is `settleFlush()` without an error.
pub settle_flush : AacEncoder → Bool → Outcome
settle_flush e ok = (record e { pending_flush = none }, flush_settlement e.pending_flush ok)

pub reject_ready : AacEncoder → Outcome
reject_ready e =
    if e.ready_settled
    then (e, [])
    else (record e { ready_settled = true }, settles ready_promise false ∷ [])

-- The end of the constructor.
pub created : Outcome
created = (
  record {
    closed = false;
    ready_settled = false;
    pending_flush = none;
    pcm_blocks = 0;
    pending_blocks = 0;
    codec_queue = 0;
    dropped_blocks = 0;
    encoded_frames = 0;
    encoded_bytes = 0;
  },
  makes ready_promise ∷ posts init_message ∷ [],
)

-- To settle a settled promise again does nothing.
pub on_ready : AacEncoder → Outcome
on_ready e =
    if e.ready_settled
    then (e, [])
    else (record e { ready_settled = true }, settles ready_promise true ∷ [])

pub on_packet : AacEncoder → ℕ → ℕ → ℕ → ℕ → Outcome
on_packet e packet timestamp bytes queue = (
  record e {
    encoded_frames = e.encoded_frames + 1;
    encoded_bytes = e.encoded_bytes + bytes;
    codec_queue = queue;
  },
  hands_packet packet timestamp ∷ [],
)

pub on_consumed : AacEncoder → ℕ → Outcome
on_consumed e queue = (record e { pending_blocks = e.pending_blocks - 1; codec_queue = queue }, [])

-- The message `error`, and `worker.onerror`.
pub on_error : AacEncoder → Outcome
on_error e =
    let (u, es) = reject_ready e in
    let (v, fs) = settle_flush u false in (v, es ++ (fs ++ (reports ∷ [])))

pub encode : AacEncoder → ℕ → ℕ → Outcome
encode e block timestamp =
    if e.closed || leb max_audio_buffered_blocks (e.pending_blocks + e.codec_queue)
    then (record e { dropped_blocks = e.dropped_blocks + 1 }, [])
    else (
      record e { pcm_blocks = e.pcm_blocks + 1; pending_blocks = e.pending_blocks + 1 },
      posts (encode_message block timestamp) ∷ [],
    )

pub record_drop : AacEncoder → Outcome
record_drop e = (record e { dropped_blocks = e.dropped_blocks + 1 }, [])

pub close : AacEncoder → Outcome
close e =
    let (u, es) = reject_ready (record e { closed = true }) in
    let (v, fs) = settle_flush u false in
    if e.closed then (e, []) else (v, es ++ (fs ++ (terminates ∷ [])))

-- A flush that is asked for while another runs gets the other's promise.
pub flush : AacEncoder → ℕ → Outcome
flush e p =
    if e.closed
    then (e, makes (flush_promise p) ∷ settles (flush_promise p) false ∷ [])
    else if is_some e.pending_flush
    then (e, [])
    else (record e { pending_flush = some p }, makes (flush_promise p) ∷ posts flush_message ∷ [])

pub data Call : Type 0 where
  becomes_ready is_flushed errs drops closes : Call
  sends_packet : ℕ → ℕ → ℕ → ℕ → Call
  consumes flushes : ℕ → Call
  encodes : ℕ → ℕ → Call

pub step : AacEncoder → Call → Outcome
step e becomes_ready = on_ready e
step e is_flushed = settle_flush e true
step e errs = on_error e
step e drops = record_drop e
step e closes = close e
step e (sends_packet packet timestamp bytes queue) = on_packet e packet timestamp bytes queue
step e (consumes queue) = on_consumed e queue
step e (flushes p) = flush e p
step e (encodes block timestamp) = encode e block timestamp

pub run : AacEncoder → List Call → Outcome
run e [] = (e, [])
run e (c ∷ cs) = let (u, es) = step e c in let (v, fs) = run u cs in (v, es ++ fs)
