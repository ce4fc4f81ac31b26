-- ===== src/Publisher/AacEncoder/Queue.antt =====
-- The back-pressure of `createAacEncoder` of streamer.js.
use vrcstreamer.Common.{ℕ, ◌+◌, ◌≤◌, ◌≡◌, List, [], ◌∷◌, ◌++◌, arith}
use vrcstreamer.Publisher.AudioSend.{max_audio_buffered_blocks}
use vrcstreamer.Publisher.AacEncoder.{
  AacEncoder, settle_flush, reject_ready, created, on_ready, on_packet, on_consumed, on_error,
  encode, record_drop, close, flush, Call, Event, posts, encode_message, init_message,
  flush_message, makes, settles, hands_packet, reports, terminates, becomes_ready, is_flushed, errs,
  drops, closes, sends_packet, consumes, flushes, encodes, step, run,
}

-- How many blocks the calls offer, to be encoded or as drops of the caller.
abbrev pub offered : List Call → ℕ
offered [] = 0
offered (becomes_ready ∷ cs) = offered cs
offered (is_flushed ∷ cs) = offered cs
offered (errs ∷ cs) = offered cs
offered (drops ∷ cs) = 1 + offered cs
offered (closes ∷ cs) = offered cs
offered (sends_packet packet timestamp bytes queue ∷ cs) = offered cs
offered (consumes queue ∷ cs) = offered cs
offered (flushes p ∷ cs) = offered cs
offered (encodes block timestamp ∷ cs) = 1 + offered cs

-- How many blocks the worker says it has consumed.
abbrev pub consumed : List Call → ℕ
consumed [] = 0
consumed (becomes_ready ∷ cs) = consumed cs
consumed (is_flushed ∷ cs) = consumed cs
consumed (errs ∷ cs) = consumed cs
consumed (drops ∷ cs) = consumed cs
consumed (closes ∷ cs) = consumed cs
consumed (sends_packet packet timestamp bytes queue ∷ cs) = consumed cs
consumed (consumes queue ∷ cs) = 1 + consumed cs
consumed (flushes p ∷ cs) = consumed cs
consumed (encodes block timestamp ∷ cs) = consumed cs

-- How many blocks are posted to the worker.
abbrev pub posted : List Event → ℕ
posted [] = 0
posted (posts init_message ∷ es) = posted es
posted (posts flush_message ∷ es) = posted es
posted (posts (encode_message block timestamp) ∷ es) = 1 + posted es
posted (makes p ∷ es) = posted es
posted (settles p ok ∷ es) = posted es
posted (hands_packet packet timestamp ∷ es) = posted es
posted (reports ∷ es) = posted es
posted (terminates ∷ es) = posted es

posted-append : (es fs : List Event) → posted (es ++ fs) ≡ posted es + posted fs
posted-append [] fs = omega arith
posted-append (posts init_message ∷ es) fs = posted-append es fs
posted-append (posts flush_message ∷ es) fs = posted-append es fs
posted-append (posts (encode_message block timestamp) ∷ es) fs = omega (arith, posted-append es fs)
posted-append (makes p ∷ es) fs = posted-append es fs
posted-append (settles p ok ∷ es) fs = posted-append es fs
posted-append (hands_packet packet timestamp ∷ es) fs = posted-append es fs
posted-append (reports ∷ es) fs = posted-append es fs
posted-append (terminates ∷ es) fs = posted-append es fs

-- The blocks in flight are within the limit, and `n` blocks are accounted for.
abbrev pub IsAccounted : ℕ → AacEncoder → Type 0
IsAccounted n e =
    (e.pending_blocks ≤ max_audio_buffered_blocks)
    × (e.pending_blocks ≤ e.pcm_blocks)
    × (e.pcm_blocks + e.dropped_blocks ≡ n)

step-IsAccounted :
    (n : ℕ) (e : AacEncoder) (c : Call)
    → IsAccounted n e
    → IsAccounted (n + offered (c ∷ [])) (step e c).0
unfolding step on_ready on_error record_drop on_packet on_consumed encode close flush settle_flush
    reject_ready
step-IsAccounted n e becomes_ready h = ground arith
step-IsAccounted n e is_flushed h = ground arith
step-IsAccounted n e errs h = ground arith
step-IsAccounted n e drops h = ground arith
step-IsAccounted n e closes h = ground arith
step-IsAccounted n e (sends_packet packet timestamp bytes queue) h = ground arith
step-IsAccounted n e (consumes queue) h = ground arith
step-IsAccounted n e (flushes p) h = ground arith
step-IsAccounted n e (encodes block timestamp) h = ground arith

-- From `e` to `f`, `m` blocks are posted and `k` consumed, and the counters say so.
abbrev Posts : AacEncoder → AacEncoder → ℕ → ℕ → Type 0
Posts e f m k = (f.pcm_blocks ≡ e.pcm_blocks + m) × (e.pending_blocks + m ≤ f.pending_blocks + k)

step-Posts :
    (e : AacEncoder) (c : Call)
    → let (f, es) = step e c in Posts e f (posted es) (consumed (c ∷ []))
unfolding step on_ready on_error record_drop on_packet on_consumed encode close flush settle_flush
    reject_ready
step-Posts e becomes_ready = ground arith
step-Posts e is_flushed = ground arith
step-Posts e errs = ground arith
step-Posts e drops = ground arith
step-Posts e closes = ground arith
step-Posts e (sends_packet packet timestamp bytes queue) = ground arith
step-Posts e (consumes queue) = ground arith
step-Posts e (flushes p) = ground arith
step-Posts e (encodes block timestamp) = ground arith

offered-cons : (c : Call) (cs : List Call) → offered (c ∷ cs) ≡ offered (c ∷ []) + offered cs
offered-cons becomes_ready cs = omega arith
offered-cons is_flushed cs = omega arith
offered-cons errs cs = omega arith
offered-cons drops cs = omega arith
offered-cons closes cs = omega arith
offered-cons (sends_packet packet timestamp bytes queue) cs = omega arith
offered-cons (consumes queue) cs = omega arith
offered-cons (flushes p) cs = omega arith
offered-cons (encodes block timestamp) cs = omega arith

consumed-cons : (c : Call) (cs : List Call) → consumed (c ∷ cs) ≡ consumed (c ∷ []) + consumed cs
consumed-cons becomes_ready cs = omega arith
consumed-cons is_flushed cs = omega arith
consumed-cons errs cs = omega arith
consumed-cons drops cs = omega arith
consumed-cons closes cs = omega arith
consumed-cons (sends_packet packet timestamp bytes queue) cs = omega arith
consumed-cons (consumes queue) cs = omega arith
consumed-cons (flushes p) cs = omega arith
consumed-cons (encodes block timestamp) cs = omega arith

run-IsAccounted :
    (n : ℕ) (e : AacEncoder) (cs : List Call)
    → IsAccounted n e
    → IsAccounted (n + offered cs) (run e cs).0
unfolding run
run-IsAccounted n e [] h = ground arith
run-IsAccounted n e (c ∷ cs) h =
    let k = run-IsAccounted (n + offered (c ∷ [])) (step e c).0 cs (step-IsAccounted n e c h) in
    (k.0, k.1, omega (arith, k.2, offered-cons c cs))

run-Posts :
    (e : AacEncoder) (cs : List Call)
    → let (f, es) = run e cs in Posts e f (posted es) (consumed cs)
unfolding run
run-Posts e [] = (omega arith, omega arith)
run-Posts e (c ∷ cs) =
    let (f, es) = step e c in
    let (g, fs) = run f cs in
    let (a, b) = step-Posts e c in
    let (x, y) = run-Posts f cs in
    let sum = posted-append es fs in
    (omega (arith, a, x, sum), omega (arith, b, y, sum, consumed-cons c cs))

-- In every history of a new encoder, every block that was offered was either posted to the worker or
-- counted as dropped, `pcmBlocks` is the number of the posted blocks, and at most 6 blocks more have
-- been posted than the worker has said it has consumed.
pub run-created-IsAccounted :
    (cs : List Call)
    → let (e, es) = run created.0 cs in
      IsAccounted (offered cs) e
      × (posted es + e.dropped_blocks ≡ offered cs)
      × (posted es ≡ e.pcm_blocks)
      × (posted es ≤ consumed cs + 6)
unfolding created
run-created-IsAccounted cs =
    let (e, es) = run created.0 cs in
    let (a, b, d) = run-IsAccounted 0 created.0 cs (omega arith, omega arith, omega arith) in
    let (x, y) = run-Posts created.0 cs in
    ((a, b, omega (arith, d)), omega (arith, d, x), omega (arith, x), omega (arith, a, y))
