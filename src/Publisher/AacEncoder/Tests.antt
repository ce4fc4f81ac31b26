-- ===== src/Publisher/AacEncoder/Tests.antt =====
-- A life of the AAC worker's proxy of streamer.js: the seventh block in flight is dropped, and closing
-- rejects the flush.
use vrcstreamer.Common.{◌≤◌, ◌≡◌, refl, true, List, [], ◌∷◌, ◌++◌, ◌+◌}
use vrcstreamer.Publisher.AacEncoder.{
  flush_promise, settle_flush, reject_ready, created, on_ready, on_consumed, encode, close, flush,
  Call, becomes_ready, closes, consumes, flushes, encodes, step, run,
}
use vrcstreamer.Publisher.AacEncoder.Promises.{settled, made, run-created-settled_le}
use vrcstreamer.Publisher.AacEncoder.Queue.{IsAccounted, posted, run-created-IsAccounted}

abbrev calls : List Call
calls =
    becomes_ready
    ∷ encodes 1 0
    ∷ encodes 2 1024
    ∷ encodes 3 2048
    ∷ encodes 4 3072
    ∷ encodes 5 4096
    ∷ encodes 6 5120
    ∷ encodes 7 6144
    ∷ consumes 0
    ∷ encodes 8 7168
    ∷ flushes 1
    ∷ flushes 2
    ∷ closes
    ∷ []

drops_seventh : (run created.0 calls).0.dropped_blocks ≡ 1
unfolding run step created on_ready encode on_consumed flush close reject_ready settle_flush
drops_seventh = refl

run-created-IsAccounted_example :
    let (e, es) = run created.0 calls in
    IsAccounted 8 e
    × (posted es + e.dropped_blocks ≡ 8)
    × (posted es ≡ e.pcm_blocks)
    × (posted es ≤ 7)
run-created-IsAccounted_example = run-created-IsAccounted calls

run-created-settled_le_example :
    let (u, es) = run created.0 calls in
    (settled (flush_promise 1) es ≤ made (flush_promise 1) (created.1 ++ es))
    × (u.closed ≡ true → settled (flush_promise 1) es ≡ made (flush_promise 1) (created.1 ++ es))
run-created-settled_le_example = run-created-settled_le (flush_promise 1) calls
