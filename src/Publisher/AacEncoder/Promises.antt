-- ===== src/Publisher/AacEncoder/Promises.antt =====
-- The promises of `createAacEncoder` of streamer.js.
use vrcstreamer.Common.{
  ℕ, ◌+◌, ◌≤◌, ◌≡◌, refl, Bool, true, false, not, Option, none, some, List, [], ◌∷◌, ◌++◌, arith,
  ◌==◌, if◌then◌else◌, is_some,
}
use vrcstreamer.Publisher.AacEncoder.{
  AacEncoder, Promise, ready_promise, flush_promise, Event, posts, makes, settles, hands_packet,
  reports, terminates, Outcome, settle_flush, reject_ready, created, on_ready, on_packet,
  on_consumed, on_error, encode, record_drop, close, flush, Call, becomes_ready, is_flushed, errs,
  drops, closes, sends_packet, consumes, flushes, encodes, step, run,
}

abbrev pub is_same : Promise → Promise → Bool
is_same ready_promise ready_promise = true
is_same (flush_promise p) (flush_promise q) = p == q
is_same _ _ = false

abbrev pub one : Bool → ℕ
one b = if b then 1 else 0

-- How often promise `p` is resolved or rejected, and how often it is made.
abbrev pub settled : Promise → List Event → ℕ
settled p [] = 0
settled p (posts m ∷ es) = settled p es
settled p (makes q ∷ es) = settled p es
settled p (settles q ok ∷ es) = one (is_same q p) + settled p es
settled p (hands_packet k t ∷ es) = settled p es
settled p (reports ∷ es) = settled p es
settled p (terminates ∷ es) = settled p es

abbrev pub made : Promise → List Event → ℕ
made p [] = 0
made p (posts m ∷ es) = made p es
made p (makes q ∷ es) = one (is_same q p) + made p es
made p (settles q ok ∷ es) = made p es
made p (hands_packet k t ∷ es) = made p es
made p (reports ∷ es) = made p es
made p (terminates ∷ es) = made p es

abbrev pub is_pending : Option ℕ → ℕ → Bool
is_pending none p = false
is_pending (some q) p = q == p

abbrev pub due : Promise → Bool → Option ℕ → ℕ
due ready_promise ready flush = one (not ready)
due (flush_promise p) ready flush = one (is_pending flush p)

-- Whether a settlement of `p` is still to come.
abbrev pub owed : Promise → AacEncoder → ℕ
owed p e = due p e.ready_settled e.pending_flush

settled-append :
    (p : Promise) (es fs : List Event) → settled p (es ++ fs) ≡ settled p es + settled p fs
settled-append p [] fs = omega arith
settled-append p (posts m ∷ es) fs = settled-append p es fs
settled-append p (makes q ∷ es) fs = settled-append p es fs
settled-append p (settles q ok ∷ es) fs = omega (arith, settled-append p es fs)
settled-append p (hands_packet k t ∷ es) fs = settled-append p es fs
settled-append p (reports ∷ es) fs = settled-append p es fs
settled-append p (terminates ∷ es) fs = settled-append p es fs

made-append : (p : Promise) (es fs : List Event) → made p (es ++ fs) ≡ made p es + made p fs
made-append p [] fs = omega arith
made-append p (posts m ∷ es) fs = made-append p es fs
made-append p (makes q ∷ es) fs = omega (arith, made-append p es fs)
made-append p (settles q ok ∷ es) fs = made-append p es fs
made-append p (hands_packet k t ∷ es) fs = made-append p es fs
made-append p (reports ∷ es) fs = made-append p es fs
made-append p (terminates ∷ es) fs = made-append p es fs

abbrev Balances : Promise → AacEncoder → Outcome → Type 0
Balances p e (u, es) = settled p es + owed p u ≡ owed p e + made p es

Balances-append :
    (p : Promise) (e u v : AacEncoder) (es fs : List Event)
    → Balances p e (u, es)
    → Balances p u (v, fs)
    → Balances p e (v, es ++ fs)
Balances-append p e u v es fs a b = omega (arith, settled-append p es fs, made-append p es fs)

settle_flush-Balances :
    (p : Promise) (e : AacEncoder) (ok : Bool) → Balances p e (settle_flush e ok)
unfolding settle_flush
settle_flush-Balances ready_promise e ok = ground arith
settle_flush-Balances (flush_promise q) e ok = ground arith

reject_ready-Balances : (p : Promise) (e : AacEncoder) → Balances p e (reject_ready e)
unfolding reject_ready
reject_ready-Balances ready_promise e = ground arith
reject_ready-Balances (flush_promise q) e = ground arith

-- Both promises rejected, and then an event that settles none.
rejected-Balances :
    (p : Promise) (e : AacEncoder) (f : Event)
    → settled p (f ∷ []) ≡ 0
    → made p (f ∷ []) ≡ 0
    → let (u, es) = reject_ready e in
      let (v, fs) = settle_flush u false in Balances p e (v, es ++ (fs ++ (f ∷ [])))
rejected-Balances p e f a b =
    let (u, es) = reject_ready e in
    let (v, fs) = settle_flush u false in
    Balances-append p e u v es (fs ++ (f ∷ [])) (reject_ready-Balances p e)
      (Balances-append p u v v fs (f ∷ []) (settle_flush-Balances p u false) (omega arith))

close-Balances : (p : Promise) (e : AacEncoder) → Balances p e (close e)
unfolding close
close-Balances p e =
    ground (arith, rejected-Balances p (record e { closed = true }) terminates refl refl)

on_ready-Balances : (p : Promise) (e : AacEncoder) → Balances p e (on_ready e)
unfolding on_ready
on_ready-Balances ready_promise e = ground arith
on_ready-Balances (flush_promise q) e = ground arith

pending-is_some : (s : Option ℕ) (p : ℕ) → is_pending s p ≡ true → is_some s ≡ true
pending-is_some none p e = e
pending-is_some (some q) p e = refl

flush-Balances : (p : Promise) (e : AacEncoder) (q : ℕ) → Balances p e (flush e q)
unfolding flush
flush-Balances ready_promise e q = ground arith
flush-Balances (flush_promise r) e q = ground (arith, pending-is_some e.pending_flush r)

step-Balances : (p : Promise) (e : AacEncoder) (c : Call) → Balances p e (step e c)
unfolding step on_error record_drop on_packet on_consumed encode
step-Balances p e becomes_ready = on_ready-Balances p e
step-Balances p e is_flushed = settle_flush-Balances p e true
step-Balances p e errs = rejected-Balances p e reports refl refl
step-Balances p e drops = omega arith
step-Balances p e closes = close-Balances p e
step-Balances p e (sends_packet packet timestamp bytes queue) = omega arith
step-Balances p e (consumes queue) = omega arith
step-Balances p e (flushes q) = flush-Balances p e q
step-Balances p e (encodes block timestamp) = ground arith

run-Balances : (p : Promise) (e : AacEncoder) (cs : List Call) → Balances p e (run e cs)
unfolding run
run-Balances p e [] = omega arith
run-Balances p e (c ∷ cs) =
    let (u, es) = step e c in
    Balances-append p e u (run u cs).0 es (run u cs).1 (step-Balances p e c) (run-Balances p u cs)

-- Once closed, the encoder owes nothing.
abbrev pub IsClean : AacEncoder → Type 0
IsClean e = e.closed ≡ true → (e.ready_settled ≡ true) × (e.pending_flush ≡ none)

step-IsClean : (e : AacEncoder) (c : Call) → IsClean e → IsClean (step e c).0
unfolding step on_ready on_error record_drop on_packet on_consumed encode close flush settle_flush
    reject_ready
step-IsClean e becomes_ready h = ground arith
step-IsClean e is_flushed h = ground arith
step-IsClean e errs h = ground arith
step-IsClean e drops h = h
step-IsClean e closes h = ground arith
step-IsClean e (sends_packet packet timestamp bytes queue) h = h
step-IsClean e (consumes queue) h = h
step-IsClean e (flushes q) h = ground arith
step-IsClean e (encodes block timestamp) h = ground arith

run-IsClean : (e : AacEncoder) (cs : List Call) → IsClean e → IsClean (run e cs).0
unfolding run
run-IsClean e [] h = h
run-IsClean e (c ∷ cs) h = run-IsClean (step e c).0 cs (step-IsClean e c h)

clean_owed : (p : Promise) (e : AacEncoder) → IsClean e → e.closed ≡ true → owed p e ≡ 0
clean_owed ready_promise e h c = ground (arith, h c)
clean_owed (flush_promise q) e h c = ground (arith, h c)

-- In every history of a new encoder, the promise of its start and every promise of `flush` is settled
-- at most once for each time it was made, and once the encoder is closed, exactly as often.
pub run-created-settled_le :
    (p : Promise) (cs : List Call)
    → let (u, es) = run created.0 cs in
      (settled p es ≤ made p (created.1 ++ es))
      × (u.closed ≡ true → settled p es ≡ made p (created.1 ++ es))
unfolding created
run-created-settled_le p cs = (bounded p, complete p)
  where
    e : AacEncoder
    e = created.0

    bounded : (q : Promise) → settled q (run e cs).1 ≤ made q (created.1 ++ (run e cs).1)
    bounded ready_promise = omega (arith, run-Balances ready_promise e cs)
    bounded (flush_promise r) = omega (arith, run-Balances (flush_promise r) e cs)

    clean : IsClean e
    clean c = absurd (ground arith)

    complete :
        (q : Promise)
        → (run e cs).0.closed ≡ true
        → settled q (run e cs).1 ≡ made q (created.1 ++ (run e cs).1)
    complete ready_promise c = omega (
      arith,
      run-Balances ready_promise e cs,
      clean_owed ready_promise (run e cs).0 (run-IsClean e cs clean) c,
    )
    complete (flush_promise r) c = omega (
      arith,
      run-Balances (flush_promise r) e cs,
      clean_owed (flush_promise r) (run e cs).0 (run-IsClean e cs clean) c,
    )
