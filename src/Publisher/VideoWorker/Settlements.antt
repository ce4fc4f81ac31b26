-- ===== src/Publisher/VideoWorker/Settlements.antt =====
-- What the events of the video worker's proxy of streamer.js settle, and the ways it fails.
use vrcstreamer.Common.{
  ℕ, ◌+◌, ◌≡◌, refl, Bool, true, false, not, Option, none, some, List, [], ◌∷◌, ◌++◌, arith, ◌==◌,
  if◌then◌else◌,
}
use vrcstreamer.Publisher.Transport.{
  Transport, poll, abort, attach_video, detach_video, pauses, resumes, fails, other,
}
use vrcstreamer.Publisher.Transport
use vrcstreamer.Publisher.VideoWorker.{
  VideoWorker, Closing, unasked, awaited, resolved, Promise, ready_promise, close_promise,
  source_promise, reconfigure_promise, Event, posts, sends, settles, sets_timer, clears_timer,
  terminates, reports, gives_up, Outcome, deliver, reject_source, reject_reconfigure,
  reject_pending, reject_ready, terminate, fail, source, reconfigure, Call, becomes_ready,
  accepts_source, fails_reconfigure, is_closed, errs, inits, places, source_time, reconfigure_time,
  terminate_time, sends_packet, is_reconfigured, syncs, asks_source, asks_reconfigure, closes,
  polls,
}

abbrev pub is_same : Promise → Promise → Bool
is_same ready_promise ready_promise = true
is_same close_promise close_promise = true
is_same (source_promise p) (source_promise q) = p == q
is_same (reconfigure_promise p) (reconfigure_promise q) = p == q
is_same _ _ = false

abbrev pub one : Bool → ℕ
one b = if b then 1 else 0

-- How often promise `p` is resolved or rejected.
abbrev pub settled : Promise → List Event → ℕ
settled p [] = 0
settled p (posts m ∷ es) = settled p es
settled p (sends m ∷ es) = settled p es
settled p (settles q b ∷ es) = one (is_same q p) + settled p es
settled p (sets_timer t ∷ es) = settled p es
settled p (clears_timer t ∷ es) = settled p es
settled p (terminates ∷ es) = settled p es
settled p (reports ∷ es) = settled p es
settled p (gives_up e ∷ es) = settled p es

abbrev pub is_pending_source : Option ℕ → ℕ → Bool
is_pending_source none p = false
is_pending_source (some q) p = q == p

abbrev pub is_pending_reconfigure : Option (ℕ × ℕ) → ℕ → Bool
is_pending_reconfigure none p = false
is_pending_reconfigure (some (q, quality)) p = q == p

abbrev pub is_open : Closing → Bool
is_open unasked = true
is_open awaited = true
is_open resolved = false

-- One settlement is owed to a promise that was given out and is not settled, and to those of the
-- start and the end from the beginning.
abbrev pub due : Promise → Bool → Option ℕ → Option (ℕ × ℕ) → Closing → ℕ
due ready_promise ready source reconfigure closing = one (not ready)
due close_promise ready source reconfigure closing = one (is_open closing)
due (source_promise p) ready source reconfigure closing = one (is_pending_source source p)
due (reconfigure_promise p) ready source reconfigure closing =
    one (is_pending_reconfigure reconfigure p)

abbrev pub owed : Promise → VideoWorker → ℕ
owed p w = due p w.ready_settled w.pending_source w.pending_reconfigure w.closing

abbrev pub asked : Promise → Call → ℕ
asked p (asks_source q throws) = one (is_same (source_promise q) p)
asked p (asks_reconfigure q quality throws) = one (is_same (reconfigure_promise q) p)
asked p becomes_ready = 0
asked p accepts_source = 0
asked p fails_reconfigure = 0
asked p is_closed = 0
asked p errs = 0
asked p inits = 0
asked p places = 0
asked p source_time = 0
asked p reconfigure_time = 0
asked p terminate_time = 0
asked p (sends_packet e) = 0
asked p (is_reconfigured open_socket done) = 0
asked p (syncs samples) = 0
asked p (closes throws) = 0
asked p (polls now queued) = 0

-- How often promise `p` is given out by `source` and `reconfigure`.
abbrev pub given : Promise → List Call → ℕ
given p [] = 0
given p (c ∷ cs) = asked p c + given p cs

pub settled-append :
    (p : Promise) (es fs : List Event) → settled p (es ++ fs) ≡ settled p es + settled p fs
settled-append p [] fs = omega arith
settled-append p (posts m ∷ es) fs = settled-append p es fs
settled-append p (sends m ∷ es) fs = settled-append p es fs
settled-append p (settles q b ∷ es) fs = omega (arith, settled-append p es fs)
settled-append p (sets_timer t ∷ es) fs = settled-append p es fs
settled-append p (clears_timer t ∷ es) fs = settled-append p es fs
settled-append p (terminates ∷ es) fs = settled-append p es fs
settled-append p (reports ∷ es) fs = settled-append p es fs
settled-append p (gives_up e ∷ es) fs = settled-append p es fs

-- The transport's calls settle nothing.
pub settled-deliver :
    (p : Promise) (w : VideoWorker) (es : List Transport.Event) → settled p (deliver w es) ≡ 0
unfolding deliver
settled-deliver p w [] = refl
settled-deliver p w (pauses c ∷ es) = ground (arith, settled-deliver p w es)
settled-deliver p w (resumes c ∷ es) = ground (arith, settled-deliver p w es)
settled-deliver p w (fails e ∷ es) = settled-deliver p w es

-- The settlements made and still owed are those owed before and `new` more.
abbrev pub Balances : Promise → ℕ → VideoWorker → Outcome → Type 0
Balances p new w (u, es) = settled p es + owed p u ≡ owed p w + new

pub reject_source-Balances :
    (p : Promise) (w : VideoWorker)
    → Balances p 0 w (record w { pending_source = none }, reject_source w.pending_source)
reject_source-Balances ready_promise w = ground arith
reject_source-Balances close_promise w = ground arith
reject_source-Balances (source_promise q) w = ground arith
reject_source-Balances (reconfigure_promise q) w = ground arith

pub reject_reconfigure-Balances :
    (p : Promise) (w : VideoWorker)
    → Balances p 0 w
        (record w { pending_reconfigure = none }, reject_reconfigure w.pending_reconfigure)
reject_reconfigure-Balances ready_promise w = ground arith
reject_reconfigure-Balances close_promise w = ground arith
reject_reconfigure-Balances (source_promise q) w = ground arith
reject_reconfigure-Balances (reconfigure_promise q) w = ground arith

-- One outcome after another.
pub Balances-append :
    (p : Promise) (m n : ℕ) (w u v : VideoWorker) (es fs : List Event)
    → Balances p m w (u, es)
    → Balances p n u (v, fs)
    → Balances p (m + n) w (v, es ++ fs)
Balances-append p m n w u v es fs a b = omega (arith, settled-append p es fs)

pub reject_pending-Balances : (p : Promise) (w : VideoWorker) → Balances p 0 w (reject_pending w)
unfolding reject_pending
reject_pending-Balances p w =
    let u : VideoWorker = record w { pending_source = none } in
    Balances-append p 0 0 w u (reject_pending w).0 (reject_source w.pending_source)
      (reject_reconfigure w.pending_reconfigure) (reject_source-Balances p w)
      (reject_reconfigure-Balances p u)

pub reject_ready-Balances : (p : Promise) (w : VideoWorker) → Balances p 0 w (reject_ready w)
unfolding reject_ready
reject_ready-Balances ready_promise w = ground arith
reject_ready-Balances close_promise w = ground arith
reject_ready-Balances (source_promise q) w = ground arith
reject_ready-Balances (reconfigure_promise q) w = ground arith

pub terminate-Balances : (p : Promise) (w : VideoWorker) → Balances p 0 w (terminate w)
unfolding terminate
terminate-Balances ready_promise w = ground arith
terminate-Balances close_promise w = ground arith
terminate-Balances (source_promise q) w = ground arith
terminate-Balances (reconfigure_promise q) w = ground arith

pub after_fail :
    (p : Promise) (b : Bool) (w u v x y : VideoWorker) (es fs gs hs : List Event)
    → Balances p 0 w (u, es)
    → Balances p 0 u (v, fs)
    → owed p x ≡ owed p v
    → Balances p 0 x (y, gs)
    → settled p hs ≡ 0
    → Balances p 0 w (if b then (v, es ++ fs) else (y, es ++ (fs ++ (gs ++ hs))))
after_fail p true w u v x y es fs gs hs a b c d e = omega (arith, settled-append p es fs)
after_fail p false w u v x y es fs gs hs a b c d e = omega (
  arith,
  settled-append p es (fs ++ (gs ++ hs)),
  settled-append p fs (gs ++ hs),
  settled-append p gs hs,
)

pub fail-Balances : (p : Promise) (w : VideoWorker) → Balances p 0 w (fail w)
unfolding fail
fail-Balances p w =
    let (u, es) = reject_pending w in
    let (v, fs) = reject_ready u in
    let x : VideoWorker = record v { closed = true } in
    let (y, gs) = terminate x in
    let hs : List Event = if w.ready_settled then reports ∷ [] else [] in
    after_fail p w.closed w u v x y es fs gs hs (reject_pending-Balances p w)
      (reject_ready-Balances p u) refl (terminate-Balances p x) (silent w.ready_settled)
  where
    silent : (b : Bool) → settled p (if b then reports ∷ [] else []) ≡ 0
    silent true = refl
    silent false = refl
