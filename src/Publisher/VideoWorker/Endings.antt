-- ===== src/Publisher/VideoWorker/Endings.antt =====
-- The end of the video worker's proxy and of its reconfigurations, streamer.js, and its promises.
use vrcstreamer.Common.{
  ℕ, zero, suc, ◌+◌, ◌≡◌, refl, ap, ◌∙◌, Bool, true, false, ◌&&◌, Option, none, some, List, [], ◌∷◌,
  ◌++◌, arith, leb, if◌then◌else◌, take,
}
use vrcstreamer.Publisher.VideoWorker.{
  reconfigure_timer, terminate_timer, close_message, quality_sent, reset_sent, resume_message,
  begin_close, finish_reconfigure, VideoWorker, Closing, unasked, awaited, resolved, Promise,
  ready_promise, close_promise, source_promise, reconfigure_promise, Event, posts, sends, settles,
  sets_timer, clears_timer, reject_pending, reject_ready, terminate, fail, on_reconfigured, close,
}
use vrcstreamer.Publisher.VideoWorker.Settlements.{
  is_same, one, settled, is_open, owed, settled-append, Balances, reject_pending-Balances,
  reject_ready-Balances, terminate-Balances, fail-Balances,
}

-- A promise is owed as much while the end is awaited as before `close`.
owed-awaited :
    (p : Promise) (w : VideoWorker)
    → is_open w.closing ≡ true
    → owed p (record w { closing = awaited }) ≡ owed p w
owed-awaited ready_promise w e = refl
owed-awaited close_promise w e = rw e refl
owed-awaited (source_promise q) w e = refl
owed-awaited (reconfigure_promise q) w e = refl

closing-reject_ready : (w : VideoWorker) → (reject_ready w).0.closing ≡ w.closing
unfolding reject_ready
closing-reject_ready w = ground arith

after_close :
    (p : Promise) (w u v y : VideoWorker) (es fs gs : List Event)
    → Balances p 0 w (u, es)
    → Balances p 0 u (v, fs)
    → settled p gs + owed p y ≡ owed p v
    → Balances p 0 w (y, es ++ (fs ++ gs))
after_close p w u v y es fs gs a b c =
    omega (arith, settled-append p es (fs ++ gs), settled-append p fs gs)

begin_close-Balances :
    (p : Promise) (w : VideoWorker) (throws : Bool)
    → is_open w.closing ≡ true
    → Balances p 0 w (begin_close w throws)
unfolding begin_close reject_pending
begin_close-Balances p w throws e = branch throws
  where
    u : VideoWorker
    u = (reject_pending (record w { closed = true })).0

    es : List Event
    es = (reject_pending (record w { closed = true })).1

    v : VideoWorker
    v = (reject_ready u).0

    same : owed p (record v { closing = awaited }) ≡ owed p v
    same = owed-awaited p v (ap is_open (closing-reject_ready u) ∙ e)

    branch : (b : Bool) → Balances p 0 w (begin_close w b)
    branch true =
        let x : VideoWorker = record v { closing = awaited } in
        after_close p w u v (terminate x).0 es (reject_ready u).1 (terminate x).1
          (reject_pending-Balances p w) (reject_ready-Balances p u)
          (omega (arith, terminate-Balances p x, same))
    branch false =
        after_close p w u v (record v { closing = awaited; terminate_timer = true }) es
          (reject_ready u).1 (posts close_message ∷ sets_timer terminate_timer ∷ [])
          (reject_pending-Balances p w) (reject_ready-Balances p u) (omega (arith, same))

pub close-Balances :
    (p : Promise) (w : VideoWorker) (throws : Bool) → Balances p 0 w (close w throws)
unfolding close
close-Balances p w throws = by_closing w.closing refl
  where
    by_closing :
        (c : Closing)
        → w.closing ≡ c
        → Balances p 0 w
            (elim c [ unasked ↦ begin_close w throws | awaited ↦ (w, []) | resolved ↦ (w, []) ])
    by_closing unasked e = begin_close-Balances p w throws (ap is_open e)
    by_closing awaited e = omega arith
    by_closing resolved e = omega arith

-- What a reconfiguration sends and posts before it ends settles nothing.
settled-take :
    (p : Promise) (quality done : ℕ)
    → settled p
        (take done (sends (quality_sent quality) ∷ sends reset_sent ∷ posts resume_message ∷ []))
      ≡ 0
settled-take p quality zero = refl
settled-take p quality (suc zero) = refl
settled-take p quality (suc (suc zero)) = refl
settled-take p quality (suc (suc (suc zero))) = refl
settled-take p quality (suc (suc (suc (suc n)))) = refl

settled-made :
    (p : Promise) (quality done : ℕ) (b : Bool)
    → settled p (
        if b
        then take done (sends (quality_sent quality) ∷ sends reset_sent ∷ posts resume_message ∷ [])
        else [])
      ≡ 0
settled-made p quality done true = settled-take p quality done
settled-made p quality done false = refl

owed_reconfigured :
    (p : Promise) (w : VideoWorker) (q quality : ℕ)
    → w.pending_reconfigure ≡ some (q, quality)
    → one (is_same (reconfigure_promise q) p) + owed p (record w { pending_reconfigure = none })
      ≡ owed p w
owed_reconfigured ready_promise w q quality e = omega arith
owed_reconfigured close_promise w q quality e = omega arith
owed_reconfigured (source_promise r) w q quality e = omega arith
owed_reconfigured (reconfigure_promise r) w q quality e = rw e (omega arith)

finish_reconfigure-Balances :
    (p : Promise) (w : VideoWorker) (q quality : ℕ) (open_socket : Bool) (done : ℕ)
    → w.pending_reconfigure ≡ some (q, quality)
    → Balances p 0 w (finish_reconfigure w q quality open_socket done)
unfolding finish_reconfigure
finish_reconfigure-Balances p w q quality open_socket done e = branch (open_socket && leb 3 done)
  where
    u : VideoWorker
    u = record w { pending_reconfigure = none }

    actions : List Event
    actions = sends (quality_sent quality) ∷ sends reset_sent ∷ posts resume_message ∷ []

    made : List Event
    made = clears_timer reconfigure_timer ∷ (if open_socket then take done actions else [])

    silent : settled p made ≡ 0
    silent = settled-made p quality done open_socket

    branch :
        (b : Bool)
        → Balances p 0 w (
            if b
            then (u, made ++ (settles (reconfigure_promise q) true ∷ []))
            else ((fail u).0, made ++ (settles (reconfigure_promise q) false ∷ (fail u).1)))
    branch true = omega (
      arith,
      silent,
      settled-append p made (settles (reconfigure_promise q) true ∷ []),
      owed_reconfigured p w q quality e,
    )
    branch false = omega (
      arith,
      silent,
      settled-append p made (settles (reconfigure_promise q) false ∷ (fail u).1),
      owed_reconfigured p w q quality e,
      fail-Balances p u,
    )

pub on_reconfigured-Balances :
    (p : Promise) (w : VideoWorker) (open_socket : Bool) (done : ℕ)
    → Balances p 0 w (on_reconfigured w open_socket done)
unfolding on_reconfigured
on_reconfigured-Balances p w open_socket done = by_pending w.pending_reconfigure refl
  where
    by_pending :
        (r : Option (ℕ × ℕ))
        → w.pending_reconfigure ≡ r
        → Balances p 0 w (elim r [
          | none ↦ (w, [])
          | some (q, quality) ↦ finish_reconfigure w q quality open_socket done
        ])
    by_pending none e = omega arith
    by_pending (some (q, quality)) e = finish_reconfigure-Balances p w q quality open_socket done e
