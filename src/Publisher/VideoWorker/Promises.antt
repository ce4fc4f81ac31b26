-- ===== src/Publisher/VideoWorker/Promises.antt =====
-- The promises that `createVideoWorker` of streamer.js gives out.
use vrcstreamer.Common.{
  ℕ, ◌≡◌, refl, Bool, true, Option, none, some, List, [], ◌∷◌, ◌++◌, arith, ◌==◌, is_some,
}
use vrcstreamer.Publisher.Transport.{
  Transport, poll, abort, attach_video, detach_video, pauses, resumes, fails, other,
}
use vrcstreamer.Publisher.Transport
use vrcstreamer.Publisher.VideoWorker.{
  VideoWorker, Promise, ready_promise, close_promise, source_promise, reconfigure_promise, Event,
  sends, settles, deliver, on_ready, on_source_ready, Environment, packet_sent, on_packet,
  on_reconfigure_error, source, reconfigure, asks_source, asks_reconfigure,
}
use vrcstreamer.Publisher.VideoWorker.Settlements.{
  one, settled, is_pending_source, is_pending_reconfigure, asked, settled-append, settled-deliver,
  Balances, reject_reconfigure-Balances,
}

-- The transport's calls, and then what follows them.
after_deliver :
    (p : Promise) (w : VideoWorker) (es : List Transport.Event) (fs : List Event)
    → settled p (deliver w es ++ fs) ≡ settled p fs
after_deliver p w es fs = omega (arith, settled-append p (deliver w es) fs, settled-deliver p w es)

pub on_ready-Balances : (p : Promise) (w : VideoWorker) → Balances p 0 w (on_ready w)
unfolding on_ready
on_ready-Balances p w = balance p
  where
    a :
        (q : Promise)
        → settled q
            (deliver w (attach_video w.transport w.control).1 ++ (settles ready_promise true ∷ []))
          ≡ settled q (settles ready_promise true ∷ [])
    a q = after_deliver q w (attach_video w.transport w.control).1 (settles ready_promise true ∷ [])

    balance : (q : Promise) → Balances q 0 w (on_ready w)
    balance ready_promise = ground (arith, a ready_promise)
    balance close_promise = ground (arith, a close_promise)
    balance (source_promise r) = ground (arith, a (source_promise r))
    balance (reconfigure_promise r) = ground (arith, a (reconfigure_promise r))

pub on_source_ready-Balances : (p : Promise) (w : VideoWorker) → Balances p 0 w (on_source_ready w)
unfolding on_source_ready
on_source_ready-Balances ready_promise w = ground arith
on_source_ready-Balances close_promise w = ground arith
on_source_ready-Balances (source_promise q) w = ground arith
on_source_ready-Balances (reconfigure_promise q) w = ground arith

source_pending : (s : Option ℕ) (p : ℕ) → is_pending_source s p ≡ true → is_some s ≡ true
source_pending none p e = e
source_pending (some q) p e = refl

reconfigure_pending :
    (s : Option (ℕ × ℕ)) (p : ℕ) → is_pending_reconfigure s p ≡ true → is_some s ≡ true
reconfigure_pending none p e = e
reconfigure_pending (some q) p e = refl

pub source-Balances :
    (p : Promise) (w : VideoWorker) (q : ℕ) (throws : Bool)
    → Balances p (asked p (asks_source q throws)) w (source w q throws)
unfolding source
source-Balances ready_promise w q throws = ground arith
source-Balances close_promise w q throws = ground arith
source-Balances (source_promise r) w q throws = owes_source
  where
    owes_source : Balances (source_promise r) (one (q == r)) w (source w q throws)
    owes_source = ground (arith, source_pending w.pending_source r)
source-Balances (reconfigure_promise r) w q throws = ground arith

pub reconfigure-Balances :
    (p : Promise) (w : VideoWorker) (q quality : ℕ) (throws : Bool)
    → Balances p (asked p (asks_reconfigure q quality throws)) w (reconfigure w q quality throws)
unfolding reconfigure
reconfigure-Balances ready_promise w q quality throws = ground arith
reconfigure-Balances close_promise w q quality throws = ground arith
reconfigure-Balances (source_promise r) w q quality throws = ground arith
reconfigure-Balances (reconfigure_promise r) w q quality throws = owes_reconfigure
  where
    owes_reconfigure :
        Balances (reconfigure_promise r) (one (q == r)) w (reconfigure w q quality throws)
    owes_reconfigure = ground (arith, reconfigure_pending w.pending_reconfigure r)

pub on_packet-Balances :
    (p : Promise) (w : VideoWorker) (e : Environment) → Balances p 0 w (on_packet w e)
unfolding on_packet
on_packet-Balances p w e =
    let (t, es, alive) = poll w.transport e.now e.queued in
    let (x, fs) = abort t (other 0) in
    ground (
      arith,
      settled-deliver p w es,
      after_deliver p w es (deliver w fs),
      settled-deliver p w fs,
      after_deliver p w es (sends packet_sent ∷ []),
    )

pub on_reconfigure_error-Balances :
    (p : Promise) (w : VideoWorker) → Balances p 0 w (on_reconfigure_error w)
unfolding on_reconfigure_error
on_reconfigure_error-Balances p w = reject_reconfigure-Balances p w
