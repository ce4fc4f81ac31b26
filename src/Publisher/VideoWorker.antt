-- ===== src/Publisher/VideoWorker.antt =====
-- `createVideoWorker` of client/scripts/streamer.js: the streamer's side of the video worker, with the
-- transport that it shares with the audio path. The promises it gives out are told apart by a number
-- that the caller of `source` or `reconfigure` chooses. The statistics are left out.
pub mod Settlements
pub mod Promises
pub mod Endings
pub mod Histories
pub mod Tests
use vrcstreamer.Common.{
  ℕ, zero, suc, ◌+◌, ◌-◌, ◌*◌, ◌/◌, ◌%◌, ◌^◌, ◌≤◌, ◌<◌, min, max, ◌≡◌, refl, sym, ap, ◌∙◌, ◌≢◌, ◌↔◌,
  ◌⊎◌, inl, inr, Bool, true, false, not, ◌&&◌, ◌||◌, Option, none, some, List, [], ◌∷◌, ◌++◌, map,
  append_assoc, append-nil, arith, ltb, leb, ◌==◌, if◌then◌else◌, Bool-cases, Option-cases, is_some,
  length, get_elem?, get_or, set, take, drop, replicate, All,
}
use vrcstreamer.Publisher.Transport.{
  Transport, Failure, poll, abort, attach_video, detach_video, pauses, resumes, fails, other,
}
use vrcstreamer.Publisher.Transport

-- The promise of `close`: `closePromise` not made, made with `closeResolve` set, made and resolved.
pub data Closing : Type 0 where
  unasked awaited resolved : Closing

-- `control` is the identity of `transportControl`; a pending reconfiguration keeps its quality index.
pub record VideoWorker : Type 0 where
  pub closed : Bool
  pub ready_settled : Bool
  pub pending_source : Option ℕ
  pub pending_reconfigure : Option (ℕ × ℕ)
  pub closing : Closing
  pub terminate_timer : Bool
  pub transport_attached : Bool
  pub network_drops : ℕ
  pub transport : Transport
  pub control : ℕ

pub data Promise : Type 0 where
  ready_promise close_promise : Promise
  source_promise reconfigure_promise : ℕ → Promise

pub data Message : Type 0 where
  init_message transport_pause transport_resume source_message placeholder_message resume_message
        close_message :
      Message
  audio_clock_message reconfigure_message : ℕ → Message

pub data Sent : Type 0 where
  packet_sent reset_sent : Sent
  quality_sent : ℕ → Sent

pub data Timer : Type 0 where
  source_timer reconfigure_timer terminate_timer : Timer

-- What leaves the proxy: messages to the worker, frames to the socket, promises that are resolved
-- (`true`) or rejected, timers, `worker.terminate()`, `onError`, and the transport's `onFailure`,
-- which may close the proxy in a later call.
pub data Event : Type 0 where
  posts : Message → Event
  sends : Sent → Event
  settles : Promise → Bool → Event
  sets_timer clears_timer : Timer → Event
  terminates reports : Event
  gives_up : Failure → Event

abbrev pub Outcome : Type 0
Outcome = VideoWorker × List Event

-- The calls that the transport makes, with `transportControl` for its own control.
pub deliver : VideoWorker → List Transport.Event → List Event
deliver w [] = []
deliver w (pauses c ∷ es) =
    let rest = deliver w es in
    if c == w.control && not w.closed then posts transport_pause ∷ rest else rest
deliver w (resumes c ∷ es) =
    let rest = deliver w es in
    if c == w.control && not w.closed then posts transport_resume ∷ rest else rest
deliver w (fails e ∷ es) = gives_up e ∷ deliver w es

abbrev pub reject_source : Option ℕ → List Event
reject_source none = []
reject_source (some p) = clears_timer source_timer ∷ settles (source_promise p) false ∷ []

abbrev pub reject_reconfigure : Option (ℕ × ℕ) → List Event
reject_reconfigure none = []
reject_reconfigure (some (p, quality)) =
    clears_timer reconfigure_timer ∷ settles (reconfigure_promise p) false ∷ []

pub reject_pending : VideoWorker → Outcome
reject_pending w = (
  record w { pending_source = none; pending_reconfigure = none },
  reject_source w.pending_source ++ reject_reconfigure w.pending_reconfigure,
)

-- `if (!readySettled) { readySettled = true; rejectReady(error); }`
pub reject_ready : VideoWorker → Outcome
reject_ready w =
    if w.ready_settled
    then (w, [])
    else (record w { ready_settled = true }, settles ready_promise false ∷ [])

pub terminate : VideoWorker → Outcome
terminate w =
    let t = if w.transport_attached then detach_video w.transport w.control else w.transport in
    let u : VideoWorker = record w {
      terminate_timer = false;
      transport_attached = false;
      transport = t;
    } in
    elim w.closing [
      | awaited ↦ (
        record u { closing = resolved },
        clears_timer terminate_timer ∷ terminates ∷ settles close_promise true ∷ [],
      )
      | unasked ↦ (u, clears_timer terminate_timer ∷ terminates ∷ [])
      | resolved ↦ (u, clears_timer terminate_timer ∷ terminates ∷ [])
    ]

pub fail : VideoWorker → Outcome
fail w =
    let (u, es) = reject_pending w in
    let (v, fs) = reject_ready u in
    let (x, gs) = terminate (record v { closed = true }) in
    if w.closed
    then (v, es ++ fs)
    else (x, es ++ (fs ++ (gs ++ (if w.ready_settled then reports ∷ [] else []))))

pub on_ready : VideoWorker → Outcome
on_ready w =
    let (t, es) = attach_video w.transport w.control in
    if w.ready_settled then (w, []) else (
      record w { transport = t; transport_attached = true; ready_settled = true },
      deliver w es ++ (settles ready_promise true ∷ []),
    )

pub on_source_ready : VideoWorker → Outcome
on_source_ready w = elim w.pending_source [
  | none ↦ (w, [])
  | some p ↦ (
    record w { pending_source = none },
    clears_timer source_timer ∷ settles (source_promise p) true ∷ [],
  )
]

-- What a packet of the worker meets: is its session `app.active` with this socket, is the socket open,
-- the time and the queue that the transport reads, and whether `ws.send` throws.
pub record Environment : Type 0 where
  pub active : Bool
  pub open_socket : Bool
  pub now : ℕ
  pub queued : ℕ
  pub send_throws : Bool

pub on_packet : VideoWorker → Environment → Outcome
on_packet w e =
    let (t, es, alive) = poll w.transport e.now e.queued in
    let (x, fs) = abort t (other 0) in
    let u : VideoWorker = record w { transport = t } in
    if w.closed || not e.active || not e.open_socket
    then (w, [])
    else if not alive
    then (u, deliver w es)
    else if t.video_paused
    then (record u { network_drops = w.network_drops + 1 }, deliver w es)
    else if e.send_throws
    then (record u { transport = x }, deliver w es ++ deliver w fs)
    else (u, deliver w es ++ (sends packet_sent ∷ []))

-- Of the two sends and the post, the first `done` succeed, and the next throws.
pub finish_reconfigure : VideoWorker → ℕ → ℕ → Bool → ℕ → Outcome
finish_reconfigure w p quality open_socket done =
    let u : VideoWorker = record w { pending_reconfigure = none } in
    let actions : List Event =
      sends (quality_sent quality) ∷ sends reset_sent ∷ posts resume_message ∷ [] in
    let made = clears_timer reconfigure_timer ∷ (if open_socket then take done actions else []) in
    let (v, es) = fail u in
    if open_socket && leb 3 done
    then (u, made ++ (settles (reconfigure_promise p) true ∷ []))
    else (v, made ++ (settles (reconfigure_promise p) false ∷ es))

pub on_reconfigured : VideoWorker → Bool → ℕ → Outcome
on_reconfigured w open_socket done = elim w.pending_reconfigure [
  | none ↦ (w, [])
  | some (p, quality) ↦ finish_reconfigure w p quality open_socket done
]

pub on_reconfigure_error : VideoWorker → Outcome
on_reconfigure_error w =
    (record w { pending_reconfigure = none }, reject_reconfigure w.pending_reconfigure)

pub init : VideoWorker → Outcome
init w = (w, posts init_message ∷ [])

pub sync_audio_clock : VideoWorker → ℕ → Outcome
sync_audio_clock w samples =
    if w.closed then (w, []) else (w, posts (audio_clock_message samples) ∷ [])

pub placeholder : VideoWorker → Outcome
placeholder w = if w.closed then (w, []) else (w, posts placeholder_message ∷ [])

-- The capture stream is handed over by `postMessage`, which may throw.
pub source : VideoWorker → ℕ → Bool → Outcome
source w p throws =
    if w.closed || is_some w.pending_source
    then (w, settles (source_promise p) false ∷ [])
    else if throws
    then (
      w,
      sets_timer source_timer ∷ clears_timer source_timer ∷ settles (source_promise p) false ∷ [],
    )
    else (record w { pending_source = some p }, sets_timer source_timer ∷ posts source_message ∷ [])

pub reconfigure : VideoWorker → ℕ → ℕ → Bool → Outcome
reconfigure w p quality throws =
    if w.closed || is_some w.pending_reconfigure
    then (w, settles (reconfigure_promise p) false ∷ [])
    else if throws
    then (
      w,
      sets_timer reconfigure_timer
          ∷ clears_timer reconfigure_timer
          ∷ settles (reconfigure_promise p) false
          ∷ [],
    )
    else (
      record w { pending_reconfigure = some (p, quality) },
      sets_timer reconfigure_timer ∷ posts (reconfigure_message quality) ∷ [],
    )

-- What `close` does when it is called first; posting the message may throw.
pub begin_close : VideoWorker → Bool → Outcome
begin_close w throws =
    let (u, es) = reject_pending (record w { closed = true }) in
    let (v, fs) = reject_ready u in
    let x : VideoWorker = record v { closing = awaited } in
    let (y, gs) = terminate x in
    if throws then (y, es ++ (fs ++ gs)) else (
      record x { terminate_timer = true },
      es ++ (fs ++ (posts close_message ∷ sets_timer terminate_timer ∷ [])),
    )

pub close : VideoWorker → Bool → Outcome
close w throws = elim w.closing [
  | unasked ↦ begin_close w throws
  | awaited ↦ (w, [])
  | resolved ↦ (w, [])
]

-- The two timers of pending requests.
pub source_times_out : VideoWorker → Outcome
source_times_out w = if is_some w.pending_source then fail w else (w, [])

pub reconfigure_times_out : VideoWorker → Outcome
reconfigure_times_out w = if is_some w.pending_reconfigure then fail w else (w, [])

-- A call of a method, a message of the worker, a timer, or a poll of the transport by the audio path.
pub data Call : Type 0 where
  becomes_ready accepts_source fails_reconfigure is_closed errs inits places source_time
        reconfigure_time terminate_time :
      Call
  sends_packet : Environment → Call
  is_reconfigured : Bool → ℕ → Call
  syncs : ℕ → Call
  asks_source : ℕ → Bool → Call
  asks_reconfigure : ℕ → ℕ → Bool → Call
  closes : Bool → Call
  polls : ℕ → ℕ → Call

pub step : VideoWorker → Call → Outcome
step w becomes_ready = on_ready w
step w accepts_source = on_source_ready w
step w fails_reconfigure = on_reconfigure_error w
step w is_closed = terminate w
step w errs = fail w
step w inits = init w
step w places = placeholder w
step w source_time = source_times_out w
step w reconfigure_time = reconfigure_times_out w
step w terminate_time = terminate w
step w (sends_packet e) = on_packet w e
step w (is_reconfigured open_socket done) = on_reconfigured w open_socket done
step w (syncs samples) = sync_audio_clock w samples
step w (asks_source p throws) = source w p throws
step w (asks_reconfigure p quality throws) = reconfigure w p quality throws
step w (closes throws) = close w throws
step w (polls now queued) =
    let (t, es, alive) = poll w.transport now queued in (record w { transport = t }, deliver w es)

pub run : VideoWorker → List Call → Outcome
run w [] = (w, [])
run w (c ∷ cs) = let (u, es) = step w c in let (v, fs) = run u cs in (v, es ++ fs)

pub created : Transport → ℕ → VideoWorker
created t c = record {
  closed = false;
  ready_settled = false;
  pending_source = none;
  pending_reconfigure = none;
  closing = unasked;
  terminate_timer = false;
  transport_attached = false;
  network_drops = 0;
  transport = t;
  control = c;
}
