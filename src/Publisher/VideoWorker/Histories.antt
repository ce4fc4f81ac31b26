-- ===== src/Publisher/VideoWorker/Histories.antt =====
-- Histories of the video worker's proxy of streamer.js: no promise is forgotten or settled twice.
use vrcstreamer.Common.{
  ℕ, ◌+◌, ◌≡◌, refl, Bool, true, false, none, List, [], ◌∷◌, arith, if◌then◌else◌, is_some,
}
use vrcstreamer.Publisher.Transport.{Transport, poll}
use vrcstreamer.Publisher.VideoWorker.{
  audio_clock_message, placeholder_message, begin_close, finish_reconfigure, VideoWorker, Promise,
  ready_promise, close_promise, source_promise, reconfigure_promise, Event, posts, reject_pending,
  reject_ready, terminate, fail, on_ready, on_source_ready, on_packet, on_reconfigured,
  on_reconfigure_error, init, sync_audio_clock, placeholder, source, reconfigure, close,
  source_times_out, reconfigure_times_out, Call, becomes_ready, accepts_source, fails_reconfigure,
  is_closed, errs, inits, places, source_time, reconfigure_time, terminate_time, sends_packet,
  is_reconfigured, syncs, asks_source, asks_reconfigure, closes, polls, step, run, created,
}
use vrcstreamer.Publisher.VideoWorker.Promises.{
  on_ready-Balances, on_source_ready-Balances, source-Balances, reconfigure-Balances,
  on_packet-Balances, on_reconfigure_error-Balances,
}
use vrcstreamer.Publisher.VideoWorker.Settlements.{
  settled, owed, asked, given, settled-append, settled-deliver, Balances, terminate-Balances,
  fail-Balances,
}
use vrcstreamer.Publisher.VideoWorker.Endings.{close-Balances, on_reconfigured-Balances}

same-Balances :
    (p : Promise) (b : Bool) (w : VideoWorker) (e : Event)
    → settled p (e ∷ []) ≡ 0
    → Balances p 0 w (if b then (w, []) else (w, e ∷ []))
same-Balances p true w e h = omega arith
same-Balances p false w e h = omega arith

times_out-Balances :
    (p : Promise) (b : Bool) (w : VideoWorker) → Balances p 0 w (if b then fail w else (w, []))
times_out-Balances p true w = fail-Balances p w
times_out-Balances p false w = omega arith

step-Balances : (p : Promise) (w : VideoWorker) (c : Call) → Balances p (asked p c) w (step w c)
unfolding step init placeholder sync_audio_clock source_times_out reconfigure_times_out
step-Balances p w becomes_ready = on_ready-Balances p w
step-Balances p w accepts_source = on_source_ready-Balances p w
step-Balances p w fails_reconfigure = on_reconfigure_error-Balances p w
step-Balances p w is_closed = terminate-Balances p w
step-Balances p w errs = fail-Balances p w
step-Balances p w inits = omega arith
step-Balances p w places = same-Balances p w.closed w (posts placeholder_message) refl
step-Balances p w source_time = times_out-Balances p (is_some w.pending_source) w
step-Balances p w reconfigure_time = times_out-Balances p (is_some w.pending_reconfigure) w
step-Balances p w terminate_time = terminate-Balances p w
step-Balances p w (sends_packet e) = on_packet-Balances p w e
step-Balances p w (is_reconfigured open_socket done) = on_reconfigured-Balances p w open_socket done
step-Balances p w (syncs samples) =
    same-Balances p w.closed w (posts (audio_clock_message samples)) refl
step-Balances p w (asks_source q throws) = source-Balances p w q throws
step-Balances p w (asks_reconfigure q quality throws) = reconfigure-Balances p w q quality throws
step-Balances p w (closes throws) = close-Balances p w throws
step-Balances p w (polls now queued) =
    omega (arith, settled-deliver p w (poll w.transport now queued).1)

run-Balances :
    (p : Promise) (w : VideoWorker) (cs : List Call) → Balances p (given p cs) w (run w cs)
unfolding run
run-Balances p w [] = omega arith
run-Balances p w (c ∷ cs) =
    let (u, es) = step w c in
    omega (arith, step-Balances p w c, run-Balances p u cs, settled-append p es (run u cs).1)

-- Once closed, the proxy owes nothing but the end.
abbrev pub IsClean : VideoWorker → Type 0
IsClean w =
    w.closed ≡ true
    → (w.ready_settled ≡ true) × (w.pending_source ≡ none) × (w.pending_reconfigure ≡ none)

reject_ready-settled : (w : VideoWorker) → (reject_ready w).0.ready_settled ≡ true
unfolding reject_ready
reject_ready-settled w = ground arith

terminate-IsClean : (w : VideoWorker) → IsClean w → IsClean (terminate w).0
unfolding terminate
terminate-IsClean w h = ground arith

fail-IsClean : (w : VideoWorker) → IsClean (fail w).0
unfolding fail reject_pending reject_ready terminate
fail-IsClean w = ground arith

close-IsClean : (w : VideoWorker) (throws : Bool) → IsClean w → IsClean (close w throws).0
unfolding close begin_close reject_pending reject_ready terminate
close-IsClean w throws h = ground arith

on_reconfigured-IsClean :
    (w : VideoWorker) (open_socket : Bool) (done : ℕ)
    → IsClean w
    → IsClean (on_reconfigured w open_socket done).0
unfolding on_reconfigured finish_reconfigure
on_reconfigured-IsClean w open_socket done h =
    ground (arith, fail-IsClean (record w { pending_reconfigure = none }))

step-IsClean : (w : VideoWorker) (c : Call) → IsClean w → IsClean (step w c).0
unfolding step init placeholder sync_audio_clock source_times_out reconfigure_times_out on_ready
    on_source_ready on_reconfigure_error on_packet source reconfigure
step-IsClean w becomes_ready h = ground arith
step-IsClean w accepts_source h = ground arith
step-IsClean w fails_reconfigure h = ground arith
step-IsClean w is_closed h = terminate-IsClean w h
step-IsClean w errs h = fail-IsClean w
step-IsClean w inits h = h
step-IsClean w places h = ground arith
step-IsClean w source_time h = ground (arith, fail-IsClean w)
step-IsClean w reconfigure_time h = ground (arith, fail-IsClean w)
step-IsClean w terminate_time h = terminate-IsClean w h
step-IsClean w (sends_packet e) h = ground arith
step-IsClean w (is_reconfigured open_socket done) h = on_reconfigured-IsClean w open_socket done h
step-IsClean w (syncs samples) h = ground arith
step-IsClean w (asks_source q throws) h = ground arith
step-IsClean w (asks_reconfigure q quality throws) h = ground arith
step-IsClean w (closes throws) h = close-IsClean w throws h
step-IsClean w (polls now queued) h = h

run-IsClean : (w : VideoWorker) (cs : List Call) → IsClean w → IsClean (run w cs).0
unfolding run
run-IsClean w [] h = h
run-IsClean w (c ∷ cs) h = run-IsClean (step w c).0 cs (step-IsClean w c h)

-- The promises of the start and the end exist from the beginning.
abbrev pub starts : Promise → ℕ
starts ready_promise = 1
starts close_promise = 1
starts (source_promise p) = 0
starts (reconfigure_promise p) = 0

owed-created : (p : Promise) (t : Transport) (c : ℕ) → owed p (created t c) ≡ starts p
unfolding created
owed-created ready_promise t c = refl
owed-created close_promise t c = refl
owed-created (source_promise p) t c = refl
owed-created (reconfigure_promise p) t c = refl

-- In every history of a new proxy, each promise is settled (resolved or rejected) or still owed as
-- often, together, as it was given out, the promises of the start and of the end once: none is
-- forgotten, and none is settled twice.
pub run-created-settled :
    (t : Transport) (c : ℕ) (p : Promise) (cs : List Call)
    → let (u, es) = run (created t c) cs in settled p es + owed p u ≡ starts p + given p cs
run-created-settled t c p cs = omega (arith, run-Balances p (created t c) cs, owed-created p t c)

-- The promises that closing settles at once.
abbrev pub IsPrompt : Promise → Type 0
IsPrompt ready_promise = Unit
IsPrompt close_promise = ⊥
IsPrompt (source_promise p) = Unit
IsPrompt (reconfigure_promise p) = Unit

clean_owed :
    (p : Promise) (w : VideoWorker) → IsPrompt p → IsClean w → w.closed ≡ true → owed p w ≡ 0
clean_owed ready_promise w i h e = ground (arith, h e)
clean_owed close_promise w i h e = absurd i
clean_owed (source_promise p) w i h e = ground (arith, h e)
clean_owed (reconfigure_promise p) w i h e = ground (arith, h e)

created-IsClean : (t : Transport) (c : ℕ) → IsClean (created t c)
unfolding created
created-IsClean t c e = absurd (ground arith)

-- Whenever a new proxy has been closed, by `close` or by a failure, the promise of its start and
-- every promise given out by `source` and `reconfigure`, before or since, has been settled.
pub run-created-closed :
    (t : Transport) (c : ℕ) (p : Promise) (cs : List Call)
    → IsPrompt p
    → (run (created t c) cs).0.closed ≡ true
    → settled p (run (created t c) cs).1 ≡ starts p + given p cs
run-created-closed t c p cs i e =
    let clean = run-IsClean (created t c) cs (created-IsClean t c) in
    omega (arith, run-created-settled t c p cs, clean_owed p (run (created t c) cs).0 i clean e)
