-- ===== src/Publisher/VideoWorker/Tests.antt =====
-- A life of the video worker's proxy of streamer.js.
use vrcstreamer.Common.{◌+◌, ◌≡◌, refl, true, false, none, List, [], ◌∷◌}
use vrcstreamer.Publisher.Transport.{Transport}
use vrcstreamer.Publisher.VideoWorker.{
  source_promise, reconfigure_promise, Call, step, init, on_ready, source, on_source_ready,
  reconfigure, fail, reject_pending, reject_ready, terminate, becomes_ready, accepts_source, errs,
  inits, asks_source, asks_reconfigure, run, created,
}
use vrcstreamer.Publisher.VideoWorker.Settlements.{settled, owed}
use vrcstreamer.Publisher.VideoWorker.Histories.{run-created-settled, run-created-closed}

abbrev calm : Transport
calm = record { congested_at = 0; failed = false; video_control = none; video_paused = false }

-- The worker is started; a second source is refused while the first is pending; the first is taken
-- over; a reconfiguration is under way when the worker fails.
abbrev calls : List Call
calls =
    inits
    ∷ becomes_ready
    ∷ asks_source 1 false
    ∷ asks_source 2 false
    ∷ accepts_source
    ∷ asks_reconfigure 3 4 false
    ∷ errs
    ∷ asks_reconfigure 5 4 false
    ∷ []

is_over : (run (created calm 9) calls).0.closed ≡ true
unfolding run step init on_ready source on_source_ready reconfigure fail reject_pending reject_ready
    terminate created
is_over = refl

run-created-settled_example :
    settled (source_promise 2) (run (created calm 9) calls).1
      + owed (source_promise 2) (run (created calm 9) calls).0
    ≡ 1
run-created-settled_example = run-created-settled calm 9 (source_promise 2) calls

run-created-closed_example : settled (reconfigure_promise 3) (run (created calm 9) calls).1 ≡ 1
run-created-closed_example = run-created-closed calm 9 (reconfigure_promise 3) calls tt is_over
