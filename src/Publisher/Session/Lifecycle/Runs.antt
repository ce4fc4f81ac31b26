-- ===== src/Publisher/Session/Lifecycle/Runs.antt =====
-- Whole runs of the session in streamer.js, and its failures.
use vrcstreamer.Common.{ℕ, ◌+◌, ◌*◌, ◌≤◌, ◌≡◌, refl, Bool, none, List, [], ◌∷◌, arith}
use vrcstreamer.Publisher.Session.{
  install_fails, Resource, stream, releases, Active, Installing, failed, Event, alerts,
}
use vrcstreamer.Publisher.Session.Held.{
  gained, given_back, in_session, gained-append, given_back-append, install_fails_only,
}
use vrcstreamer.Publisher.Session.Lifecycle.{
  Attempt, idle, starting, installing, App, abandon, installed, wait_fails, Call, step, run,
}
use vrcstreamer.Publisher.Session.Lifecycle.Released.{in_attempt, in_app}
use vrcstreamer.Publisher.Session.Lifecycle.Leaks.{IsEarly, lost, step-Balances}
use vrcstreamer.Publisher.Session.Lifecycle.Early.{step-IsEarly}

abbrev pub closed : App
closed = record { active = none; task = idle }

-- What a run lets go of without stopping it.
abbrev pub lost_all : (Resource → ℕ) → App → List (Bool × Call) → ℕ
lost_all w u [] = 0
lost_all w u ((is_open, c) ∷ cs) = lost w u c + lost_all w (step u is_open c).0 cs

run-balances :
    (w : Resource → ℕ) (u : App) (cs : List (Bool × Call))
    → IsEarly u
    → let (v, es) = run u cs in
      in_app w u + gained w es ≤ given_back w es + in_app w v + lost_all w u cs
unfolding run
run-balances w u [] h = omega arith
run-balances w u ((is_open, c) ∷ cs) h =
    let (v, es) = step u is_open c in
    let (x, fs) = run v cs in
    let a = step-Balances w u is_open c h in
    let b = run-balances w v cs (step-IsEarly u is_open c h) in
    omega (arith, a, b, gained-append w es fs, given_back-append w es fs)

-- Whatever the weights of the streams, encoders, sockets and audio contexts: in every sequence of the
-- modelled calls, what the session code has acquired has been given back or is held by the session
-- or by the task that waits, but for two kinds of streams: those of the sources that a failing
-- installation of a video source was to replace, and those that come when their request has been
-- given up.
pub gained-run-closed :
    (w : Resource → ℕ) (cs : List (Bool × Call))
    → let (v, es) = run closed cs in
      gained w es ≤ given_back w es + in_app w v + lost_all w closed cs
gained-run-closed w cs = omega (arith, run-balances w closed cs refl)

-- How often the user is told of an error.
abbrev pub alerted : List Event → ℕ
alerted [] = 0
alerted (alerts ∷ es) = 1 + alerted es
alerted (e ∷ es) = alerted es

-- An error in `start` before the session is there gives back exactly what it had got, once each,
-- alerts the user exactly once, and leaves no session and nothing under way.
pub wait_fails_started :
    (w : Resource → ℕ) (t : Attempt)
    → let (v, es) = wait_fails (record { active = none; task = starting t }) in
      (v ≡ closed) × (gained w es ≡ 0) × (given_back w es ≡ in_attempt w t) × (alerted es ≡ 1)
unfolding wait_fails abandon
wait_fails_started w t = (refl, ground arith, ground arith, ground arith)

-- A video source that is added to a session and whose installation fails: only its own stream is
-- stopped, twice, and nothing else is held than the session's before. The streams of the sources
-- that it was to replace are neither stopped nor held.
pub installed_failed :
    (w : Resource → ℕ) (a : Active) (is_open : Bool) (i : Installing)
    → let (v, es) = installed (record { active = a; task = installing none i }) is_open failed in
      (given_back w es ≡ 2 * w (stream i.next.media_stream)) × (in_app w v ≤ in_session w a)
unfolding installed
installed_failed w a is_open i =
    let (b, es) = install_fails a is_open i in
    let (x, y) = install_fails_only w a is_open i in
    (
      omega (arith, x, given_back-append w es (releases (stream i.next.media_stream) ∷ [])),
      omega (arith, y),
    )
