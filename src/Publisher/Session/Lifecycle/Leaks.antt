-- ===== src/Publisher/Session/Lifecycle/Leaks.antt =====
-- The resources over a session's whole life in streamer.js: what a run acquires, releases and holds.
use vrcstreamer.Common.{
  ℕ, ◌+◌, ◌≤◌, ◌≡◌, refl, inl, inr, Bool, true, false, not, ◌||◌, Option, none, some, List, [], ◌∷◌,
  ◌++◌, arith, if◌then◌else◌, Option-cases, is_some,
}
use vrcstreamer.Publisher.Session.{
  stop_timer_fires, set_video_source_hidden, Resource, stream, SourceKind, mic, screen, video,
  Source, Event, releases, Active, remove_audio_source, remove_video_source, Installing,
  Installation, failed, source_set, created, install_fails, install_succeeds,
}
use vrcstreamer.Publisher.Session.Held.{
  gained, given_back, weight_some, in_session, in_installing, in_wait, gained-append,
  given_back-append, Keeps, remove_audio_source-Keeps, remove_video_source-Keeps,
  stop_timer_fires-Keeps, install_audio_source-Keeps, install_video_source-Keeps,
  install_succeeds-Keeps, install_fails-Keeps, set_video_source_hidden-Keeps,
}
use vrcstreamer.Publisher.Session.Lifecycle.{
  gives_late, stream_late, Attempt, Task, idle, asking, starting, resuming, installing, App,
  Outcome, cleanup, fail_active, abandon, start, is_video, install, finish, proceed, stream_given,
  acquire, establish, resumed, installed, wait_fails, Call, starts, gives, gets, establishes,
  resumes, installs, errs, removes_audio, removes_video, times_out, hides, breaks, stops, replaces,
  is_ready, completes, replacement_ready, complete_replacement, keep_task, step,
}
use vrcstreamer.Publisher.Session.Lifecycle.Replacing.{
  replace_audio_encoder-held, replacement_ready-Keeps, complete_replacement-Keeps,
}
use vrcstreamer.Publisher.Session.Lifecycle.Released.{
  cleanup-Keeps, fail_active-Keeps, in_app, Returns, abandon-given,
}

abbrev at : Active → Task → App
at a t = record { active = a; task = t }

abbrev pub is_starting : Task → Bool
is_starting idle = false
is_starting (asking kind) = false
is_starting (starting t) = true
is_starting (resuming t) = false
is_starting (installing t i) = false

-- There is no session yet while `start` gets what it needs.
abbrev pub IsEarly : App → Type 0
IsEarly u = (not (is_starting u.task) || not (is_some u.active)) ≡ true

module _ (w : Resource → ℕ) where
  install-Keeps :
      (a : Active) (is_open enabled : Bool) (kind : SourceKind) (next : Source)
      → let (b, es, i, throws) = install a is_open enabled kind next in
        (gained w es ≡ 0)
        × (in_session w a + w (stream next.media_stream)
            ≤ given_back w es + in_session w b + in_wait w i)
  unfolding install
  install-Keeps a is_open enabled video next =
      let (x, y) = install_video_source-Keeps w a is_open enabled next in (x, omega (arith, y))
  install-Keeps a is_open enabled mic next =
      let (x, y) = install_audio_source-Keeps w a is_open mic next in (x, omega (arith, y))
  install-Keeps a is_open enabled screen next =
      let (x, y) = install_audio_source-Keeps w a is_open screen next in (x, omega (arith, y))

  finish-Returns : (a : Active) (o : Option Attempt) → Returns w (in_session w a) (finish a o)
  unfolding finish
  finish-Returns a none = (refl, omega arith)
  finish-Returns (some s) (some t) = (refl, omega arith)
  finish-Returns none (some t) =
      let (x, y) = (abandon-given w none (record t { media_stream = none }) true).1 in
      (x, omega (arith, y))

  -- `fs` follows `es`.
  follow :
      (held : ℕ) (es : List Event) (u : App) (fs : List Event)
      → gained w es ≡ 0
      → Returns w held (u, fs)
      → Returns w (given_back w es + held) (u, es ++ fs)
  follow held es u fs x (p, q) =
      (omega (arith, x, p, gained-append w es fs), omega (arith, q, given_back-append w es fs))

  proceed-Returns :
      (o : Option Attempt) (a : Active) (es : List Event) (i : Option Installing) (throws : Bool)
      → gained w es ≡ 0
      → Returns w (given_back w es + in_session w a + in_wait w i) (proceed o (a, es, i, throws))
  proceed-Returns o a es (some i) throws x = (x, omega arith)
  proceed-Returns none a es none true x = (x, omega arith)
  proceed-Returns o a es none false x =
      let (u, fs) = finish a o in
      let (p, q) = follow (in_session w a) es u fs x (finish-Returns a o) in (p, omega (arith, q))
  proceed-Returns (some t) a es none true x =
      let (u, fs) = abandon a t true in
      let (m, n) = (abandon-given w a t true).1 in
      let (p, q) = follow (in_session w a + weight_some w stream t.media_stream) es u fs x (m, n) in
      (p, omega (arith, q))

  -- The new source's stream is with it.
  put-Returns :
      (o : Option Attempt) (a : Active) (is_open enabled : Bool) (kind : SourceKind) (next : Source)
      → Returns w
          (in_session w a + w (stream next.media_stream))
          (proceed o (install a is_open enabled kind next))
  put-Returns o a is_open enabled kind next =
      let (b, es, i, throws) = install a is_open enabled kind next in
      let (x, y) = install-Keeps a is_open enabled kind next in
      let (p, q) = proceed-Returns o b es i throws x in (p, omega (arith, y, q))

  -- What is acquired besides is given back or held too.
  abbrev Balances : App → ℕ → Outcome → Type 0
  Balances u lost (v, es) = in_app w u + gained w es ≤ given_back w es + in_app w v + lost

  -- A stream for which no request waits.
  abbrev pub unasked : Task → Source → ℕ
  unasked idle next = w (stream next.media_stream)
  unasked (asking kind) next = 0
  unasked (starting t) next = elim t.media_stream [
    | none ↦ 0
    | some m ↦ w (stream next.media_stream)
  ]
  unasked (resuming t) next = w (stream next.media_stream)
  unasked (installing t i) next = w (stream next.media_stream)

  -- What the page lets go of without stopping it: the streams of the sources that a failing
  -- installation was to replace, and a stream that comes when its request has been given up.
  abbrev pub lost : App → Call → ℕ
  lost u (installs failed) = elim u.task [ installing o i ↦ in_installing w i | _ ↦ 0 ]
  lost u (gives enabled next) = unasked u.task next
  lost u (gives_late next) = w (stream next.media_stream)
  lost u c = 0

  stream_given-Balances :
      (a : Active) (t : Task) (is_open enabled : Bool) (next : Source)
      → Balances (at a t) (unasked t next) (stream_given (at a t) is_open enabled next)
  unfolding stream_given stream_late
  stream_given-Balances a idle is_open enabled next = omega arith
  stream_given-Balances a (resuming t) is_open enabled next = omega arith
  stream_given-Balances a (installing t i) is_open enabled next = omega arith
  stream_given-Balances a (starting t) is_open enabled next = ground arith
  stream_given-Balances none (asking kind) is_open enabled next = omega arith
  stream_given-Balances (some s) (asking kind) is_open enabled next =
      let (v, es) = proceed none (install (some s) is_open enabled kind next) in
      let (x, y) = put-Returns none (some s) is_open enabled kind next in
      let fs : List Event =
        if enabled || not (is_video kind) then [] else releases (stream next.media_stream) ∷ [] in
      let none_gained : gained w fs ≡ 0 = ground arith in
      omega (arith, x, y, none_gained, gained-append w es fs, given_back-append w es fs)

  stream_late-Balances :
      (u : App) (next : Source) → Balances u (w (stream next.media_stream)) (stream_late u next)
  unfolding stream_late
  stream_late-Balances u next = omega arith

  acquire-Balances : (a : Active) (t : Task) (n : ℕ) → Balances (at a t) 0 (acquire (at a t) n)
  unfolding acquire
  acquire-Balances a (starting t) n = ground arith
  acquire-Balances a idle n = omega arith
  acquire-Balances a (asking kind) n = omega arith
  acquire-Balances a (resuming t) n = omega arith
  acquire-Balances a (installing t i) n = omega arith

  establish-Balances :
      (a : Active) (t : Task) (wake_lock : Bool)
      → Balances (at a t) 0 (establish (at a t) wake_lock, [])
  unfolding establish
  establish-Balances a (starting t) wake_lock = ground arith
  establish-Balances a idle wake_lock = omega arith
  establish-Balances a (asking kind) wake_lock = omega arith
  establish-Balances a (resuming t) wake_lock = omega arith
  establish-Balances a (installing t i) wake_lock = omega arith

  resumed-Balances :
      (a : Active) (t : Task) (is_open enabled : Bool) (next : Source)
      → Balances (at a t) 0 (resumed (at a t) is_open enabled next)
  unfolding resumed
  resumed-Balances a idle is_open enabled next = omega arith
  resumed-Balances a (asking kind) is_open enabled next = omega arith
  resumed-Balances a (starting t) is_open enabled next = omega arith
  resumed-Balances a (installing t i) is_open enabled next = omega arith
  resumed-Balances a (resuming t) is_open enabled next = elim (Option-cases t.media_stream) [
    | inl e ↦ rw e (omega arith)
    | inr (m, e) ↦
        let (x, y) =
          put-Returns (some t) a is_open enabled t.kind (record next { media_stream = m }) in
        rw e (omega (arith, x, y))
  ]

  wait_fails-Balances :
      (a : Active) (t : Task) → IsEarly (at a t) → Balances (at a t) 0 (wait_fails (at a t))
  unfolding wait_fails
  wait_fails-Balances a idle h = omega arith
  wait_fails-Balances a (asking kind) h = omega arith
  wait_fails-Balances a (installing t i) h = omega arith
  wait_fails-Balances a (resuming t) h =
      let (x, y) = (abandon-given w a t true).1 in omega (arith, x, y)
  wait_fails-Balances none (starting t) h =
      let (x, y) = (abandon-given w none t false).0 refl in omega (arith, x, y)
  wait_fails-Balances (some s) (starting t) h = absurd (cc h)

  start-Balances :
      (u : App) (supported has_code : Bool) (kind : SourceKind)
      → Balances u 0 (start u supported has_code kind, [])
  unfolding start
  start-Balances u supported has_code kind = ground arith

  installs_well :
      (a : Active) (o : Option Attempt) (i : Installing) (is_open : Bool) (r : Installation)
      → let (b, es) = install_succeeds a is_open i r in
        let (v, fs) = finish b o in Balances (at a (installing o i)) 0 (v, es ++ fs)
  installs_well a o i is_open r =
      let (b, es) = install_succeeds a is_open i r in
      let (x, y) = install_succeeds-Keeps w a is_open i r in
      let (v, fs) = finish b o in
      let (p, q) = finish-Returns b o in
      omega (arith, x, y, p, q, gained-append w es fs, given_back-append w es fs)

  installed-Balances :
      (a : Active) (t : Task) (is_open : Bool) (r : Installation)
      → Balances (at a t) (lost (at a t) (installs r)) (installed (at a t) is_open r)
  unfolding installed
  installed-Balances a (installing none i) is_open failed =
      let (b, es) = install_fails a is_open i in
      let (x, y) = install_fails-Keeps w a is_open i in
      let fs : List Event = releases (stream i.next.media_stream) ∷ [] in
      omega (arith, x, y, gained-append w es fs, given_back-append w es fs)
  installed-Balances a (installing (some t) i) is_open failed =
      let (b, es) = install_fails a is_open i in
      let (x, y) = install_fails-Keeps w a is_open i in
      let (v, fs) = abandon b t true in
      let (p, q) = (abandon-given w b t true).1 in
      omega (arith, x, y, p, q, gained-append w es fs, given_back-append w es fs)
  installed-Balances a (installing o i) is_open source_set = installs_well a o i is_open source_set
  installed-Balances a (installing o i) is_open (created v) =
      installs_well a o i is_open (created v)
  installed-Balances a idle is_open r = ground arith
  installed-Balances a (asking kind) is_open r = ground arith
  installed-Balances a (starting t) is_open r = ground arith
  installed-Balances a (resuming t) is_open r = ground arith

  keep_task-Balances :
      (u : App) (r : Active × List Event) → Keeps w u.active 0 r → Balances u 0 (keep_task u r)
  keep_task-Balances u r (x, y) = omega (arith, x, y)

  pub step-Balances :
      (u : App) (is_open : Bool) (c : Call)
      → IsEarly u
      → let (v, es) = step u is_open c in
        in_app w u + gained w es ≤ given_back w es + in_app w v + lost u c
  unfolding step
  step-Balances u is_open (starts supported has_code kind) h =
      start-Balances u supported has_code kind
  step-Balances u is_open (gives enabled next) h =
      stream_given-Balances u.active u.task is_open enabled next
  step-Balances u is_open (gives_late next) h = stream_late-Balances u next
  step-Balances u is_open (gets n) h = acquire-Balances u.active u.task n
  step-Balances u is_open (establishes wake_lock) h = establish-Balances u.active u.task wake_lock
  step-Balances u is_open (resumes enabled next) h =
      resumed-Balances u.active u.task is_open enabled next
  step-Balances u is_open (installs r) h = installed-Balances u.active u.task is_open r
  step-Balances u is_open errs h = wait_fails-Balances u.active u.task h
  step-Balances u is_open (removes_audio kind source) h =
      keep_task-Balances u (remove_audio_source u.active kind source)
        (remove_audio_source-Keeps w u.active kind source)
  step-Balances u is_open (removes_video source) h =
      keep_task-Balances u (remove_video_source u.active is_open source)
        (remove_video_source-Keeps w u.active is_open source)
  step-Balances u is_open (times_out v) h =
      keep_task-Balances u (stop_timer_fires u.active is_open v)
        (stop_timer_fires-Keeps w u.active is_open v)
  step-Balances u is_open (hides source hidden) h =
      keep_task-Balances u (set_video_source_hidden u.active source hidden)
        (set_video_source_hidden-Keeps w u.active source hidden)
  step-Balances u is_open (replaces same n) h =
      let x = replace_audio_encoder-held w u.active same n in omega (arith, x)
  step-Balances u is_open (is_ready n ready) h =
      keep_task-Balances u (replacement_ready u.active n ready)
        (replacement_ready-Keeps w u.active n ready)
  step-Balances u is_open (completes n flushed) h =
      keep_task-Balances u (complete_replacement u.active n flushed)
        (complete_replacement-Keeps w u.active n flushed)
  step-Balances u is_open breaks h =
      keep_task-Balances u (fail_active u.active) (fail_active-Keeps w u.active)
  step-Balances u is_open stops h =
      let (b, es) = cleanup u.active true in
      let (e, x, y) = cleanup-Keeps w u.active in keep_task-Balances u (b, es) (x, omega (arith, y))
