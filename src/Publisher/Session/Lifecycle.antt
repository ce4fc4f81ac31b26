-- ===== src/Publisher/Session/Lifecycle.antt =====
-- The life of a session in client/scripts/streamer.js: `start`, `addOrReplaceSource`, `failActive`, `stop`,
-- `cleanup`, and of `replaceAudioEncoder` the encoders, cut at their waits. A run is any order of these
-- pieces with the page's calls. A stream without tracks, which is stopped at once, is its error alone.
pub mod Released
pub mod Replacing
pub mod Leaks
pub mod Early
pub mod Runs
pub mod Tests
use vrcstreamer.Common.{
  ℕ, zero, suc, ◌+◌, ◌-◌, ◌*◌, ◌/◌, ◌%◌, ◌^◌, ◌≤◌, ◌<◌, min, max, ◌≡◌, refl, sym, ap, ◌∙◌, ◌≢◌, ◌↔◌,
  ◌⊎◌, inl, inr, Bool, true, false, not, ◌&&◌, ◌||◌, Option, none, some, List, [], ◌∷◌, ◌++◌, map,
  append_assoc, append-nil, arith, ltb, leb, ◌==◌, if◌then◌else◌, Bool-cases, Option-cases, is_some,
  length, get_elem?, get_or, set, take, drop, replicate, All,
}
use vrcstreamer.Publisher.Session.{
  Resource, stream, encoder, socket, context, SourceKind, mic, screen, video, Source, Video,
  Session, Event, acquires, releases, closes_video, closes_transport, rejects_swap,
  releases_wake_lock, clears_stats_timer, alerts, Active, stop_timer_fires, dispose_audio_source,
  dispose_video_source, remove_audio_source, remove_video_source, install_audio_source, Installing,
  install_video_source, Installation, failed, source_set, created, install_succeeds, install_fails,
  set_video_source_hidden,
}

-- What `start` has got so far.
pub record Attempt : Type 0 where
  pub kind : SourceKind
  pub media_stream : Option ℕ
  pub encoder_id : Option ℕ
  pub ws : Option ℕ
  pub audio_context : Option ℕ

-- What `app.sourceRequestInFlight` stands for: `addOrReplaceSource` waits for a stream, `start` waits for
-- what it needs or for its audio context, or `installVideoSource`, of either, waits.
pub data Task : Type 0 where
  idle : Task
  asking : SourceKind → Task
  starting : Attempt → Task
  resuming : Attempt → Task
  installing : Option Attempt → Installing → Task

pub record App : Type 0 where
  pub active : Active
  pub task : Task

abbrev pub Outcome : Type 0
Outcome = App × List Event

abbrev pub release_some : (ℕ → Resource) → Option ℕ → List Event
release_some r none = []
release_some r (some n) = releases (r n) ∷ []

pub cleanup : Active → Bool → Active × List Event
cleanup none stop_streams = (none, [])
cleanup (some s) stop_streams =
    let (a, hidden) = dispose_video_source none false s.video_source stop_streams true in
    (
      a,
      (if s.stats_timer then clears_stats_timer ∷ [] else [])
          ++ release_some encoder s.preparing
          ++ elim s.swap [ none ↦ [] | some e ↦ releases (encoder e) ∷ rejects_swap ∷ [] ]
          ++ (closes_transport ∷ dispose_audio_source s.mic_source stop_streams)
          ++ dispose_audio_source s.screen_source stop_streams
          ++ hidden
          ++ elim s.video_streamer [ none ↦ [] | some v ↦ closes_video v.ident ∷ [] ]
          ++ (releases (encoder s.encoder_id)
              ∷ (if s.wake_lock then releases_wake_lock ∷ [] else []))
          ++ (releases (socket s.ws) ∷ releases (context s.audio_context) ∷ []),
    )

pub fail_active : Active → Active × List Event
fail_active none = (none, [])
fail_active (some s) = let (a, es) = cleanup (some s) true in (a, es ++ (alerts ∷ []))

abbrev pub is_number : Option ℕ → ℕ → Bool
is_number none n = false
is_number (some e) n = e == n

-- `replaceAudioEncoder` up to its wait for the new encoder `n`; `same` is that the encoder has the mode
-- already.
pub replace_audio_encoder : Active → Bool → ℕ → Active × List Event
replace_audio_encoder none same n = (none, [])
replace_audio_encoder (some s) same n =
    if same || is_some s.preparing || is_some s.swap
    then (some s, [])
    else (some (record s { preparing = some n }), acquires (encoder n) ∷ [])

-- That wait ends, with the encoder or an error. The session is no longer `app.active` if that has not
-- `n` in preparation. A swap whose place is taken, which does not occur, is closed by its own end.
pub replacement_ready : Active → ℕ → Bool → Active × List Event
replacement_ready none n ready = (none, releases (encoder n) ∷ [])
replacement_ready (some s) n ready =
    let t : Session = record s { preparing = none } in
    if not (is_number s.preparing n)
    then (some s, releases (encoder n) ∷ [])
    else if ready
    then (some (record t { swap = some n }), release_some encoder s.swap)
    else (some t, releases (encoder n) ∷ [])

-- `completeAudioEncoderSwap` of the swap to `n`, when the old encoder has been flushed or has failed to.
pub complete_replacement : Active → ℕ → Bool → Active × List Event
complete_replacement none n flushed = (none, releases (encoder n) ∷ rejects_swap ∷ [])
complete_replacement (some s) n flushed =
    let t : Session = record s { swap = none } in
    let (b, es) = fail_active (some t) in
    if not (is_number s.swap n)
    then (some s, releases (encoder n) ∷ rejects_swap ∷ [])
    else if flushed
    then (some (record t { encoder_id = n }), releases (encoder s.encoder_id) ∷ [])
    else (b, releases (encoder n) ∷ rejects_swap ∷ es)

-- `app.active && app.active.ws === ws`.
abbrev pub is_own : Active → Attempt → Bool
is_own none t = false
is_own (some s) t = elim t.ws [ none ↦ false | some n ↦ s.ws == n ]

-- The failure of `start`; `established` is that it has made its session.
pub abandon : Active → Attempt → Bool → Outcome
abandon a t established =
    let (b, es) = cleanup a true in
    if is_own a t
    then (
      record { active = b; task = idle },
      es ++ release_some stream t.media_stream ++ (alerts ∷ []),
    )
    else (
      record { active = a; task = idle },
      release_some encoder t.encoder_id
          ++ release_some socket t.ws
          ++ release_some context t.audio_context
          ++ release_some stream t.media_stream
          ++ (if established then [] else alerts ∷ []),
    )

-- `addOrReplaceSource` up to its wait.
abbrev pub add_or_replace : App → SourceKind → App
add_or_replace u kind = elim u.active [
  | none ↦ u
  | some s ↦ elim u.task [ idle ↦ record u { task = asking kind } | _ ↦ u ]
]

-- `start` up to its wait; `supported` is `!rejectUnsupportedSource(kind)`, `has_code` that the stream
-- code has its length.
pub start : App → Bool → Bool → SourceKind → App
start u supported has_code kind =
    let begun = starting (record {
      kind = kind;
      media_stream = none;
      encoder_id = none;
      ws = none;
      audio_context = none;
    }) in
    if not supported then u else elim u.active [
      | some s ↦ add_or_replace u kind
      | none ↦ elim u.task [ idle ↦ if has_code then record u { task = begun } else u | _ ↦ u ]
    ]

abbrev pub is_video : SourceKind → Bool
is_video video = true
is_video kind = false

-- `installVideoSource` or `installAudioSource`, and whether it throws at once.
pub install :
    Active → Bool → Bool → SourceKind → Source → Active × List Event × Option Installing × Bool
install a is_open enabled video next =
    let (b, es, i) = install_video_source a is_open enabled next in
    (b, es, i, is_some a && not enabled)
install a is_open enabled kind next =
    let (b, es) = install_audio_source a is_open kind next in (b, es, none, false)

-- The end of `start` and of `addOrReplaceSource`, their source installed.
pub finish : Active → Option Attempt → Outcome
finish a none = (record { active = a; task = idle }, [])
finish none (some t) = abandon none (record t { media_stream = none }) true
finish (some s) (some t) =
    (record { active = some (record s { stats_timer = true }); task = idle }, [])

-- What follows an installation that has ended at once or waits.
abbrev pub proceed : Option Attempt → Active × List Event × Option Installing × Bool → Outcome
proceed t (a, es, some i, throws) = (record { active = a; task = installing t i }, es)
proceed t (a, es, none, false) = let (u, fs) = finish a t in (u, es ++ fs)
proceed none (a, es, none, true) = (record { active = a; task = idle }, es)
proceed (some t) (a, es, none, true) = let (u, fs) = abandon a t true in (u, es ++ fs)

-- A stream that comes when `withTimeout` has given its request up: nothing takes it, nothing stops it.
pub stream_late : App → Source → Outcome
stream_late u next = (u, acquires (stream next.media_stream) ∷ [])

-- The stream that the user chose is there: for the request that waits for it, or too late.
pub stream_given : App → Bool → Bool → Source → Outcome
stream_given u is_open enabled next = elim u.task [
  | idle ↦ stream_late u next
  | asking kind ↦
      let got = acquires (stream next.media_stream) in
      let stopped = releases (stream next.media_stream) in
      let (v, es) = proceed none (install u.active is_open enabled kind next) in
      elim u.active [
        | none ↦ (record u { task = idle }, got ∷ stopped ∷ stopped ∷ [])
        | some s ↦ (v, got ∷ (es ++ (if enabled || not (is_video kind) then [] else stopped ∷ [])))
      ]
  | starting t ↦ elim t.media_stream [
    | some m ↦ stream_late u next
    | none ↦ (
      record u { task = starting (record t { media_stream = some next.media_stream }) },
      acquires (stream next.media_stream) ∷ [],
    )
  ]
  | resuming t ↦ stream_late u next
  | installing t i ↦ stream_late u next
]

-- `start` makes its encoder, then its socket, then its audio context.
pub acquire : App → ℕ → Outcome
acquire u n = elim u.task [
  | starting t ↦
      if not (is_some t.media_stream)
      then (u, [])
      else if not (is_some t.encoder_id)
      then (
        record u { task = starting (record t { encoder_id = some n }) },
        acquires (encoder n) ∷ [],
      )
      else if not (is_some t.ws)
      then (record u { task = starting (record t { ws = some n }) }, acquires (socket n) ∷ [])
      else if not (is_some t.audio_context)
      then (
        record u { task = starting (record t { audio_context = some n }) },
        acquires (context n) ∷ [],
      )
      else (u, [])
  | _ ↦ (u, [])
]

abbrev pub new_session : ℕ → ℕ → ℕ → Bool → Session
new_session e w c wake_lock = record {
  ws = w;
  audio_context = c;
  encoder_id = e;
  preparing = none;
  swap = none;
  mic_source = none;
  screen_source = none;
  video_source = none;
  video_streamer = none;
  stats_timer = false;
  wake_lock = wake_lock;
}

-- `app.active = session`, everything there.
pub establish : App → Bool → App
establish u wake_lock = elim u.task [
  | starting t ↦ elim t.encoder_id [
    | none ↦ u
    | some e ↦ elim t.ws [
      | none ↦ u
      | some w ↦ elim t.audio_context [
        | none ↦ u
        | some c ↦ elim u.active [
          | some s ↦ u
          | none ↦ record { active = some (new_session e w c wake_lock); task = resuming t }
        ]
      ]
    ]
  ]
  | _ ↦ u
]

-- After `audioContext.resume()`.
pub resumed : App → Bool → Bool → Source → Outcome
resumed u is_open enabled next = elim u.task [
  | resuming t ↦ elim t.media_stream [
    | none ↦ (u, [])
    | some m ↦
        proceed (some t)
          (install u.active is_open enabled t.kind (record next { media_stream = m }))
  ]
  | _ ↦ (u, [])
]

-- The wait of `installVideoSource` ends.
pub installed : App → Bool → Installation → Outcome
installed u is_open failed = elim u.task [
  | installing o i ↦
      let (a, es) = install_fails u.active is_open i in
      elim o [
        | none ↦
            (record { active = a; task = idle }, es ++ (releases (stream i.next.media_stream) ∷ []))
        | some t ↦ let (v, fs) = abandon a t true in (v, es ++ fs)
      ]
  | _ ↦ (u, [])
]
installed u is_open r = elim u.task [
  | installing o i ↦
      let (a, es) = install_succeeds u.active is_open i r in
      let (v, fs) = finish a o in (v, es ++ fs)
  | _ ↦ (u, [])
]

-- Any other wait ends in an error.
pub wait_fails : App → Outcome
wait_fails u = elim u.task [
  | idle ↦ (u, [])
  | asking kind ↦ (record u { task = idle }, [])
  | starting t ↦ abandon u.active t false
  | resuming t ↦ abandon u.active t true
  | installing t i ↦ (u, [])
]

-- `gives` is a stream for the request that waits, if one does, and `gives_late` one for a request that
-- has been given up.
pub data Call : Type 0 where
  starts : Bool → Bool → SourceKind → Call
  gives : Bool → Source → Call
  gives_late : Source → Call
  gets : ℕ → Call
  establishes : Bool → Call
  resumes : Bool → Source → Call
  installs : Installation → Call
  errs : Call
  removes_audio : SourceKind → ℕ → Call
  removes_video : ℕ → Call
  times_out : ℕ → Call
  hides : ℕ → Bool → Call
  replaces : Bool → ℕ → Call
  is_ready completes : ℕ → Bool → Call
  breaks stops : Call

-- The calls that the task has no part in.
abbrev pub keep_task : App → Active × List Event → Outcome
keep_task u (a, es) = (record u { active = a }, es)

pub step : App → Bool → Call → Outcome
step u is_open (starts supported has_code kind) = (start u supported has_code kind, [])
step u is_open (gives enabled next) = stream_given u is_open enabled next
step u is_open (gives_late next) = stream_late u next
step u is_open (gets n) = acquire u n
step u is_open (establishes wake_lock) = (establish u wake_lock, [])
step u is_open (resumes enabled next) = resumed u is_open enabled next
step u is_open (installs r) = installed u is_open r
step u is_open errs = wait_fails u
step u is_open (removes_audio kind source) = keep_task u (remove_audio_source u.active kind source)
step u is_open (removes_video source) = keep_task u (remove_video_source u.active is_open source)
step u is_open (times_out v) = keep_task u (stop_timer_fires u.active is_open v)
step u is_open (hides source hidden) = keep_task u (set_video_source_hidden u.active source hidden)
step u is_open (replaces same n) = keep_task u (replace_audio_encoder u.active same n)
step u is_open (is_ready n ready) = keep_task u (replacement_ready u.active n ready)
step u is_open (completes n flushed) = keep_task u (complete_replacement u.active n flushed)
step u is_open breaks = keep_task u (fail_active u.active)
step u is_open stops = keep_task u (cleanup u.active true)

pub run : App → List (Bool × Call) → Outcome
run u [] = (u, [])
run u ((is_open, c) ∷ cs) =
    let (v, es) = step u is_open c in let (w, fs) = run v cs in (w, es ++ fs)
