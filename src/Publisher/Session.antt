-- ===== src/Publisher/Session.antt =====
-- The session of client/scripts/streamer.js, `app.active`: its sources and its video, and what removes
-- and replaces them. Streams, encoders, sockets, audio contexts and sources are told apart by numbers.
-- The page's elements are left out.
pub mod Lifecycle
pub mod Held
use vrcstreamer.Common.{
  ℕ, zero, suc, ◌+◌, ◌-◌, ◌*◌, ◌/◌, ◌%◌, ◌^◌, ◌≤◌, ◌<◌, min, max, ◌≡◌, refl, sym, ap, ◌∙◌, ◌≢◌, ◌↔◌,
  ◌⊎◌, inl, inr, Bool, true, false, not, ◌&&◌, ◌||◌, Option, none, some, List, [], ◌∷◌, ◌++◌, map,
  append_assoc, append-nil, arith, ltb, leb, ◌==◌, if◌then◌else◌, Bool-cases, Option-cases, is_some,
  length, get_elem?, get_or, set, take, drop, replicate, All,
}

-- What has to be released: a captured stream by stopping its tracks, the others by `close`.
pub data Resource : Type 0 where
  stream encoder socket context : ℕ → Resource

pub data SourceKind : Type 0 where
  mic screen video : SourceKind

-- A source is told apart by its stream. `has_audio` is that it has its audio nodes.
pub record Source : Type 0 where
  pub media_stream : ℕ
  pub has_audio : Bool
  pub video_hidden : Bool

-- The object that `createVideoStreamer` returns.
pub record Video : Type 0 where
  pub ident : ℕ
  pub shown : Option ℕ
  pub stop_timer : Bool

pub record Session : Type 0 where
  pub ws : ℕ
  pub audio_context : ℕ
  pub encoder_id : ℕ
  pub preparing : Option ℕ
  pub swap : Option ℕ
  pub mic_source : Option Source
  pub screen_source : Option Source
  pub video_source : Option Source
  pub video_streamer : Option Video
  pub stats_timer : Bool
  pub wake_lock : Bool

pub data Command : Type 0 where
  video_start video_stop force_resync : Command
  video_quality : ℕ → Command

-- What leaves the functions, oldest first. `acquires` is a resource that the platform has given.
pub data Event : Type 0 where
  acquires releases : Resource → Event
  connects disconnects : ℕ → Event
  sends : Command → Event
  closes_video shows_placeholder sets_video_source sets_stop_timer clears_stop_timer : ℕ → Event
  applies_settings : ℕ → Bool → Event
  closes_transport rejects_swap releases_wake_lock clears_stats_timer alerts : Event

abbrev pub Active : Type 0
Active = Option Session

-- `sendStreamerCommand`; `is_open` is that the session's socket is open.
pub send_command : Active → Bool → Command → List Event
send_command none is_open c = []
send_command (some s) is_open c = if is_open then sends c ∷ [] else []

-- `source && app.active.video.source !== source`.
pub is_other : Option ℕ → Option ℕ → Bool
is_other none shown = false
is_other (some a) none = true
is_other (some a) (some b) = not (a == b)

pub stop_active_video : Active → Bool → Option ℕ → Active × List Event
stop_active_video none is_open source = (none, [])
stop_active_video (some s) is_open source = elim s.video_streamer [
  | none ↦ (some s, [])
  | some v ↦ if is_other source v.shown then (some s, []) else (
    some (record s { video_streamer = none }),
    clears_stop_timer v.ident
        ∷ closes_video v.ident
        ∷ (if is_open then sends video_stop ∷ [] else []),
  )
]

pub show_active_video_placeholder : Active → Option ℕ → Active × List Event
show_active_video_placeholder none source = (none, [])
show_active_video_placeholder (some s) source = elim s.video_streamer [
  | none ↦ (some s, [])
  | some v ↦ if is_other source v.shown then (some s, []) else (
    some (record s { video_streamer = some (record v { shown = none; stop_timer = true }) }),
    clears_stop_timer v.ident ∷ shows_placeholder v.ident ∷ sets_stop_timer v.ident ∷ [],
  )
]

-- The timer that the placeholder sets, for the video `v`.
pub stop_timer_fires : Active → Bool → ℕ → Active × List Event
stop_timer_fires none is_open v = (none, [])
stop_timer_fires (some s) is_open v = elim s.video_streamer [
  | none ↦ (some s, [])
  | some w ↦
      if not (w.ident == v) || is_some s.video_source
      then (some s, [])
      else stop_active_video (some s) is_open none
]

-- The end of `disposeVideoSource` and `disposeAudioSource`.
abbrev pub let_go : Source → Bool → List Event
let_go source stop_stream =
    disconnects source.media_stream
    ∷ (if stop_stream then releases (stream source.media_stream) ∷ [] else [])

pub dispose_audio_source : Option Source → Bool → List Event
dispose_audio_source none stop_stream = []
dispose_audio_source (some source) stop_stream = let_go source stop_stream

-- `app.active && app.active.video && app.active.video.source === source`.
pub is_shown : Active → ℕ → Bool
is_shown none source = false
is_shown (some s) source = elim s.video_streamer [
  | none ↦ false
  | some v ↦ elim v.shown [ none ↦ false | some b ↦ b == source ]
]

pub dispose_video_source : Active → Bool → Option Source → Bool → Bool → Active × List Event
dispose_video_source a is_open none stop_stream hold = (a, [])
dispose_video_source a is_open (some source) stop_stream hold =
    let (b, es) =
      if is_shown a source.media_stream
      then if hold
        then show_active_video_placeholder a (some source.media_stream)
        else stop_active_video a is_open (some source.media_stream)
      else (a, []) in
    (b, es ++ let_go source stop_stream)

abbrev pub source_of : Session → SourceKind → Option Source
source_of s mic = s.mic_source
source_of s screen = s.screen_source
source_of s video = s.video_source

abbrev pub set_source : Session → SourceKind → Option Source → Session
set_source s mic o = record s { mic_source = o }
set_source s screen o = record s { screen_source = o }
set_source s video o = record s { video_source = o }

-- `app.active.sources[kind] === source`.
abbrev pub is_source : Option Source → ℕ → Bool
is_source none source = false
is_source (some c) source = c.media_stream == source

pub remove_audio_source : Active → SourceKind → ℕ → Active × List Event
remove_audio_source none kind source = (none, [])
remove_audio_source (some s) kind source =
    if is_source (source_of s kind) source
    then (some (set_source s kind none), dispose_audio_source (source_of s kind) true)
    else (some s, [])

pub remove_video_source : Active → Bool → ℕ → Active × List Event
remove_video_source none is_open source = (none, [])
remove_video_source (some s) is_open source =
    if is_source s.video_source source
    then dispose_video_source (some (set_source s video none)) is_open s.video_source true true
    else (some s, [])

-- `installAudioSource` in a session, `replaced` being its `replacedVideo`.
pub put_audio_source : Session → Bool → SourceKind → Source → Option Source → Active × List Event
put_audio_source s is_open kind next replaced =
    let t : Session = if is_some replaced then record s { video_source = none } else s in
    let previous = source_of t kind in
    let (b, es) =
      dispose_video_source (some (set_source t kind (some next))) is_open replaced true true in
    (b, connects next.media_stream ∷ (dispose_audio_source previous true ++ es))

-- `installAudioSource` of a microphone or of a screen's sound.
pub install_audio_source : Active → Bool → SourceKind → Source → Active × List Event
install_audio_source none is_open kind next = (none, releases (stream next.media_stream) ∷ [])
install_audio_source (some s) is_open kind next =
    put_audio_source s is_open kind next
      (elim kind [ mic ↦ none | screen ↦ s.video_source | video ↦ none ])

-- `installVideoSource` across its wait: the sources that `next` takes the place of, and whether
-- `video_start` was sent.
pub record Installing : Type 0 where
  pub next : Source
  pub previous : Option Source
  pub replaced_screen : Option Source
  pub start_sent : Bool

-- Up to the wait; `none` is that it ended at once. `enabled` is `app.serverVideoEnabled()`.
pub install_video_source : Active → Bool → Bool → Source → Active × List Event × Option Installing
install_video_source none is_open enabled next =
    (none, releases (stream next.media_stream) ∷ [], none)
install_video_source (some s) is_open enabled next =
    let t : Session = record s { screen_source = none; video_source = some next } in
    let start = not (is_some s.video_streamer) in
    if not enabled then (some s, releases (stream next.media_stream) ∷ [], none) else (
      some t,
      (if next.has_audio then connects next.media_stream ∷ [] else [])
          ++ (if start then send_command (some t) is_open video_start else []),
      some (record {
        next = next;
        previous = s.video_source;
        replaced_screen = s.screen_source;
        start_sent = start;
      }),
    )

-- What the wait gave: the running video took the source over, a new one was created for the session
-- with the socket `ws`, or it failed.
pub data Installation : Type 0 where
  source_set : Installation
  created : ℕ → Installation
  failed : Installation

-- The wait's result on the session's video.
pub set_video : Active → ℕ → Installation → Active
set_video none next r = none
set_video (some s) next failed = some s
set_video (some s) next (created v) = some (record s {
  video_streamer = some (record { ident = v; shown = some next; stop_timer = false });
})
set_video (some s) next source_set = elim s.video_streamer [
  | none ↦ some s
  | some v ↦
      some (record s { video_streamer = some (record v { shown = some next; stop_timer = false }) })
]

-- `if (app.active && app.active.sources.video === next) app.active.sources.video = null;`
pub forget_video : Active → ℕ → Active
forget_video none next = none
forget_video (some s) next =
    some (if is_source s.video_source next then record s { video_source = none } else s)

pub install_succeeds : Active → Bool → Installing → Installation → Active × List Event
install_succeeds a is_open i r =
    let (b, es) =
      dispose_video_source (set_video a i.next.media_stream r) is_open i.previous true false in
    (b, es ++ dispose_audio_source i.replaced_screen true)

pub install_fails : Active → Bool → Installing → Active × List Event
install_fails a is_open i =
    let stop = if i.start_sent then send_command a is_open video_stop else [] in
    let (b, es) =
      dispose_video_source (forget_video a i.next.media_stream) is_open (some i.next) true false in
    (b, stop ++ es)

-- `setVideoSourceHidden` of a video source, up to its wait.
pub set_video_source_hidden : Active → ℕ → Bool → Active × List Event
set_video_source_hidden none source hidden = (none, applies_settings source hidden ∷ [])
set_video_source_hidden (some s) source hidden = elim s.video_source [
  | none ↦ (some s, applies_settings source hidden ∷ [])
  | some c ↦
      let t : Session = record s { video_source = some (record c { video_hidden = hidden }) } in
      let settings = applies_settings source hidden in
      if not (c.media_stream == source) then (some s, settings ∷ []) else elim s.video_streamer [
        | none ↦ (some t, settings ∷ [])
        | some v ↦
            let u : Video = record v { shown = some source; stop_timer = false } in
            if hidden
            then (
              some (record t { video_streamer = some u }),
              settings ∷ clears_stop_timer v.ident ∷ shows_placeholder v.ident ∷ [],
            )
            else (
              some (record t { video_streamer = some (record v { stop_timer = false }) }),
              settings ∷ clears_stop_timer v.ident ∷ sets_video_source v.ident ∷ [],
            )
      ]
]

-- `forceResync`, with its result.
pub force_resync_now : Active → Bool → List Event × Bool
force_resync_now none is_open = ([], false)
force_resync_now (some s) is_open = if is_open then (sends force_resync ∷ [], true) else ([], false)
