-- ===== src/Publisher/Session/Held.antt =====
-- What the sources of a session hold, in `installVideoSource`, `installAudioSource`, `removeVideoSource`
-- and the functions of streamer.js that these call. Every lemma counts the resources in any weights.
use vrcstreamer.Common.{
  ==_iff, ℕ, ◌+◌, ◌≤◌, ◌≡◌, refl, ap, inl, inr, Bool, true, false, not, Option, none, some, List,
  [], ◌∷◌, ◌++◌, arith, if◌then◌else◌, Bool-cases, is_some,
}
use vrcstreamer.Publisher.Session.{
  Resource, stream, encoder, socket, context, SourceKind, mic, screen, video, Source, Session,
  Command, video_start, video_stop, Event, acquires, releases, connects, disconnects, sends,
  closes_video, shows_placeholder, sets_video_source, sets_stop_timer, clears_stop_timer,
  applies_settings, closes_transport, rejects_swap, releases_wake_lock, clears_stats_timer, alerts,
  Active, send_command, is_other, stop_active_video, show_active_video_placeholder,
  stop_timer_fires, let_go, dispose_audio_source, is_shown, dispose_video_source, source_of,
  set_source, is_source, remove_audio_source, remove_video_source, install_audio_source,
  put_audio_source, Installing, install_video_source, Installation, set_video, forget_video,
  install_succeeds, install_fails, set_video_source_hidden,
}

pub dispose_video_source-none :
    (is_open : Bool) (o : Option Source) (stop_stream hold : Bool)
    → (dispose_video_source none is_open o stop_stream hold).0 ≡ none
unfolding dispose_video_source is_shown
dispose_video_source-none is_open none stop_stream hold = refl
dispose_video_source-none is_open (some v) stop_stream hold = refl

module _ (w : Resource → ℕ) where
  -- The weight of what the events acquire and release.
  abbrev pub gained : List Event → ℕ
  gained [] = 0
  gained (acquires r ∷ es) = w r + gained es
  gained (e ∷ es) = gained es

  abbrev pub given_back : List Event → ℕ
  given_back [] = 0
  given_back (releases r ∷ es) = w r + given_back es
  given_back (e ∷ es) = given_back es

  abbrev pub weight_some : (ℕ → Resource) → Option ℕ → ℕ
  weight_some r none = 0
  weight_some r (some n) = w (r n)

  abbrev pub in_source : Option Source → ℕ
  in_source none = 0
  in_source (some s) = w (stream s.media_stream)

  -- The weight of what a session holds.
  abbrev pub in_session : Active → ℕ
  in_session none = 0
  in_session (some s) =
      w (encoder s.encoder_id)
      + weight_some encoder s.preparing
      + weight_some encoder s.swap
      + w (socket s.ws)
      + w (context s.audio_context)
      + in_source s.mic_source
      + in_source s.screen_source
      + in_source s.video_source

  pub gained-append : (es fs : List Event) → gained (es ++ fs) ≡ gained es + gained fs
  gained-append [] fs = omega arith
  gained-append (acquires r ∷ es) fs = omega (arith, gained-append es fs)
  gained-append (releases r ∷ es) fs = gained-append es fs
  gained-append (connects n ∷ es) fs = gained-append es fs
  gained-append (disconnects n ∷ es) fs = gained-append es fs
  gained-append (sends c ∷ es) fs = gained-append es fs
  gained-append (closes_video n ∷ es) fs = gained-append es fs
  gained-append (shows_placeholder n ∷ es) fs = gained-append es fs
  gained-append (sets_video_source n ∷ es) fs = gained-append es fs
  gained-append (sets_stop_timer n ∷ es) fs = gained-append es fs
  gained-append (clears_stop_timer n ∷ es) fs = gained-append es fs
  gained-append (applies_settings n b ∷ es) fs = gained-append es fs
  gained-append (closes_transport ∷ es) fs = gained-append es fs
  gained-append (rejects_swap ∷ es) fs = gained-append es fs
  gained-append (releases_wake_lock ∷ es) fs = gained-append es fs
  gained-append (clears_stats_timer ∷ es) fs = gained-append es fs
  gained-append (alerts ∷ es) fs = gained-append es fs

  pub given_back-append :
      (es fs : List Event) → given_back (es ++ fs) ≡ given_back es + given_back fs
  given_back-append [] fs = omega arith
  given_back-append (releases r ∷ es) fs = omega (arith, given_back-append es fs)
  given_back-append (acquires r ∷ es) fs = given_back-append es fs
  given_back-append (connects n ∷ es) fs = given_back-append es fs
  given_back-append (disconnects n ∷ es) fs = given_back-append es fs
  given_back-append (sends c ∷ es) fs = given_back-append es fs
  given_back-append (closes_video n ∷ es) fs = given_back-append es fs
  given_back-append (shows_placeholder n ∷ es) fs = given_back-append es fs
  given_back-append (sets_video_source n ∷ es) fs = given_back-append es fs
  given_back-append (sets_stop_timer n ∷ es) fs = given_back-append es fs
  given_back-append (clears_stop_timer n ∷ es) fs = given_back-append es fs
  given_back-append (applies_settings n b ∷ es) fs = given_back-append es fs
  given_back-append (closes_transport ∷ es) fs = given_back-append es fs
  given_back-append (rejects_swap ∷ es) fs = given_back-append es fs
  given_back-append (releases_wake_lock ∷ es) fs = given_back-append es fs
  given_back-append (clears_stats_timer ∷ es) fs = given_back-append es fs
  given_back-append (alerts ∷ es) fs = given_back-append es fs

  -- Nothing is acquired, and `extra` more is given back or held than before.
  abbrev pub Keeps : Active → ℕ → Active × List Event → Type 0
  Keeps a extra (b, es) = (gained es ≡ 0) × (in_session a + extra ≤ given_back es + in_session b)

  pub stop_active_video-Keeps :
      (a : Active) (is_open : Bool) (source : Option ℕ)
      → let (b, es) = stop_active_video a is_open source in
        (gained es ≡ 0) × (given_back es ≡ 0) × (in_session b ≡ in_session a)
  unfolding stop_active_video is_other
  stop_active_video-Keeps none is_open source = (refl, refl, refl)
  stop_active_video-Keeps (some s) is_open source = ground arith

  pub show_active_video_placeholder-Keeps :
      (a : Active) (source : Option ℕ)
      → let (b, es) = show_active_video_placeholder a source in
        (gained es ≡ 0) × (given_back es ≡ 0) × (in_session b ≡ in_session a)
  unfolding show_active_video_placeholder is_other
  show_active_video_placeholder-Keeps none source = (refl, refl, refl)
  show_active_video_placeholder-Keeps (some s) source = ground arith

  pub dispose_audio_source-Keeps :
      (o : Option Source)
      → (gained (dispose_audio_source o true) ≡ 0)
        × (given_back (dispose_audio_source o true) ≡ in_source o)
  unfolding dispose_audio_source
  dispose_audio_source-Keeps none = (refl, refl)
  dispose_audio_source-Keeps (some s) = (refl, omega arith)

  -- A source's video is let go of with its stream.
  pub dispose_video_source-Keeps :
      (a : Active) (is_open : Bool) (o : Option Source) (hold : Bool)
      → let (b, es) = dispose_video_source a is_open o true hold in
        (gained es ≡ 0) × (given_back es ≡ in_source o) × (in_session b ≡ in_session a)
  unfolding dispose_video_source
  dispose_video_source-Keeps a is_open none hold = (refl, refl, refl)
  dispose_video_source-Keeps a is_open (some source) hold =
      by_shown (is_shown a source.media_stream) hold
    where
      by_shown :
          (shown hold : Bool)
          → let (b, es) =
              if shown
              then if hold
                then show_active_video_placeholder a (some source.media_stream)
                else stop_active_video a is_open (some source.media_stream)
              else (a, []) in
            (gained (es ++ let_go source true) ≡ 0)
            × (given_back (es ++ let_go source true) ≡ w (stream source.media_stream))
            × (in_session b ≡ in_session a)
      by_shown false hold = (refl, omega arith, refl)
      by_shown true true =
          let (b, es) = show_active_video_placeholder a (some source.media_stream) in
          let (x, y, z) = show_active_video_placeholder-Keeps a (some source.media_stream) in
          (
            omega (arith, x, gained-append es (let_go source true)),
            omega (arith, y, given_back-append es (let_go source true)),
            z,
          )
      by_shown true false =
          let (b, es) = stop_active_video a is_open (some source.media_stream) in
          let (x, y, z) = stop_active_video-Keeps a is_open (some source.media_stream) in
          (
            omega (arith, x, gained-append es (let_go source true)),
            omega (arith, y, given_back-append es (let_go source true)),
            z,
          )

  set_source_held :
      (s : Session) (kind : SourceKind) (o : Option Source)
      → in_session (some (set_source s kind o)) + in_source (source_of s kind)
        ≡ in_session (some s) + in_source o
  set_source_held s mic o = omega arith
  set_source_held s screen o = omega arith
  set_source_held s video o = omega arith

  pub remove_audio_source-Keeps :
      (a : Active) (kind : SourceKind) (source : ℕ) → Keeps a 0 (remove_audio_source a kind source)
  unfolding remove_audio_source
  remove_audio_source-Keeps none kind source = (refl, omega arith)
  remove_audio_source-Keeps (some s) kind source =
      let (x, y) = dispose_audio_source-Keeps (source_of s kind) in
      let z = set_source_held s kind none in
      elim (Bool-cases (is_source (source_of s kind) source)) [
        | inl e ↦ rw e (x, omega (arith, y, z))
        | inr e ↦ rw e (refl, omega arith)
      ]

  pub remove_video_source-Keeps :
      (a : Active) (is_open : Bool) (source : ℕ) → Keeps a 0 (remove_video_source a is_open source)
  unfolding remove_video_source
  remove_video_source-Keeps none is_open source = (refl, omega arith)
  remove_video_source-Keeps (some s) is_open source =
      let (x, y, z) =
        dispose_video_source-Keeps (some (set_source s video none)) is_open s.video_source true in
      let k = set_source_held s video none in
      elim (Bool-cases (is_source s.video_source source)) [
        | inl e ↦ rw e (x, omega (arith, y, z, k))
        | inr e ↦ rw e (refl, omega arith)
      ]

  pub stop_timer_fires-Keeps :
      (a : Active) (is_open : Bool) (v : ℕ) → Keeps a 0 (stop_timer_fires a is_open v)
  unfolding stop_timer_fires
  stop_timer_fires-Keeps none is_open v = (refl, omega arith)
  stop_timer_fires-Keeps (some s) is_open v =
      ground (arith, stop_active_video-Keeps (some s) is_open none)

  -- `next` in the place of the source of its kind, both old sources given back.
  replace_held :
      (t : Session) (is_open : Bool) (kind : SourceKind) (replaced : Option Source) (next : Source)
      → let (b, es) =
          dispose_video_source (some (set_source t kind (some next))) is_open replaced true true in
        let fs = dispose_audio_source (source_of t kind) true ++ es in
        (gained fs ≡ 0)
        × (in_session (some t) + in_source replaced + w (stream next.media_stream)
            ≡ given_back fs + in_session b)
  replace_held t is_open kind replaced next =
      let u = set_source t kind (some next) in
      let ds = dispose_audio_source (source_of t kind) true in
      let (b, es) = dispose_video_source (some u) is_open replaced true true in
      let (x, y) = dispose_audio_source-Keeps (source_of t kind) in
      let (p, q, r) = dispose_video_source-Keeps (some u) is_open replaced true in
      (
        omega (arith, x, p, gained-append ds es),
        omega (arith, y, q, r, given_back-append ds es, set_source_held t kind (some next)),
      )

  pub install_audio_source-Keeps :
      (a : Active) (is_open : Bool) (kind : SourceKind) (next : Source)
      → Keeps a (w (stream next.media_stream)) (install_audio_source a is_open kind next)
  unfolding install_audio_source put_audio_source
  install_audio_source-Keeps none is_open kind next = (refl, omega arith)
  install_audio_source-Keeps (some s) is_open mic next =
      let (x, y) = replace_held s is_open mic none next in (x, omega (arith, y))
  install_audio_source-Keeps (some s) is_open video next =
      let (x, y) = replace_held s is_open video none next in (x, omega (arith, y))
  install_audio_source-Keeps (some s) is_open screen next = by_video s.video_source refl
    where
      by_video :
          (o : Option Source)
          → s.video_source ≡ o
          → Keeps (some s) (w (stream next.media_stream)) (put_audio_source s is_open screen next o)
      by_video none e =
          let (x, y) = replace_held s is_open screen none next in (x, omega (arith, y))
      by_video (some v) e =
          let t : Session = record s { video_source = none } in
          let (x, y) = replace_held t is_open screen (some v) next in
          let z = set_source_held s video none in (x, omega (arith, y, z, ap in_source e))

  -- What the wait of an installation leaves to it.
  abbrev pub in_installing : Installing → ℕ
  in_installing i = in_source i.previous + in_source i.replaced_screen

  abbrev pub in_wait : Option Installing → ℕ
  in_wait none = 0
  in_wait (some i) = in_installing i

  send_command-Keeps :
      (a : Active) (is_open : Bool) (c : Command)
      → (gained (send_command a is_open c) ≡ 0) × (given_back (send_command a is_open c) ≡ 0)
  unfolding send_command
  send_command-Keeps a is_open c = ground arith

  pub install_video_source-Keeps :
      (a : Active) (is_open enabled : Bool) (next : Source)
      → let (b, es, i) = install_video_source a is_open enabled next in
        (gained es ≡ 0)
        × (in_session a + w (stream next.media_stream) ≡ given_back es + in_session b + in_wait i)
  unfolding install_video_source
  install_video_source-Keeps none is_open enabled next = (refl, omega arith)
  install_video_source-Keeps (some s) is_open false next = (refl, omega arith)
  install_video_source-Keeps (some s) is_open true next =
      let nodes : List Event = if next.has_audio then connects next.media_stream ∷ [] else [] in
      let t : Session = record s { screen_source = none; video_source = some next } in
      let asks : List Event =
        if not (is_some s.video_streamer) then send_command (some t) is_open video_start else [] in
      let (x, y) = send_command-Keeps (some t) is_open video_start in
      let (p, q) : (gained nodes ≡ 0) × (given_back nodes ≡ 0) = ground arith in
      let (m, n) : (gained asks ≡ 0) × (given_back asks ≡ 0) = ground (arith, x, y) in
      (
        omega (arith, p, m, gained-append nodes asks),
        omega (arith, q, n, given_back-append nodes asks),
      )

  set_video_held :
      (a : Active) (n : ℕ) (r : Installation) → in_session (set_video a n r) ≡ in_session a
  unfolding set_video
  set_video_held a n r = ground arith

  pub install_succeeds-Keeps :
      (a : Active) (is_open : Bool) (i : Installing) (r : Installation)
      → Keeps a (in_installing i) (install_succeeds a is_open i r)
  unfolding install_succeeds
  install_succeeds-Keeps a is_open i r =
      let b = set_video a i.next.media_stream r in
      let (c, es) = dispose_video_source b is_open i.previous true false in
      let (x, y, z) = dispose_video_source-Keeps b is_open i.previous false in
      let (p, q) = dispose_audio_source-Keeps i.replaced_screen in
      let fs = dispose_audio_source i.replaced_screen true in
      (
        omega (arith, x, p, gained-append es fs),
        omega (arith, y, z, q, given_back-append es fs, set_video_held a i.next.media_stream r),
      )

  is_source_held : (o : Option Source) (n : ℕ) → is_source o n ≡ true → in_source o ≡ w (stream n)
  is_source_held none n e = absurd (cc e)
  is_source_held (some c) n e =
      let m : c.media_stream ≡ n = (==_iff c.media_stream n).0 e in ap (λ k. w (stream k)) m

  forget_video_held :
      (a : Active) (next : Source)
      → in_session a ≤ in_session (forget_video a next.media_stream) + w (stream next.media_stream)
  unfolding forget_video
  forget_video_held none next = omega arith
  forget_video_held (some s) next = elim (Bool-cases (is_source s.video_source next.media_stream)) [
    | inl e ↦ rw e (omega (arith, is_source_held s.video_source next.media_stream e))
    | inr e ↦ rw e (omega arith)
  ]

  pub install_fails-Keeps :
      (a : Active) (is_open : Bool) (i : Installing) → Keeps a 0 (install_fails a is_open i)
  unfolding install_fails
  install_fails-Keeps a is_open i =
      let b = forget_video a i.next.media_stream in
      let (c, es) = dispose_video_source b is_open (some i.next) true false in
      let (x, y, z) = dispose_video_source-Keeps b is_open (some i.next) false in
      let fs : List Event = if i.start_sent then send_command a is_open video_stop else [] in
      let (p, q) = send_command-Keeps a is_open video_stop in
      let (m, n) : (gained fs ≡ 0) × (given_back fs ≡ 0) = ground (arith, p, q) in
      (
        omega (arith, x, m, gained-append fs es),
        omega (arith, y, z, n, given_back-append fs es, forget_video_held a i.next),
      )

  pub set_video_source_hidden-Keeps :
      (a : Active) (source : ℕ) (hidden : Bool)
      → Keeps a 0 (set_video_source_hidden a source hidden)
  unfolding set_video_source_hidden
  set_video_source_hidden-Keeps none source hidden = (refl, omega arith)
  set_video_source_hidden-Keeps (some s) source hidden = ground arith

  forget_video_le : (a : Active) (n : ℕ) → in_session (forget_video a n) ≤ in_session a
  unfolding forget_video
  forget_video_le none n = omega arith
  forget_video_le (some s) n = elim (Bool-cases (is_source s.video_source n)) [
    | inl e ↦ rw e (omega arith)
    | inr e ↦ rw e (omega arith)
  ]

  -- A failing installation gives back the new source's stream only, and its session holds no more.
  pub install_fails_only :
      (a : Active) (is_open : Bool) (i : Installing)
      → let (b, es) = install_fails a is_open i in
        (given_back es ≡ w (stream i.next.media_stream)) × (in_session b ≤ in_session a)
  unfolding install_fails
  install_fails_only a is_open i =
      let b = forget_video a i.next.media_stream in
      let (c, es) = dispose_video_source b is_open (some i.next) true false in
      let (x, y, z) = dispose_video_source-Keeps b is_open (some i.next) false in
      let fs : List Event = if i.start_sent then send_command a is_open video_stop else [] in
      let (p, q) = send_command-Keeps a is_open video_stop in
      let n : given_back fs ≡ 0 = ground (arith, q) in
      (
        omega (arith, y, n, given_back-append fs es),
        omega (arith, z, forget_video_le a i.next.media_stream),
      )
