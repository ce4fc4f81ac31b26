-- ===== src/Publisher/Session/Lifecycle/Released.antt =====
-- What the pieces of a session's life acquire and release, in streamer.js's `start`,
-- `addOrReplaceSource`, `failActive` and `cleanup`.
use vrcstreamer.Common.{
  ℕ, ◌+◌, ◌≤◌, ◌≡◌, refl, Bool, true, false, Option, none, some, List, [], ◌∷◌, ◌++◌, arith,
  if◌then◌else◌,
}
use vrcstreamer.Publisher.Session.{
  Resource, stream, encoder, socket, context, Source, Event, releases, closes_video,
  closes_transport, rejects_swap, releases_wake_lock, clears_stats_timer, alerts, Active,
  dispose_audio_source, dispose_video_source,
}
use vrcstreamer.Publisher.Session.Held.{
  dispose_video_source-none, gained, given_back, weight_some, in_source, in_session, in_installing,
  gained-append, given_back-append, Keeps, dispose_audio_source-Keeps, dispose_video_source-Keeps,
}
use vrcstreamer.Publisher.Session.Lifecycle.{
  Attempt, Task, idle, asking, starting, resuming, installing, App, Outcome, release_some, cleanup,
  fail_active, is_own, abandon,
}

module _ (w : Resource → ℕ) where
  -- The events acquire nothing and give back the weight `n`.
  record Gives (es : List Event) (n : ℕ) : Type 0 where
    gains : gained w es ≡ 0
    gives : given_back w es ≡ n

  release_some-Gives :
      (r : ℕ → Resource) (o : Option ℕ) → Gives (release_some r o) (weight_some w r o)
  release_some-Gives r none = record { gains = refl; gives = refl }
  release_some-Gives r (some n) = record { gains = refl; gives = omega arith }

  dispose_audio_source-Gives :
      (o : Option Source) → Gives (dispose_audio_source o true) (in_source w o)
  dispose_audio_source-Gives o =
      let (x, y) = dispose_audio_source-Keeps w o in record { gains = x; gives = y }

  both : {es fs : List Event} {m n : ℕ} → Gives es m → Gives fs n → Gives (es ++ fs) (m + n)
  both {es = es} {fs = fs} g h = record {
    gains = omega (arith, g.gains, h.gains, gained-append w es fs);
    gives = omega (arith, g.gives, h.gives, given_back-append w es fs);
  }

  -- `cleanup` of a session with `stopStreams`, as in `stop`: it gives back all that the session holds,
  -- exactly, in any weights, acquires nothing, and leaves no session.
  pub cleanup-Keeps :
      (a : Active)
      → let (b, es) = cleanup a true in
        (b ≡ none) × (gained w es ≡ 0) × (given_back w es ≡ in_session w a)
  unfolding cleanup
  cleanup-Keeps none = (refl, refl, refl)
  cleanup-Keeps (some s) =
      let (x, y, z) = dispose_video_source-Keeps w none false s.video_source true in
      let timer : Gives (if s.stats_timer then clears_stats_timer ∷ [] else []) 0 = record {
        gains = ground arith;
        gives = ground arith;
      } in
      let swap : Gives
          (elim s.swap [ none ↦ [] | some e ↦ releases (encoder e) ∷ rejects_swap ∷ [] ])
          (weight_some w encoder s.swap) =
        record { gains = ground arith; gives = ground arith } in
      let closed : Gives (closes_transport ∷ []) 0 = record { gains = refl; gives = refl } in
      let mic_part = both closed (dispose_audio_source-Gives s.mic_source) in
      let hidden_part : Gives (dispose_video_source none false s.video_source true true).1
          (in_source w s.video_source) =
        record { gains = x; gives = y } in
      let shown : Gives (elim s.video_streamer [ none ↦ [] | some v ↦ closes_video v.ident ∷ [] ])
          0 =
        record { gains = ground arith; gives = ground arith } in
      let lock : Gives
          (releases (encoder s.encoder_id) ∷ (if s.wake_lock then releases_wake_lock ∷ [] else []))
          (w (encoder s.encoder_id)) =
        record { gains = ground arith; gives = ground arith } in
      let last : Gives (releases (socket s.ws) ∷ releases (context s.audio_context) ∷ [])
          (w (socket s.ws) + w (context s.audio_context)) =
        record { gains = refl; gives = omega arith } in
      let all =
        both
          (both
            (both
              (both
                (both
                  (both (both (both timer (release_some-Gives encoder s.preparing)) swap) mic_part)
                  (dispose_audio_source-Gives s.screen_source))
                hidden_part)
              shown)
            lock)
          last in
      (
        dispose_video_source-none false s.video_source true true,
        all.gains,
        omega (arith, all.gives),
      )

  pub fail_active-Keeps : (a : Active) → Keeps w a 0 (fail_active a)
  unfolding fail_active
  fail_active-Keeps none = (refl, omega arith)
  fail_active-Keeps (some s) =
      let (b, es) = cleanup (some s) true in
      let (x, p, k) = cleanup-Keeps (some s) in
      (
        omega (arith, p, gained-append w es (alerts ∷ [])),
        omega (arith, k, given_back-append w es (alerts ∷ [])),
      )

  abbrev pub in_attempt : Attempt → ℕ
  in_attempt t =
      weight_some w stream t.media_stream
      + weight_some w encoder t.encoder_id
      + weight_some w socket t.ws
      + weight_some w context t.audio_context

  -- What no session holds yet, or any more.
  abbrev pub in_task : Task → ℕ
  in_task idle = 0
  in_task (asking kind) = 0
  in_task (starting t) = in_attempt t
  in_task (resuming t) = weight_some w stream t.media_stream
  in_task (installing t i) = in_installing w i

  abbrev pub in_app : App → ℕ
  in_app u = in_session w u.active + in_task u.task

  -- From something of the weight `held`, nothing is acquired, and all is given back or held.
  abbrev pub Returns : ℕ → Outcome → Type 0
  Returns held (u, es) = (gained w es ≡ 0) × (held ≤ given_back w es + in_app u)

  -- All that an attempt has got is given back, or the session made from it is.
  pub abandon-given :
      (a : Active) (t : Attempt) (established : Bool)
      → (is_own a t ≡ false → Returns (in_session w a + in_attempt t) (abandon a t established))
        × Returns (in_session w a + weight_some w stream t.media_stream) (abandon a t established)
  unfolding abandon
  abandon-given a t established = by_own (is_own a t) refl
    where
      media : Gives (release_some stream t.media_stream) (weight_some w stream t.media_stream)
      media = release_some-Gives stream t.media_stream

      by_own :
          (own : Bool)
          → is_own a t ≡ own
          → (is_own a t ≡ false → Returns (in_session w a + in_attempt t) (abandon a t established))
            × Returns
                (in_session w a + weight_some w stream t.media_stream)
                (abandon a t established)
      by_own true e =
          let (b, es) = cleanup a true in
          let (x, p, k) = cleanup-Keeps a in
          let end : Gives es (in_session w a) = record { gains = p; gives = k } in
          let told : Gives (alerts ∷ []) 0 = record { gains = refl; gives = refl } in
          let all = both (both end media) told in
          rw e (λ h. absurd (cc h), (all.gains, omega (arith, all.gives)))
      by_own false e =
          let told : Gives (if established then [] else alerts ∷ []) 0 = record {
            gains = ground arith;
            gives = ground arith;
          } in
          let all =
            both
              (both
                (both
                  (both ((release_some-Gives encoder t.encoder_id))
                    (release_some-Gives socket t.ws))
                  (release_some-Gives context t.audio_context))
                media)
              told in
          rw e (λ h. (all.gains, omega (arith, all.gives)), (all.gains, omega (arith, all.gives)))
