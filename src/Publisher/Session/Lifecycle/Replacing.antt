-- ===== src/Publisher/Session/Lifecycle/Replacing.antt =====
-- The encoders of `replaceAudioEncoder` and `completeAudioEncoderSwap` of streamer.js: none of them is
-- lost, whatever becomes of the session meanwhile.
use vrcstreamer.Common.{
  ==_iff, ℕ, ◌+◌, ◌≤◌, ◌≡◌, refl, ap, inl, inr, Bool, true, false, Option, none, some, [], ◌∷◌,
  arith, if◌then◌else◌, Bool-cases,
}
use vrcstreamer.Publisher.Session.{Resource, encoder, Active, releases, rejects_swap, Session}
use vrcstreamer.Publisher.Session.Held.{gained, given_back, in_session, weight_some, Keeps}
use vrcstreamer.Publisher.Session.Lifecycle.{
  is_number, fail_active, release_some, replace_audio_encoder, replacement_ready,
  complete_replacement,
}
use vrcstreamer.Publisher.Session.Lifecycle.Released.{fail_active-Keeps}

module _ (w : Resource → ℕ) where
  pub replace_audio_encoder-held :
      (a : Active) (same : Bool) (n : ℕ)
      → let (b, es) = replace_audio_encoder a same n in
        in_session w a + gained w es ≤ given_back w es + in_session w b
  unfolding replace_audio_encoder
  replace_audio_encoder-held none same n = omega arith
  replace_audio_encoder-held (some s) same n = ground arith

  number_held :
      (o : Option ℕ) (n : ℕ) → is_number o n ≡ true → weight_some w encoder o ≡ w (encoder n)
  number_held none n e = absurd (cc e)
  number_held (some e) n h = let m : e ≡ n = (==_iff e n).0 h in ap (λ k. w (encoder k)) m

  release_some-held :
      (o : Option ℕ)
      → (gained w (release_some encoder o) ≡ 0)
        × (given_back w (release_some encoder o) ≡ weight_some w encoder o)
  release_some-held none = (refl, refl)
  release_some-held (some n) = (refl, omega arith)

  pub replacement_ready-Keeps :
      (a : Active) (n : ℕ) (ready : Bool) → Keeps w a 0 (replacement_ready a n ready)
  unfolding replacement_ready
  replacement_ready-Keeps none n ready = (refl, omega arith)
  replacement_ready-Keeps (some s) n ready = elim (Bool-cases (is_number s.preparing n)) [
    | inr e ↦ rw e (refl, omega arith)
    | inl e ↦ rw e (by_ready ready (number_held s.preparing n e))
  ]
    where
      by_ready :
          (ready : Bool)
          → weight_some w encoder s.preparing ≡ w (encoder n)
          → let t : Session = record s { preparing = none } in
            Keeps w (some s) 0 (
              if ready
              then (some (record t { swap = some n }), release_some encoder s.swap)
              else (some t, releases (encoder n) ∷ []))
      by_ready true e = let (x, y) = release_some-held s.swap in (x, omega (arith, y, e))
      by_ready false e = (refl, omega (arith, e))

  pub complete_replacement-Keeps :
      (a : Active) (n : ℕ) (flushed : Bool) → Keeps w a 0 (complete_replacement a n flushed)
  unfolding complete_replacement
  complete_replacement-Keeps none n flushed = (refl, omega arith)
  complete_replacement-Keeps (some s) n flushed = elim (Bool-cases (is_number s.swap n)) [
    | inr e ↦ rw e (refl, omega arith)
    | inl e ↦ rw e (by_flush flushed (number_held s.swap n e))
  ]
    where
      by_flush :
          (flushed : Bool)
          → weight_some w encoder s.swap ≡ w (encoder n)
          → let t : Session = record s { swap = none } in
            let (b, es) = fail_active (some t) in
            Keeps w (some s) 0 (
              if flushed
              then (some (record t { encoder_id = n }), releases (encoder s.encoder_id) ∷ [])
              else (b, releases (encoder n) ∷ rejects_swap ∷ es))
      by_flush true e = (refl, omega (arith, e))
      by_flush false e =
          let (x, y) = fail_active-Keeps w (some (record s { swap = none })) in
          (x, omega (arith, y, e))
