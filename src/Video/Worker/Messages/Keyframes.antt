-- ===== src/Video/Worker/Messages/Keyframes.antt =====
-- Key frames and pauses in video-worker.js.
use vrcstreamer.Video.Clock.{audio_clock_keyframe_gap_ms}
use vrcstreamer.Common.{
  ℕ, ◌+◌, ◌-◌, ◌*◌, ◌≡◌, refl, inl, inr, Bool, true, false, ◌&&◌, ◌||◌, Option, none, some, List,
  [], ◌∷◌, ◌++◌, arith, leb, if◌then◌else◌,
}
use vrcstreamer.Common.Number.{Number}
use vrcstreamer.Video.Worker.{
  clear_pacing_timer, begin_close, Outcome, start_current_output, Worker, Event,
}
use vrcstreamer.Video.Worker.Messages.{
  finish_close, reconfigure_commit, reconfigure_fail, reconfigure_begin, transport_resume,
  clear_source_buffer, resume, Call, audio_clock_keyframe_gap_ms, push_frame, on_source_frame,
  enter_placeholder, transport_pause, step, shift_full, run, sync_audio_clock, close_all, paces,
  syncs, captures, ends_capture, resumes, transport_resumes, reconfigure_fails, transport_pauses,
  reconfigure_begins, begins_close, finishes_close, reconfigure_commits,
}
use vrcstreamer.Video.Worker.Messages.KeyRequests.{
  keys, IsFirstKey, Restarts, keys-append, keys-close_all, silent-append, Forced, Starts, Waits,
  start-Waits, run_pacing-Forced, after_capture, after_resume, after_transport, after_preset,
}

module _ {ℓ} {D : Type ℓ} where
  sync-Waits :
      (w : Worker D) (samples : Option ℕ) (now later : ℕ)
      → Waits w (sync_audio_clock w samples now later)
  unfolding sync_audio_clock
  sync-Waits w none now later = (refl, λ h. h)
  sync-Waits w (some samples) now later =
      let gap =
        w.audio_clock_ready
        && leb (audio_clock_keyframe_gap_ms * 1000) (now - w.audio_clock_updated_at) in
      let u : Worker D = record w {
        force_next_keyframe = w.force_next_keyframe || gap;
        audio_clock_samples = samples;
        audio_clock_updated_at = now;
        audio_clock_ready = true;
      } in
      ground (arith, start-Waits u later)

  Waits-append :
      (w u v : Worker D) (es fs : List Event)
      → Waits w (u, es)
      → Waits u (v, fs)
      → Waits w (v, es ++ fs)
  Waits-append w u v es fs (a, b) (c, d) = (silent-append es fs a c, λ h. d (b h))

  shift_full-Waits : (w : Worker D) → Waits w (shift_full w)
  unfolding shift_full
  shift_full-Waits w = ground arith

  push_frame-force :
      (w : Worker D) (frame now : ℕ)
      → w.force_next_keyframe ≡ true
      → (push_frame w frame now).force_next_keyframe ≡ true
  unfolding push_frame
  push_frame-force w frame now h = ground arith

  on_source_frame-Waits :
      (w : Worker D) (frame now later : ℕ) → Waits w (on_source_frame w frame now later)
  unfolding on_source_frame
  on_source_frame-Waits w frame now later =
      let c : Worker D = record w { source_frames = w.source_frames + 1 } in
      let u = (shift_full c).0 in
      let p = push_frame u frame now in
      let o = start_current_output p later in
      let q = start-Waits p later in
      Waits-append w u o.0 (shift_full c).1 o.1 (shift_full-Waits c)
        (q.0, λ h. q.1 (push_frame-force u frame now h))

  enter_placeholder-Waits : (w : Worker D) (now : ℕ) → Waits w (enter_placeholder w now)
  unfolding enter_placeholder clear_source_buffer
  enter_placeholder-Waits w now =
      let u : Worker D = record w {
        source_buffer = [];
        rendered_source_frame = false;
        placeholder = true;
        force_next_keyframe = true;
      } in
      let o = start_current_output u now in
      Waits-append w u o.0 (close_all w.source_buffer) o.1
        (keys-close_all w.source_buffer, λ _. refl) (start-Waits u now)

  open-Starts :
      (w : Worker D) (b : Bool) (o : Outcome D)
      → b ≡ false
      → Starts o
      → Starts (if b then (w, []) else o)
  open-Starts w b o e s = rw e s

  enter_placeholder-Restarts : (w : Worker D) (now : ℕ) → Starts (enter_placeholder w now)
  unfolding enter_placeholder clear_source_buffer
  enter_placeholder-Restarts w now =
      let u : Worker D = record w {
        source_buffer = [];
        rendered_source_frame = false;
        placeholder = true;
        force_next_keyframe = true;
      } in
      ((enter_placeholder-Waits w now).0, (start-Waits u now).1 refl)

  guarded-Waits :
      (w : Worker D) (b : Bool) (o : Outcome D) → Waits w o → Waits w (if b then (w, []) else o)
  guarded-Waits w true o q = (refl, λ h. h)
  guarded-Waits w false o q = q

  pause-Waits : (w : Worker D) → Waits w (transport_pause w)
  unfolding transport_pause clear_pacing_timer
  pause-Waits w = ground arith

  Waits-Forced :
      (w : Worker D) (o : Outcome D) → w.force_next_keyframe ≡ true → Waits w o → Forced o
  Waits-Forced w o h (a, b) = inl (a, b h)

module _ {ℓ} {D : Type ℓ} ⦃n : Number D⦄ where
  step-Forced : (w : Worker D) (c : Call) → w.force_next_keyframe ≡ true → Forced (step w c)
  unfolding step resume transport_resume reconfigure_begin reconfigure_fail reconfigure_commit
      begin_close clear_pacing_timer finish_close clear_source_buffer
  step-Forced w (paces e) h = run_pacing-Forced w e h
  step-Forced w (syncs samples now later) h =
      let o = sync_audio_clock w samples now later in
      Waits-Forced w (if w.closed then (w, []) else o) h
        (guarded-Waits w w.closed o (sync-Waits w samples now later))
  step-Forced w (captures frame now later) h =
      Waits-Forced w (on_source_frame w frame now later) h (on_source_frame-Waits w frame now later)
  step-Forced w (ends_capture now) h =
      Waits-Forced w (enter_placeholder w now) h (enter_placeholder-Waits w now)
  step-Forced w (resumes now) h =
      let u : Worker D = record w { paused = false; force_next_keyframe = true } in
      let o = start_current_output u now in
      let (a, b) = start-Waits u now in
      Waits-Forced w (if w.closed then (w, []) else o) h
        (guarded-Waits w w.closed o (a, λ _. b refl))
  step-Forced w (transport_resumes now) h =
      let u : Worker D = record w { network_paused = false; force_next_keyframe = true } in
      let o = start_current_output u now in
      let (a, b) = start-Waits u now in
      Waits-Forced w (if w.closed then (w, []) else o) h
        (guarded-Waits w w.closed o (a, λ _. b refl))
  step-Forced w (reconfigure_fails now) h =
      let u : Worker D = record w { paused = false } in
      Waits-Forced u (start_current_output u now) h (start-Waits u now)
  step-Forced w transport_pauses h = Waits-Forced w (transport_pause w) h (pause-Waits w)
  step-Forced w reconfigure_begins h = inl (refl, h)
  step-Forced w begins_close h = inl (refl, h)
  step-Forced w finishes_close h = inl (keys-close_all w.source_buffer, h)
  step-Forced w (reconfigure_commits m now) h = inl (refl, refl)

  run-Forced :
      (w : Worker D) (cs : List Call)
      → w.force_next_keyframe ≡ true
      → IsFirstKey (keys (run w cs).1)
  unfolding run
  run-Forced w [] h = tt
  run-Forced w (c ∷ cs) h = elim (step-Forced w c h) [
    | inl (a, b) ↦ let (u, es) = step w c in rw (keys-append es (run u cs).1, a) (run-Forced u cs b)
    | inr a ↦ let (u, es) = step w c in rw (keys-append es (run u cs).1, a) refl
  ]

  restart-Forced : (w : Worker D) {c : Call} → Restarts c → w.closed ≡ false → Starts (step w c)
  unfolding step resume transport_resume reconfigure_commit
  restart-Forced w (after_capture {now}) o = enter_placeholder-Restarts w now
  restart-Forced w (after_resume {now}) o =
      let u : Worker D = record w { paused = false; force_next_keyframe = true } in
      open-Starts w w.closed (start_current_output u now) o
        ((start-Waits u now).0, (start-Waits u now).1 refl)
  restart-Forced w (after_transport {now}) o =
      let u : Worker D = record w { network_paused = false; force_next_keyframe = true } in
      open-Starts w w.closed (start_current_output u now) o
        ((start-Waits u now).0, (start-Waits u now).1 refl)
  restart-Forced w (after_preset {m} {now}) o = (refl, refl)

  -- While the worker is open, after a resume, after the transport is attached again, after a capture
  -- ends and after a new preset takes effect, the next frame that is encoded is a key frame, whatever
  -- happens in between.
  pub run-IsFirstKey :
      (w : Worker D) (c : Call) (cs : List Call)
      → Restarts c
      → w.closed ≡ false
      → IsFirstKey (keys (run w (c ∷ cs)).1)
  unfolding run
  run-IsFirstKey w c cs r o =
      let (u, es) = step w c in
      let (a, b) = restart-Forced w r o in rw (keys-append es (run u cs).1, a) (run-Forced u cs b)
