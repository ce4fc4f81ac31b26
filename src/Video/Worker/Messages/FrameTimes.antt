-- ===== src/Video/Worker/Messages/FrameTimes.antt =====
-- The timestamps of the frames that video-worker.js encodes, through the pacing.
use vrcstreamer.Common.{
  ℕ, suc, ◌≤◌, ◌<◌, ◌≡◌, refl, ap, ◌∙◌, ◌⊎◌, inl, inr, Bool, ◌||◌, Option, none, some, List, [],
  ◌∷◌, ◌++◌, arith, is_some,
}
use vrcstreamer.Common.Int.{pos, next}
use vrcstreamer.Video.Worker.{
  accepted, refused, threw, Submission, close_source, Picture, conclude, choose_picture,
  Environment, clear_pacing_timer, submit_frame, begin_close, Outcome, fail, finish_pacing,
  schedule_next_frame, start_current_output, take_source, Worker, Event, closes, encodes,
  sets_timer, clears_timer, fails,
}
use vrcstreamer.Video.Worker.Messages.{
  clear_pacing_timer, begin_close, start_current_output, fail, Outcome, close_all,
}

-- The timestamps and durations of the frames that are encoded, in order.
abbrev pub frames : List Event → List (ℕ × ℕ)
frames [] = []
frames (closes f ∷ es) = frames es
frames (encodes t d key q p ∷ es) = (t, d) ∷ frames es
frames (sets_timer n ∷ es) = frames es
frames (clears_timer ∷ es) = frames es
frames (fails ∷ es) = frames es

-- From `floor` on, each later than the one before, and each with a positive duration.
abbrev pub IsAscending : ℕ → List (ℕ × ℕ) → Type 0
IsAscending floor [] = Unit
IsAscending floor ((t, d) ∷ ts) = (floor ≤ t) × (0 < d) × IsAscending (suc t) ts

abbrev pub IsFrameRate : ℕ → Type 0
IsFrameRate fps = (0 < fps) × (fps ≤ 1000000)

pub frames-append : (es fs : List Event) → frames (es ++ fs) ≡ frames es ++ frames fs
frames-append [] fs = refl
frames-append (closes f ∷ es) fs = frames-append es fs
frames-append (encodes t d key q p ∷ es) fs = ap (◌∷◌ (t, d)) (frames-append es fs)
frames-append (sets_timer n ∷ es) fs = frames-append es fs
frames-append (clears_timer ∷ es) fs = frames-append es fs
frames-append (fails ∷ es) fs = frames-append es fs

pub frames-close_all : (fs : List ℕ) → frames (close_all fs) ≡ []
frames-close_all [] = refl
frames-close_all (f ∷ fs) = frames-close_all fs

-- The fields that order the frames.
abbrev pub SameTimes {ℓ} : {D : Type ℓ} → Worker D → Worker D → Type 0
SameTimes w u = (u.last_timestamp_us ≡ w.last_timestamp_us) × (u.fps ≡ w.fps)

-- Nothing is encoded and the clock of frames stays.
abbrev pub IsQuiet {ℓ} : {D : Type ℓ} → Worker D → Outcome D → Type 0
IsQuiet w (u, es) = SameTimes w u × (frames es ≡ [])

-- At most one frame, with the timestamp and duration given.
abbrev pub AtMost : ℕ → ℕ → List Event → Type 0
AtMost t d es = (frames es ≡ []) ⊎ (frames es ≡ (t, d) ∷ [])

pub AtMost-append :
    (t d : ℕ) (es fs : List Event) → AtMost t d es → frames fs ≡ [] → AtMost t d (es ++ fs)
AtMost-append t d es fs (inl a) b = inl (rw (frames-append es fs, a, b))
AtMost-append t d es fs (inr a) b = inr (rw (frames-append es fs, a, b))

pub frames-close_source : (source : Option ℕ) → frames (close_source source) ≡ []
frames-close_source none = refl
frames-close_source (some f) = refl

pub silent-append : (es fs : List Event) → frames es ≡ [] → frames fs ≡ [] → frames (es ++ fs) ≡ []
silent-append es fs a b = rw (frames-append es fs, a, b)

module _ {ℓ} {D : Type ℓ} where
  pub schedule-IsQuiet : (w : Worker D) (now : ℕ) → IsQuiet w (schedule_next_frame w now)
  unfolding schedule_next_frame
  schedule-IsQuiet w now = ground arith

  pub start-IsQuiet : (w : Worker D) (now : ℕ) → IsQuiet w (start_current_output w now)
  unfolding start_current_output
  start-IsQuiet w now = ground (arith, schedule-IsQuiet w now)

  pub fail-IsQuiet : (w : Worker D) → IsQuiet w (fail w)
  unfolding fail begin_close clear_pacing_timer
  fail-IsQuiet w = ground arith

  pub take_source-SameTimes : (w : Worker D) (ready : Bool) → SameTimes w (take_source w ready).0
  unfolding take_source
  take_source-SameTimes w ready = ground arith

  abbrev pub Encodes : Worker D → ℕ → ℕ → Outcome D → Type 0
  Encodes w t d (u, es) = SameTimes w u × AtMost t d es

  pub conclude-Encodes :
      (u : Worker D) (source : Option ℕ) (now t d : ℕ) (es : List Event) (r : Submission)
      → AtMost t d es
      → Encodes u t d (conclude u source now es r)
  unfolding conclude
  conclude-Encodes u source now t d es threw h = (
    (fail-IsQuiet u).0,
    AtMost-append t d es _ h (
        silent-append (fail u).1 (close_source source) (fail-IsQuiet u).1
          (frames-close_source source)),
  )
  conclude-Encodes u source now t d es refused h = (
    (schedule-IsQuiet u now).0,
    AtMost-append t d es _ h (
        silent-append (close_source source) (schedule_next_frame u now).1
          (frames-close_source source) (schedule-IsQuiet u now).1),
  )
  conclude-Encodes u source now t d es accepted h =
      let drawn : Worker D = record u {
        rendered_source_frame = u.rendered_source_frame || is_some source;
      } in
      (
        (schedule-IsQuiet drawn now).0,
        AtMost-append t d es _ h (
            silent-append (close_source source) (schedule_next_frame drawn now).1
              (frames-close_source source) (schedule-IsQuiet drawn now).1),
      )

  pub submit_frame-Encodes :
      (w : Worker D) (e : Environment) (picture : Picture) (t d : ℕ)
      → let (u, es, r) = submit_frame w e picture t d in SameTimes w u × AtMost t d es
  unfolding submit_frame
  submit_frame-Encodes w e picture t d = ground arith

  pub finish_pacing-Encodes :
      (w : Worker D) (e : Environment) (source : Option ℕ) (t d : ℕ)
      → Encodes w t d (finish_pacing w e source t d)
  unfolding finish_pacing
  finish_pacing-Encodes w e source t d =
      let (u, es, r) = submit_frame w e (choose_picture w source) t d in
      let (a, b) = submit_frame-Encodes w e (choose_picture w source) t d in
      let (c, h) = conclude-Encodes u source e.schedule_now t d es r b in (ground arith, h)

  -- From the frame clock on: what one call may do to it, and which frames it encodes.
  abbrev pub Advances : Worker D → Outcome D → Type 0
  Advances w (u, es) =
      (u.fps ≡ w.fps)
      × (next w.last_timestamp_us ≤ next u.last_timestamp_us)
      × ((frames es ≡ [])
          ⊎ ((t : ℕ) × (d : ℕ) × (frames es ≡ (t, d) ∷ [])
              × (next w.last_timestamp_us ≤ t)
              × (0 < d)
              × (suc t ≤ next u.last_timestamp_us)))

  pub Quiet-Advances : (w : Worker D) (o : Outcome D) → IsQuiet w o → Advances w o
  Quiet-Advances w o h = (h.0.1, rw h.0.0 (omega arith), inl h.1)

  pub Encodes-Advances :
      (w v : Worker D) (t d : ℕ) (o : Outcome D)
      → v.last_timestamp_us ≡ pos t
      → v.fps ≡ w.fps
      → next w.last_timestamp_us ≤ t
      → 0 < d
      → Encodes v t d o
      → Advances w o
  Encodes-Advances w v t d o a b c e ((l, f), inl h) = (f ∙ b, rw (l, a) (omega arith), inl h)
  Encodes-Advances w v t d o a b c e ((l, f), inr h) =
      (f ∙ b, rw (l, a) (omega arith), inr (t, d, h, c, e, rw (l, a) (omega arith)))
