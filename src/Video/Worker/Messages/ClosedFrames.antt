-- ===== src/Video/Worker/Messages/ClosedFrames.antt =====
-- The frames that video-worker.js closes, through the pacing.
use vrcstreamer.Common.{
  ℕ, ◌+◌, ◌≡◌, refl, ap, Bool, ◌||◌, Option, none, some, List, [], ◌∷◌, ◌++◌, arith, ◌==◌,
  if◌then◌else◌, is_some,
}
use vrcstreamer.Video.Worker.{
  Picture, choose_picture, clear_pacing_timer, Submission, begin_close, Environment, finish_pacing,
  submit_frame, conclude, close_source, fail, schedule_next_frame, Outcome, start_current_output,
  take_source, accepted, refused, threw, Worker, Event, closes, encodes, sets_timer, clears_timer,
  fails,
}
use vrcstreamer.Video.Worker.Messages.{
  Call, close_all, paces, syncs, captures, ends_capture, resumes, transport_resumes,
  reconfigure_fails, transport_pauses, reconfigure_begins, begins_close, finishes_close,
  reconfigure_commits,
}

abbrev pub count : ℕ → List ℕ → ℕ
count f [] = 0
count f (x ∷ xs) = (if x == f then 1 else 0) + count f xs

pub count-append : (f : ℕ) (xs ys : List ℕ) → count f (xs ++ ys) ≡ count f xs + count f ys
count-append f [] ys = omega arith
count-append f (x ∷ xs) ys = omega (arith, count-append f xs ys)

abbrev pub closed_frames : List Event → List ℕ
closed_frames [] = []
closed_frames (closes f ∷ es) = f ∷ closed_frames es
closed_frames (encodes t d key q p ∷ es) = closed_frames es
closed_frames (sets_timer n ∷ es) = closed_frames es
closed_frames (clears_timer ∷ es) = closed_frames es
closed_frames (fails ∷ es) = closed_frames es

pub closed_frames-append :
    (es fs : List Event) → closed_frames (es ++ fs) ≡ closed_frames es ++ closed_frames fs
closed_frames-append [] fs = refl
closed_frames-append (closes f ∷ es) fs = ap (◌∷◌ f) (closed_frames-append es fs)
closed_frames-append (encodes t d key q p ∷ es) fs = closed_frames-append es fs
closed_frames-append (sets_timer n ∷ es) fs = closed_frames-append es fs
closed_frames-append (clears_timer ∷ es) fs = closed_frames-append es fs
closed_frames-append (fails ∷ es) fs = closed_frames-append es fs

pub closed_frames-close_all : (fs : List ℕ) → closed_frames (close_all fs) ≡ fs
closed_frames-close_all [] = refl
closed_frames-close_all (f ∷ fs) = ap (◌∷◌ f) (closed_frames-close_all fs)

-- How often the events close frame `f`.
abbrev pub closings : ℕ → List Event → ℕ
closings f es = count f (closed_frames es)

pub closings-append :
    (f : ℕ) (es fs : List Event) → closings f (es ++ fs) ≡ closings f es + closings f fs
closings-append f es fs =
    rw (closed_frames-append es fs) (count-append f (closed_frames es) (closed_frames fs))

-- Frames in `taken`, in the worker's buffer before, and in its buffer or closed after, agree.
abbrev pub Conserves {ℓ} : {D : Type ℓ} → ℕ → ℕ → Worker D → Outcome D → Type 0
Conserves f taken w (u, es) =
    closings f es + count f u.source_buffer ≡ count f w.source_buffer + taken

abbrev pub captured : ℕ → List Call → ℕ
captured f [] = 0
captured f (captures g now later ∷ cs) = (if g == f then 1 else 0) + captured f cs
captured f (paces e ∷ cs) = captured f cs
captured f (syncs samples now later ∷ cs) = captured f cs
captured f (ends_capture now ∷ cs) = captured f cs
captured f (resumes now ∷ cs) = captured f cs
captured f (transport_resumes now ∷ cs) = captured f cs
captured f (reconfigure_fails now ∷ cs) = captured f cs
captured f (transport_pauses ∷ cs) = captured f cs
captured f (reconfigure_begins ∷ cs) = captured f cs
captured f (begins_close ∷ cs) = captured f cs
captured f (finishes_close ∷ cs) = captured f cs
captured f (reconfigure_commits m now ∷ cs) = captured f cs

abbrev pub held : ℕ → Option ℕ → ℕ
held f none = 0
held f (some g) = if g == f then 1 else 0

pub closings-close_source :
    (f : ℕ) (source : Option ℕ) → closings f (close_source source) ≡ held f source
closings-close_source f none = refl
closings-close_source f (some g) = ground arith

module _ {ℓ} {D : Type ℓ} (f : ℕ) where
  pub schedule-Conserves : (w : Worker D) (now : ℕ) → Conserves f 0 w (schedule_next_frame w now)
  unfolding schedule_next_frame
  schedule-Conserves w now = ground arith

  pub start-Conserves : (w : Worker D) (now : ℕ) → Conserves f 0 w (start_current_output w now)
  unfolding start_current_output
  start-Conserves w now = ground (arith, schedule-Conserves w now)

  pub fail-Conserves : (w : Worker D) → Conserves f 0 w (fail w)
  unfolding fail begin_close clear_pacing_timer
  fail-Conserves w = ground arith

  pub conclude-Conserves :
      (u : Worker D) (source : Option ℕ) (now : ℕ) (es : List Event) (r : Submission)
      → closings f es ≡ 0
      → Conserves f (held f source) u (conclude u source now es r)
  unfolding conclude
  conclude-Conserves u source now es threw h =
      let fs = (fail u).1 in
      omega (
        arith,
        closings-append f es (fs ++ close_source source),
        closings-append f fs (close_source source),
        closings-close_source f source,
        fail-Conserves u,
      )
  conclude-Conserves u source now es refused h =
      let fs = (schedule_next_frame u now).1 in
      omega (
        arith,
        closings-append f es (close_source source ++ fs),
        closings-append f (close_source source) fs,
        closings-close_source f source,
        schedule-Conserves u now,
      )
  conclude-Conserves u source now es accepted h =
      let drawn : Worker D = record u {
        rendered_source_frame = u.rendered_source_frame || is_some source;
      } in
      let fs = (schedule_next_frame drawn now).1 in
      omega (
        arith,
        closings-append f es (close_source source ++ fs),
        closings-append f (close_source source) fs,
        closings-close_source f source,
        schedule-Conserves drawn now,
      )

  pub submit_frame-keeps :
      (w : Worker D) (e : Environment) (picture : Picture) (t d : ℕ)
      → let (u, es, r) = submit_frame w e picture t d in
        (closings f es ≡ 0) × (u.source_buffer ≡ w.source_buffer)
  unfolding submit_frame
  submit_frame-keeps w e picture t d = ground arith

  pub finish_pacing-Conserves :
      (w : Worker D) (e : Environment) (source : Option ℕ) (t d : ℕ)
      → Conserves f (held f source) w (finish_pacing w e source t d)
  unfolding finish_pacing
  finish_pacing-Conserves w e source t d =
      let (u, es, r) = submit_frame w e (choose_picture w source) t d in
      let (a, b) = submit_frame-keeps w e (choose_picture w source) t d in
      omega (arith, conclude-Conserves u source e.schedule_now es r a, ap (count f) b)

  pub take_source-count :
      (w : Worker D) (ready : Bool)
      → let (u, source) = take_source w ready in
        count f u.source_buffer + held f source ≡ count f w.source_buffer
  unfolding take_source
  take_source-count w ready = ground arith
