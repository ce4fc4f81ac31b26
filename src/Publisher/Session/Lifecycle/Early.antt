-- ===== src/Publisher/Session/Lifecycle/Early.antt =====
-- While `start` of streamer.js gets what it needs, `app.active` is null: no call makes a session then.
use vrcstreamer.Common.{
  ℕ, ◌≡◌, refl, Bool, true, false, not, ◌||◌, Option, none, some, List, arith, is_some,
}
use vrcstreamer.Publisher.Session.{
  set_video_source_hidden, install_fails, install_succeeds, SourceKind, Source, Event, Active,
  remove_audio_source, remove_video_source, stop_timer_fires, Installing, Installation, failed,
  source_set, created,
}
use vrcstreamer.Publisher.Session.Lifecycle.{
  gives_late, stream_late, Attempt, Task, idle, asking, starting, resuming, installing, App,
  cleanup, fail_active, abandon, start, install, finish, proceed, stream_given, acquire, establish,
  resumed, installed, wait_fails, Call, starts, gives, gets, establishes, resumes, installs, errs,
  removes_audio, removes_video, times_out, hides, breaks, stops, replaces, is_ready, completes,
  replace_audio_encoder, replacement_ready, complete_replacement, step,
}
use vrcstreamer.Publisher.Session.Lifecycle.Released.{cleanup-Keeps}
use vrcstreamer.Publisher.Session.Lifecycle.Leaks.{is_starting, IsEarly}

finish-IsEarly : (a : Active) (o : Option Attempt) → IsEarly (finish a o).0
unfolding finish abandon
finish-IsEarly none none = refl
finish-IsEarly (some s) none = refl
finish-IsEarly none (some t) = refl
finish-IsEarly (some s) (some t) = refl

abandon-IsEarly :
    (a : Active) (t : Attempt) (established : Bool) → IsEarly (abandon a t established).0
unfolding abandon
abandon-IsEarly a t established = ground arith

proceed-IsEarly :
    (o : Option Attempt) (r : Active × List Event × Option Installing × Bool)
    → IsEarly (proceed o r).0
proceed-IsEarly o (a, es, some i, throws) = refl
proceed-IsEarly none (a, es, none, true) = refl
proceed-IsEarly o (a, es, none, false) = finish-IsEarly a o
proceed-IsEarly (some t) (a, es, none, true) = abandon-IsEarly a t true

abbrev at : Active → Task → App
at a t = record { active = a; task = t }

given-IsEarly :
    (a : Active) (t : Task) (is_open enabled : Bool) (next : Source)
    → IsEarly (at a t)
    → IsEarly (stream_given (at a t) is_open enabled next).0
unfolding stream_given stream_late
given-IsEarly a idle is_open enabled next h = refl
given-IsEarly none (asking kind) is_open enabled next h = refl
given-IsEarly (some s) (asking kind) is_open enabled next h =
    proceed-IsEarly none (install (some s) is_open enabled kind next)
given-IsEarly a (starting t) is_open enabled next h = ground (arith, h)
given-IsEarly a (resuming t) is_open enabled next h = refl
given-IsEarly a (installing t i) is_open enabled next h = refl

acquire-IsEarly :
    (a : Active) (t : Task) (n : ℕ) → IsEarly (at a t) → IsEarly (acquire (at a t) n).0
unfolding acquire
acquire-IsEarly a (starting t) n h = ground (arith, h)
acquire-IsEarly a idle n h = refl
acquire-IsEarly a (asking kind) n h = refl
acquire-IsEarly a (resuming t) n h = refl
acquire-IsEarly a (installing t i) n h = refl

establish-IsEarly :
    (a : Active) (t : Task) (wake_lock : Bool)
    → IsEarly (at a t)
    → IsEarly (establish (at a t) wake_lock)
unfolding establish
establish-IsEarly a (starting t) wake_lock h = ground (arith, h)
establish-IsEarly a idle wake_lock h = refl
establish-IsEarly a (asking kind) wake_lock h = refl
establish-IsEarly a (resuming t) wake_lock h = refl
establish-IsEarly a (installing t i) wake_lock h = refl

resumed-IsEarly :
    (a : Active) (t : Task) (is_open enabled : Bool) (next : Source)
    → IsEarly (at a t)
    → IsEarly (resumed (at a t) is_open enabled next).0
unfolding resumed
resumed-IsEarly a (resuming t) is_open enabled next h = by_media t.media_stream refl
  where
    by_media :
        (o : Option ℕ)
        → t.media_stream ≡ o
        → IsEarly (resumed (at a (resuming t)) is_open enabled next).0
    by_media none e = rw e refl
    by_media (some m) e =
        let r = install a is_open enabled t.kind (record next { media_stream = m }) in
        rw e (proceed-IsEarly (some t) r)
resumed-IsEarly a idle is_open enabled next h = refl
resumed-IsEarly a (asking kind) is_open enabled next h = refl
resumed-IsEarly a (starting t) is_open enabled next h = h
resumed-IsEarly a (installing t i) is_open enabled next h = refl

installed-IsEarly :
    (a : Active) (t : Task) (is_open : Bool) (r : Installation)
    → IsEarly (at a t)
    → IsEarly (installed (at a t) is_open r).0
unfolding installed
installed-IsEarly a (installing none i) is_open failed h = refl
installed-IsEarly a (installing (some t) i) is_open failed h =
    abandon-IsEarly (install_fails a is_open i).0 t true
installed-IsEarly a (installing o i) is_open source_set h =
    finish-IsEarly (install_succeeds a is_open i source_set).0 o
installed-IsEarly a (installing o i) is_open (created v) h =
    finish-IsEarly (install_succeeds a is_open i (created v)).0 o
installed-IsEarly a idle is_open r h = ground arith
installed-IsEarly a (asking kind) is_open r h = ground arith
installed-IsEarly a (starting t) is_open r h = ground (arith, h)
installed-IsEarly a (resuming t) is_open r h = ground arith

wait_fails-IsEarly : (a : Active) (t : Task) → IsEarly (at a t) → IsEarly (wait_fails (at a t)).0
unfolding wait_fails
wait_fails-IsEarly a idle h = refl
wait_fails-IsEarly a (asking kind) h = refl
wait_fails-IsEarly a (starting t) h = abandon-IsEarly a t false
wait_fails-IsEarly a (resuming t) h = abandon-IsEarly a t true
wait_fails-IsEarly a (installing t i) h = refl

-- A page without a session gets none by the calls that leave the task.
keep-IsEarly :
    (a b : Active) (t : Task) → (a ≡ none → b ≡ none) → IsEarly (at a t) → IsEarly (at b t)
keep-IsEarly none b t k h = rw (k refl) h
keep-IsEarly (some s) b t k h = by_starting (is_starting t) h
  where
    by_starting : (x : Bool) → (not x || false) ≡ true → (not x || not (is_some b)) ≡ true
    by_starting false e = refl
    by_starting true e = absurd (cc e)

remove_audio_source-none :
    (a : Active) (kind : SourceKind) (n : ℕ) → a ≡ none → (remove_audio_source a kind n).0 ≡ none
unfolding remove_audio_source
remove_audio_source-none a kind n e = rw e refl

remove_video_source-none :
    (a : Active) (is_open : Bool) (n : ℕ) → a ≡ none → (remove_video_source a is_open n).0 ≡ none
unfolding remove_video_source
remove_video_source-none a is_open n e = rw e refl

stop_timer_fires-none :
    (a : Active) (is_open : Bool) (v : ℕ) → a ≡ none → (stop_timer_fires a is_open v).0 ≡ none
unfolding stop_timer_fires
stop_timer_fires-none a is_open v e = rw e refl

set_video_source_hidden-none :
    (a : Active) (n : ℕ) (hidden : Bool) → a ≡ none → (set_video_source_hidden a n hidden).0 ≡ none
unfolding set_video_source_hidden
set_video_source_hidden-none a n hidden e = rw e refl

fail_active-none : (a : Active) → a ≡ none → (fail_active a).0 ≡ none
unfolding fail_active
fail_active-none a e = rw e refl

replace_audio_encoder-none :
    (a : Active) (same : Bool) (n : ℕ) → a ≡ none → (replace_audio_encoder a same n).0 ≡ none
unfolding replace_audio_encoder
replace_audio_encoder-none a same n e = rw e refl

replacement_ready-none :
    (a : Active) (n : ℕ) (ready : Bool) → a ≡ none → (replacement_ready a n ready).0 ≡ none
unfolding replacement_ready
replacement_ready-none a n ready e = rw e refl

complete_replacement-none :
    (a : Active) (n : ℕ) (flushed : Bool) → a ≡ none → (complete_replacement a n flushed).0 ≡ none
unfolding complete_replacement
complete_replacement-none a n flushed e = rw e refl

start-IsEarly :
    (u : App) (supported has_code : Bool) (kind : SourceKind)
    → IsEarly u
    → IsEarly (start u supported has_code kind)
unfolding start
start-IsEarly u supported has_code kind h = ground (arith, h)

pub step-IsEarly : (u : App) (is_open : Bool) (c : Call) → IsEarly u → IsEarly (step u is_open c).0
unfolding step
step-IsEarly u is_open (starts supported has_code kind) h =
    start-IsEarly u supported has_code kind h
step-IsEarly u is_open (gives enabled next) h = given-IsEarly u.active u.task is_open enabled next h
step-IsEarly u is_open (gives_late next) h = unfold stream_late in h
step-IsEarly u is_open (gets n) h = acquire-IsEarly u.active u.task n h
step-IsEarly u is_open (establishes wake_lock) h = establish-IsEarly u.active u.task wake_lock h
step-IsEarly u is_open (resumes enabled next) h =
    resumed-IsEarly u.active u.task is_open enabled next h
step-IsEarly u is_open (installs r) h = installed-IsEarly u.active u.task is_open r h
step-IsEarly u is_open errs h = wait_fails-IsEarly u.active u.task h
step-IsEarly u is_open (removes_audio kind source) h =
    keep-IsEarly u.active (remove_audio_source u.active kind source).0 u.task
      (remove_audio_source-none u.active kind source) h
step-IsEarly u is_open (removes_video source) h =
    keep-IsEarly u.active (remove_video_source u.active is_open source).0 u.task
      (remove_video_source-none u.active is_open source) h
step-IsEarly u is_open (times_out v) h =
    keep-IsEarly u.active (stop_timer_fires u.active is_open v).0 u.task
      (stop_timer_fires-none u.active is_open v) h
step-IsEarly u is_open (hides source hidden) h =
    keep-IsEarly u.active (set_video_source_hidden u.active source hidden).0 u.task
      (set_video_source_hidden-none u.active source hidden) h
step-IsEarly u is_open (replaces same n) h =
    keep-IsEarly u.active (replace_audio_encoder u.active same n).0 u.task
      (replace_audio_encoder-none u.active same n) h
step-IsEarly u is_open (is_ready n ready) h =
    keep-IsEarly u.active (replacement_ready u.active n ready).0 u.task
      (replacement_ready-none u.active n ready) h
step-IsEarly u is_open (completes n flushed) h =
    keep-IsEarly u.active (complete_replacement u.active n flushed).0 u.task
      (complete_replacement-none u.active n flushed) h
step-IsEarly u is_open breaks h =
    keep-IsEarly u.active (fail_active u.active).0 u.task (fail_active-none u.active) h
step-IsEarly u is_open stops h =
    keep-IsEarly u.active (cleanup u.active true).0 u.task
      (λ e. (cleanup-Keeps (λ r. 0) u.active).0) h
