-- ===== src/Publisher/Session/Lifecycle/Tests.antt =====
-- The session of streamer.js on concrete calls, and the theorems at them.
use vrcstreamer.Common.{ℕ, ◌+◌, ◌*◌, ◌≤◌, ◌≡◌, refl, Bool, true, false, none, some, List, [], ◌∷◌}
use vrcstreamer.Publisher.Session.{
  show_active_video_placeholder, is_other, stop_active_video, is_shown, send_command,
  set_video_source_hidden, forget_video, forget_video, set_video, dispose_audio_source,
  dispose_video_source, install_fails, install_succeeds, install_video_source, Resource, stream,
  encoder, socket, context, mic, video, Source, Session, sends, force_resync, Installing, created,
  failed, force_resync_now,
}
use vrcstreamer.Publisher.Session.Held.{gained, given_back, in_session}
use vrcstreamer.Publisher.Session.Lifecycle.{
  stream_late, abandon, finish, install, resumed, establish, acquire, stream_given, start, step,
  Attempt, starting, installing, cleanup, installed, wait_fails, Call, starts, gives, gets,
  establishes, resumes, installs, hides, replaces, is_ready, completes, fail_active,
  replace_audio_encoder, replacement_ready, complete_replacement, run,
}
use vrcstreamer.Publisher.Session.Lifecycle.Released.{in_app, cleanup-Keeps}
use vrcstreamer.Publisher.Session.Lifecycle.Runs.{
  closed, lost_all, gained-run-closed, wait_fails_started, alerted, installed_failed,
}

abbrev one : Resource → ℕ
one (stream n) = n
one (encoder n) = 1
one (socket n) = 1
one (context n) = 1

abbrev camera : ℕ → Source
camera n = record { media_stream = n; has_audio = true; video_hidden = false }

-- A session with the video stream 10, a new encoder, a second video stream, and a late one.
abbrev calls : List (Bool × Call)
calls =
    (true, starts true true video)
    ∷ (true, gives true (camera 10))
    ∷ (true, gets 1)
    ∷ (true, gets 2)
    ∷ (true, gets 3)
    ∷ (true, establishes true)
    ∷ (true, resumes true (camera 0))
    ∷ (true, installs (created 4))
    ∷ (true, replaces false 8)
    ∷ (true, is_ready 8 true)
    ∷ (true, completes 8 true)
    ∷ (true, hides 10 true)
    ∷ (true, starts true true video)
    ∷ (true, gives true (camera 20))
    ∷ (true, installs failed)
    ∷ (true, gives true (camera 30))
    ∷ []

-- The failed second video leaves the session without a video source, and the first stream is lost; so
-- is a stream that comes after its time.
after_calls :
    let (u, es) = run closed calls in
    (in_app one u ≡ 3)
    × (gained one es ≡ 64)
    × (given_back one es ≡ 41)
    × (lost_all one closed calls ≡ 40)
unfolding run step start stream_given acquire establish resumed installed install
    install_video_source install_succeeds install_fails finish abandon cleanup dispose_video_source
    dispose_audio_source set_video forget_video set_video_source_hidden send_command is_shown
    stop_active_video is_other show_active_video_placeholder wait_fails stream_late
    replace_audio_encoder replacement_ready complete_replacement fail_active
after_calls = (refl, refl, refl, refl)

gained-run-closed_example :
    let (v, es) = run closed calls in
    gained one es ≤ given_back one es + in_app one v + lost_all one closed calls
gained-run-closed_example = gained-run-closed one calls

abbrev attempt : Attempt
attempt = record {
  kind = mic;
  media_stream = some 10;
  encoder_id = some 1;
  ws = some 2;
  audio_context = none;
}

wait_fails_started_example :
    let (v, es) = wait_fails (record { active = none; task = starting attempt }) in
    (v ≡ closed) × (gained one es ≡ 0) × (given_back one es ≡ 12) × (alerted es ≡ 1)
wait_fails_started_example = wait_fails_started one attempt

abbrev session : Session
session = record {
  ws = 2;
  audio_context = 3;
  encoder_id = 1;
  preparing = some 5;
  swap = none;
  mic_source = some (camera 7);
  screen_source = none;
  video_source = some (camera 10);
  video_streamer = some (record { ident = 4; shown = some 10; stop_timer = false });
  stats_timer = true;
  wake_lock = true;
}

cleanup-Keeps_example :
    let (b, es) = cleanup (some session) true in
    (b ≡ none) × (gained one es ≡ 0) × (given_back one es ≡ 21)
cleanup-Keeps_example = cleanup-Keeps one (some session)

abbrev failing : Installing
failing = record {
  next = camera 20;
  previous = some (camera 9);
  replaced_screen = none;
  start_sent = false;
}

installed_failed_example :
    let (v, es) =
      installed (record { active = some session; task = installing none failing }) true failed in
    (given_back one es ≡ 2 * one (stream 20)) × (in_app one v ≤ in_session one (some session))
installed_failed_example = installed_failed one (some session) true failing

force_resync_open : force_resync_now (some session) true ≡ (sends force_resync ∷ [], true)
unfolding force_resync_now
force_resync_open = refl
