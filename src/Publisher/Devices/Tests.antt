-- ===== src/Publisher/Devices/Tests.antt =====
-- The choice of what to capture in streamer.js, on concrete answers.
use vrcstreamer.Common.{◌≡◌, refl, inl, inr, true, false, [], ◌∷◌}
use vrcstreamer.Publisher.Devices.{
  not_supported_error, not_allowed_error, other_error, Constraints, Answer, any_audio, no_audio,
  raw_audio, is_display_media_constraint_error, try_fallbacks, get_display_media_compat,
  capture_screen,
}

-- A browser that takes no wishes for sound: it refuses the first constraints only.
abbrev browser : Constraints → Answer
browser c = elim c.audio [
  | raw_audio device ↦ inr (record { name = not_supported_error; message = [] })
  | any_audio ↦ inl (record { ident = 4; audio_tracks = 1; video_tracks = 1 })
  | no_audio ↦ inl (record { ident = 5; audio_tracks = 0; video_tracks = 1 })
]

screen_captured :
    capture_screen browser 1280 720 30 false
    ≡ inl (record { ident = 4; audio_tracks = 1; video_tracks = 1 })
unfolding capture_screen get_display_media_compat try_fallbacks is_display_media_constraint_error
screen_captured = refl

-- "Invalid Parameter" is about the constraints, "Denied" is not.
told_by_message :
    is_display_media_constraint_error (record {
      name = other_error;
      message =
          73 ∷ 110 ∷ 118 ∷ 97 ∷ 108 ∷ 105 ∷ 100 ∷ 32 ∷ 80 ∷ 97 ∷ 114 ∷ 97 ∷ 109 ∷ 101 ∷ 116 ∷ 101
          ∷ 114 ∷ [];
    })
    ≡ true
unfolding is_display_media_constraint_error
told_by_message = refl

denied :
    is_display_media_constraint_error
      (record { name = not_allowed_error; message = 68 ∷ 101 ∷ 110 ∷ 105 ∷ 101 ∷ 100 ∷ [] })
    ≡ false
unfolding is_display_media_constraint_error
denied = refl
