-- ===== src/Client/Quality/Tests.antt =====
-- The presets of client/scripts/client.js, read and printed.
use vrcstreamer.Common.{◌≡◌, refl, some, [], ◌∷◌, arith}
use vrcstreamer.Client.Quality.{
  Quality, print_number, preset_id, read_preset, read_number, read_digits, read_mark, make_quality,
  normalize_video_quality,
}
use vrcstreamer.Client.Quality.Bounds.{IsPreset}
use vrcstreamer.Client.Quality.RoundTrip.{normalize_video_quality-id}

abbrev small : Quality
small = record {
  id = 54 ∷ 52 ∷ 48 ∷ 120 ∷ 51 ∷ 54 ∷ 48 ∷ 42 ∷ 51 ∷ 48 ∷ 47 ∷ 56 ∷ 48 ∷ 48 ∷ [];
  index = 0;
  width = 640;
  height = 360;
  fps = 30;
  bitrate_kbps = 800;
}

-- " 640X360*30/0800" is the preset of the id "640x360*30/800".
small_read :
    normalize_video_quality
      (some (32 ∷ 54 ∷ 52 ∷ 48 ∷ 88 ∷ 51 ∷ 54 ∷ 48 ∷ 42 ∷ 51 ∷ 48 ∷ 47 ∷ 48 ∷ 56 ∷ 48 ∷ 48 ∷ []))
      0
    ≡ some small
unfolding normalize_video_quality read_preset read_number read_digits read_mark make_quality
    preset_id print_number
small_read = refl

small-IsPreset : IsPreset small
unfolding preset_id print_number
small-IsPreset = (
  omega arith,
  omega arith,
  omega arith,
  omega arith,
  omega arith,
  omega arith,
  omega arith,
  omega arith,
  refl,
)

normalize_video_quality-id_example :
    normalize_video_quality (some small.id) 7 ≡ some (record small { index = 7 })
normalize_video_quality-id_example = normalize_video_quality-id small 7 small-IsPreset
