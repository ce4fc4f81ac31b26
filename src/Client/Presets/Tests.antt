-- ===== src/Client/Presets/Tests.antt =====
-- The presets of client/scripts/client.js on a concrete presets.
use vrcstreamer.Common.{
  if◌then◌else◌, ◌≤◌, ◌≡◌, true, false, Option, none, some, List, [], ◌∷◌, length, All,
}
use vrcstreamer.Client.Quality.{same_text, Text, default_preset}
use vrcstreamer.Client.Quality.Bounds.{IsPreset}
use vrcstreamer.Client.Presets.{
  saves, same_text, Client, next_qualities, id_of, set_video_qualities,
}
use vrcstreamer.Client.Presets.Lists.{AreDistinct, next_qualities-AreDistinct}
use vrcstreamer.Client.Presets.Choice.{HasNumbers, set_video_qualities-set_video_qualities}

-- " 640X360*30/800", "nothing", no string, "640x360*30/0800" and the default preset.
abbrev presets : Option (List (Option Text))
presets = some (
    some (32 ∷ 54 ∷ 52 ∷ 48 ∷ 88 ∷ 51 ∷ 54 ∷ 48 ∷ 42 ∷ 51 ∷ 48 ∷ 47 ∷ 56 ∷ 48 ∷ 48 ∷ [])
    ∷ some (110 ∷ [])
    ∷ none
    ∷ some (54 ∷ 52 ∷ 48 ∷ 120 ∷ 51 ∷ 54 ∷ 48 ∷ 42 ∷ 51 ∷ 48 ∷ 47 ∷ 48 ∷ 56 ∷ 48 ∷ 48 ∷ [])
    ∷ some default_preset
    ∷ [])

abbrev client : Client
client = record {
  video_qualities = [];
  saved = default_preset;
  video_width = 640;
  video_height = 360;
  video_fps = 30;
  video_bitrate = 800000;
  shown_value = [];
}

next_qualities-AreDistinct_example :
    let qs = next_qualities presets true in
    AreDistinct [] qs × All IsPreset qs × (length qs ≤ 32) × (true ≡ true → 1 ≤ length qs)
next_qualities-AreDistinct_example = next_qualities-AreDistinct presets true

set_video_qualities-set_video_qualities_example :
    let (u, es, selected) = set_video_qualities client false presets true in
    (set_video_qualities u true presets true ≡ (
      if same_text u.saved (id_of selected)
      then (u, [], selected)
      else (record u { saved = id_of selected }, saves (id_of selected) ∷ [], selected)))
    × (u.saved ≡ default_preset)
    × (u.shown_value ≡ id_of selected)
    × HasNumbers u selected
set_video_qualities-set_video_qualities_example =
    set_video_qualities-set_video_qualities client false true presets true
