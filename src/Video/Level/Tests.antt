-- ===== src/Video/Level/Tests.antt =====
-- Levels of concrete presets.
use vrcstreamer.Common.{◌≤◌, ◌≡◌, refl, none, some, [], ◌∷◌, All}
use vrcstreamer.Video.Level.{find_level, Level, h264_levels, h264_level, h264_codec}
use vrcstreamer.Video.Level.Choice.{IsIn, IsFitting, h264_level_lowest}

-- 1280x720 at 60 frames per second needs level 3.2.
codec_720 :
    h264_codec 1280 720 60 6000000
    ≡ some (97 ∷ 118 ∷ 99 ∷ 49 ∷ 46 ∷ 52 ∷ 50 ∷ 69 ∷ 48 ∷ 50 ∷ 48 ∷ [])
unfolding h264_codec h264_level find_level
codec_720 = refl

h264_level_lowest_example :
    ((l : Level)
      → h264_level 1280 720 60 6000000 ≡ some l
      → IsIn l h264_levels
        × IsFitting 1280 720 60 6000000 l
        × All (λ k. IsFitting 1280 720 60 6000000 k → l.code ≤ k.code) h264_levels)
    × (h264_level 1280 720 60 6000000 ≡ none
        → All (λ k. ¬ IsFitting 1280 720 60 6000000 k) h264_levels)
h264_level_lowest_example = h264_level_lowest 1280 720 60 6000000
