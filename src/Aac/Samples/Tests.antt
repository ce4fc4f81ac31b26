-- ===== src/Aac/Samples/Tests.antt =====
-- `float32ToS16View` of aac-worker.js on concrete samples.
use vrcstreamer.Common.{◌*◌, ◌/◌, ◌≡◌, refl, Option, none, some, List, [], ◌∷◌, replicate}
use vrcstreamer.Common.Int.{ℤ, pos, sub_ℕ}
use vrcstreamer.Aac.Samples.{unit, to_s16, fill, float32_to_s16_view}

abbrev samples : List (Option ℤ)
samples =
    some (pos unit)
    ∷ some (sub_ℕ 0 (2 * unit))
    ∷ some (pos (unit / 2))
    ∷ some (sub_ℕ 0 (unit / 2))
    ∷ none
    ∷ []

view_of_samples :
    (float32_to_s16_view (some (replicate 7 (pos 9))) samples).0
    ≡ pos 32767 ∷ sub_ℕ 0 32768 ∷ pos 16383 ∷ sub_ℕ 0 16384 ∷ pos 0 ∷ []
unfolding float32_to_s16_view fill to_s16
view_of_samples = refl
