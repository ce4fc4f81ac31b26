-- ===== src/Mixer/Tests.antt =====
-- A source of audio-worklet.js at twice its level.
use vrcstreamer.Common.{refl, false, some, [], ◌∷◌}
use vrcstreamer.Common.Int.{ℤ, pos, negsuc}
use vrcstreamer.Common.Decimal.{decimal_number}
use vrcstreamer.Mixer.{SourceProcessor, process}
use vrcstreamer.Mixer.Levels.{HasUnits, AreClipped, process-AreClipped}

abbrev louder : SourceProcessor ℤ
louder = record {
  gain = pos 2000;
  mute = false;
  force_mono = false;
  level_peak = pos 0;
  level_frames = 0;
  level_interval = 3200;
}

decimal-HasUnits : HasUnits ℤ
decimal-HasUnits = record {
  one_one = refl;
  one_minus = refl;
  minus_minus = refl;
  one_zero = refl;
  zero_minus = refl;
}

process-AreClipped_example :
    AreClipped (process louder (some ((pos 400, negsuc 799) ∷ (pos 600, pos 0) ∷ [])) 2).1
process-AreClipped_example =
    process-AreClipped decimal-HasUnits louder
      (some ((pos 400, negsuc 799) ∷ (pos 600, pos 0) ∷ [])) 2
