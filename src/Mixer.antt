-- ===== src/Mixer.antt =====
-- `SourceProcessor` of client/scripts/audio-worklet.js: one source's gain, mute and mono, its clipping
-- and its level meter. Samples are JavaScript numbers; a Float32Array's rounding is not modelled.
pub mod Levels
pub mod Tests
use vrcstreamer.Common.{
  ℕ, zero, suc, ◌+◌, ◌-◌, ◌*◌, ◌/◌, ◌%◌, ◌^◌, ◌≤◌, ◌<◌, min, max, ◌≡◌, refl, sym, ap, ◌∙◌, ◌≢◌, ◌↔◌,
  ◌⊎◌, inl, inr, Bool, true, false, not, ◌&&◌, ◌||◌, Option, none, some, List, [], ◌∷◌, ◌++◌, map,
  append_assoc, append-nil, arith, ltb, leb, ◌==◌, if◌then◌else◌, Bool-cases, Option-cases, is_some,
  length, get_elem?, get_or, set, take, drop, replicate, All,
}
use vrcstreamer.Common.Number.{Number}
use vrcstreamer.Capture.{clamp}

pub record SourceProcessor {ℓ} (D : Type ℓ) : Type ℓ where
  pub gain : D
  pub mute : Bool
  pub force_mono : Bool
  pub level_peak : D
  pub level_frames : ℕ
  pub level_interval : ℕ

module _ {ℓ} {D : Type ℓ} ⦃n : Number D⦄ where
  abbrev pub silence : D
  silence = n.num 0 1

  -- The message `settings`; `none` is a gain that is not finite.
  pub set_settings : SourceProcessor D → Option D → Bool → Bool → SourceProcessor D
  set_settings p gain mute force_mono = record p {
    gain = elim gain [ none ↦ n.num 1 1 | some g ↦ n.fmin (n.num 4 1) (n.fmax silence g) ];
    mute = mute;
    force_mono = force_mono;
  }

  pub left_out : SourceProcessor D → D → D → D
  left_out p l r =
      clamp (if p.force_mono then n.mul (n.mul (n.add l r) (n.num 1 2)) p.gain else n.mul l p.gain)

  pub right_out : SourceProcessor D → D → D → D
  right_out p l r =
      clamp (if p.force_mono then n.mul (n.mul (n.add l r) (n.num 1 2)) p.gain else n.mul r p.gain)

  abbrev pub magnitude : D → D
  magnitude x = if n.lt x silence then n.sub silence x else x

  -- The loop over the samples of a block: the frames that are written, and the block's peak.
  pub mix : SourceProcessor D → List (D × D) → D → List (D × D) × D
  mix p [] peak = ([], peak)
  mix p ((l, r) ∷ frames) peak =
      let left = left_out p l r in
      let right = right_out p l r in
      let top =
        if n.lt (magnitude right) (magnitude left) then magnitude left else magnitude right in
      let (rest, last) = mix p frames (if n.lt peak top then top else peak) in
      ((left, right) ∷ rest, last)

  -- The state, and the peak that is posted.
  pub report_level : SourceProcessor D → ℕ → D → SourceProcessor D × Option D
  report_level p frames peak =
      let top = n.fmax p.level_peak peak in
      let count = p.level_frames + frames in
      if ltb count p.level_interval
      then (record p { level_peak = top; level_frames = count }, none)
      else (record p { level_peak = silence; level_frames = 0 }, some top)

  -- A block with a stereo output of `size` frames; `none` is a missing input.
  pub process :
      SourceProcessor D → Option (List (D × D)) → ℕ → SourceProcessor D × List (D × D) × Option D
  process p none size =
      let (q, report) = report_level p size silence in
      (q, replicate size (silence, silence), report)
  process p (some frames) size =
      let (out, peak) = mix p frames silence in
      let (q, report) = report_level p size peak in
      let (s, quiet) = report_level p size silence in
      if p.mute then (s, replicate size (silence, silence), quiet) else (q, out, report)
