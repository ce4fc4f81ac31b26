-- ===== src/Capture.antt =====
-- `CaptureProcessor` of client/scripts/audio-worklet.js: the samples of the mixer, gathered into blocks
-- for the encoder. Samples are JavaScript numbers; a Float32Array's rounding is not modelled.
pub mod Copy
pub mod Blocks
pub mod Stamps
pub mod Tests
use vrcstreamer.Common.{
  ℕ, zero, suc, ◌+◌, ◌-◌, ◌*◌, ◌/◌, ◌%◌, ◌^◌, ◌≤◌, ◌<◌, min, max, ◌≡◌, refl, sym, ap, ◌∙◌, ◌≢◌, ◌↔◌,
  ◌⊎◌, inl, inr, Bool, true, false, not, ◌&&◌, ◌||◌, Option, none, some, List, [], ◌∷◌, ◌++◌, map,
  append_assoc, append-nil, arith, ltb, leb, ◌==◌, if◌then◌else◌, Bool-cases, Option-cases, is_some,
  length, get_elem?, get_or, set, take, drop, replicate, All,
}
use vrcstreamer.Common.Number.{Number}

-- The processor's fields. `pcm` is its Float32Array.
pub record CaptureProcessor {ℓ} (D : Type ℓ) : Type ℓ where
  pub frames : ℕ
  pub channels : ℕ
  pub pcm : List D
  pub offset : ℕ
  pub timestamp : ℕ

-- A message to the streamer: the block's samples, and its timestamp.
pub record Block {ℓ} (D : Type ℓ) : Type ℓ where
  pub samples : List D
  pub stamp : ℕ

-- `leftIn`, `rightIn` and `frameCount`; `rightIn` is null only with `leftIn`.
pub record Input {ℓ} (D : Type ℓ) : Type ℓ where
  pub left_in : Option (List D)
  pub right_in : Option (List D)
  pub frame_count : ℕ

module _ {ℓ} {D : Type ℓ} ⦃n : Number D⦄ where
  abbrev pub zero_sample : D
  zero_sample = n.num 0 1

  pub created : ℕ → ℕ → CaptureProcessor D
  created frames channels = record {
    frames = frames;
    channels = channels;
    pcm = replicate (frames * channels) zero_sample;
    offset = 0;
    timestamp = 0;
  }

  -- `if (x > 1) x = 1; else if (x < -1) x = -1;`
  unfoldable pub clamp : D → D
  clamp x =
      let one = n.num 1 1 in
      let minus_one = n.sub zero_sample one in
      if n.lt one x then one else if n.lt x minus_one then minus_one else x

  abbrev pub raw_left : Input D → ℕ → D
  raw_left input source = elim input.left_in [
    | none ↦ zero_sample
    | some xs ↦ get_or xs source zero_sample
  ]

  abbrev pub raw_right : Input D → ℕ → D
  raw_right input source = elim input.right_in [
    | none ↦ raw_left input source
    | some xs ↦ get_or xs source zero_sample
  ]

  pub left_sample : Input D → ℕ → D
  left_sample input source = clamp (raw_left input source)

  pub right_sample : Input D → ℕ → D
  right_sample input source = clamp (raw_right input source)

  -- `for (let i = 0; i < take; i++)`, without the monitor's output: `count` samples from `source` on
  -- are written to the frames from `frame` on.
  pub copy_samples : Input D → ℕ → List D → ℕ → ℕ → ℕ → List D
  copy_samples input channels pcm frame source zero = pcm
  copy_samples input channels pcm frame source (suc count) =
      let destination = frame * channels in
      copy_samples input channels
        (set (set pcm destination (left_sample input source)) (destination + 1)
          (right_sample input source))
        (frame + 1) (source + 1) count

  -- One turn of the loop, from `sourceOffset` on: the state, and the block posted.
  pub gather : CaptureProcessor D → Input D → ℕ → ℕ → CaptureProcessor D × List (Block D)
  gather c input current_frame source =
      let stamp = if c.offset == 0 then current_frame + source else c.timestamp in
      let count = min (c.frames - c.offset) (input.frame_count - source) in
      let pcm = copy_samples input c.channels c.pcm c.offset source count in
      if c.offset + count == c.frames
      then (
        record c {
          pcm = replicate (c.frames * c.channels) zero_sample;
          offset = 0;
          timestamp = stamp;
        },
        record { samples = pcm; stamp = stamp } ∷ [],
      )
      else (record c { pcm = pcm; offset = c.offset + count; timestamp = stamp }, [])

  -- `while (sourceOffset < frameCount)`. Each turn takes a sample at least, so that a turn for every
  -- sample is enough.
  pub gather_all : ℕ → CaptureProcessor D → Input D → ℕ → ℕ → CaptureProcessor D × List (Block D)
  gather_all zero c input current_frame source = (c, [])
  gather_all (suc turns) c input current_frame source =
      let count = min (c.frames - c.offset) (input.frame_count - source) in
      let (d, bs) = gather c input current_frame source in
      let (e, cs) = gather_all turns d input current_frame (source + count) in
      if ltb source input.frame_count then (e, bs ++ cs) else (c, [])

  pub process : CaptureProcessor D → Input D → ℕ → CaptureProcessor D × List (Block D)
  process c input current_frame = gather_all input.frame_count c input current_frame 0
