-- ===== src/Video/RateControl.antt =====
-- The quantizer control of client/scripts/video-worker.js: the class `VideoRateControl`.
-- Bit amounts, rates and times are JavaScript numbers `D`. Quantizers, slots and counts are whole.
-- Frame timestamps are whole microseconds; `none` is the -1 of an unused slot.
pub mod Bounds
pub mod Block
pub mod Tests
use vrcstreamer.Common.{
  ℕ, zero, suc, ◌+◌, ◌-◌, ◌*◌, ◌%◌, max, min, Bool, true, false, ◌&&◌, Option, none, some, List, [],
  ◌∷◌, leb, ◌==◌, if◌then◌else◌, get_or, set, replicate,
}
use vrcstreamer.Common.Number.{Number}

abbrev pub min_quantizer_limit : ℕ
min_quantizer_limit = 18

abbrev pub max_quantizer : ℕ
max_quantizer = 51

abbrev pub initial_quantizer : ℕ
initial_quantizer = 24

abbrev pub quantizer_recovery_step : ℕ
quantizer_recovery_step = 2

abbrev pub quantizer_block_ms : ℕ
quantizer_block_ms = 15000

abbrev pub quantizer_history_size : ℕ
quantizer_history_size = 64

pub record VideoRateControl {ℓ} (D : Type ℓ) : Type ℓ where
  pub frame_timestamps : List (Option ℕ)
  pub frame_quantizers : List ℕ
  pub min_quantizer : ℕ
  pub blocked_until : D
  pub budget : D
  pub capacity : D
  pub available : D
  pub updated_at : D
  pub adjusted_at : D
  pub smoothed_bitrate : D
  pub quantizer : ℕ
  pub adjustments : ℕ
  pub frame_slot : ℕ

-- `frameTimestamps.indexOf(timestamp)`; `none` is -1.
pub index_of : List (Option ℕ) → ℕ → Option ℕ
index_of [] t = none
index_of (none ∷ xs) t = elim (index_of xs t) [ none ↦ none | some i ↦ some (suc i) ]
index_of (some s ∷ xs) t =
    let rest : Option ℕ = elim (index_of xs t) [ none ↦ none | some i ↦ some (suc i) ] in
    if s == t then some 0 else rest

module _ {ℓ} {D : Type ℓ} where
  -- The quantizer for the frame is returned beside the new state.
  pub submit : VideoRateControl D → ℕ → VideoRateControl D × ℕ
  submit r timestamp = (
    record r {
      frame_timestamps = set r.frame_timestamps r.frame_slot (some timestamp);
      frame_quantizers = set r.frame_quantizers r.frame_slot r.quantizer;
      frame_slot = (r.frame_slot + 1) % quantizer_history_size;
    },
    r.quantizer,
  )

module _ {ℓ} {D : Type ℓ} ⦃n : Number D⦄ where
  open n use {num, add, sub, mul, div, fmin, fmax, ffloor, lt, le}

  -- The state after `blockedMinimum`; the call returns its `min_quantizer`.
  pub blocked_minimum : VideoRateControl D → D → VideoRateControl D
  blocked_minimum r now =
      if le r.blocked_until now then record r { min_quantizer = 0; blocked_until = num 0 1 } else r

  pub reset : VideoRateControl D → ℕ → ℕ → D → Bool → VideoRateControl D
  unfolding blocked_minimum
  reset r bitrate frame_rate now keep_block =
      let budget = ffloor (mul (num bitrate 1) (num 85 100)) in
      let capacity = fmax (mul budget (num 1 2)) (div budget (num frame_rate 1)) in
      let until = if keep_block then r.blocked_until else num 0 1 in
      let b = blocked_minimum (record r { blocked_until = until }) now in
      record b {
        budget = budget;
        capacity = capacity;
        available = capacity;
        updated_at = now;
        adjusted_at = now;
        smoothed_bitrate = budget;
        quantizer = max min_quantizer_limit (max initial_quantizer b.min_quantizer);
        adjustments = 0;
        frame_timestamps = replicate quantizer_history_size none;
        frame_slot = 0;
      }

  pub set_quantizer : VideoRateControl D → ℕ → D → VideoRateControl D
  set_quantizer r value now =
      let next = max min_quantizer_limit (max r.min_quantizer (min max_quantizer value)) in
      if next == r.quantizer
      then r
      else record r { quantizer = next; adjusted_at = now; adjustments = r.adjustments + 1 }

  -- The quantizer that the frame was submitted with, or the current one.
  pub frame_quantizer : VideoRateControl D → ℕ → ℕ
  unfolding index_of
  frame_quantizer r timestamp = elim (index_of r.frame_timestamps timestamp) [
    | none ↦ r.quantizer
    | some slot ↦ get_or r.frame_quantizers slot 0
  ]

  pub free_slot : VideoRateControl D → ℕ → VideoRateControl D
  unfolding index_of
  free_slot r timestamp = elim (index_of r.frame_timestamps timestamp) [
    | none ↦ r
    | some slot ↦ record r { frame_timestamps = set r.frame_timestamps slot none }
  ]

  -- The allowance after `bytes` more are spent at time `now`, before any overflow is handled.
  pub spend : VideoRateControl D → ℕ → D → D
  spend r bytes now =
      let elapsed = div (fmax (num 0 1) (sub now r.updated_at)) (num 1000 1) in
      sub (fmin r.capacity (add r.available (mul elapsed r.budget))) (num (bytes * 8) 1)

  -- The branch `available < 0` of `record`, for a frame that was coded with `fq`.
  pub overflow : VideoRateControl D → ℕ → D → VideoRateControl D
  unfolding set_quantizer
  overflow r fq now =
      let blocked = max r.min_quantizer (min max_quantizer (fq + 1)) in
      let s : VideoRateControl D = record r {
        min_quantizer = blocked;
        blocked_until = add now (num quantizer_block_ms 1);
      } in
      let t = set_quantizer s (max s.quantizer s.min_quantizer) now in
      record t { available = num 0 1 }

  pub record_frame : VideoRateControl D → ℕ → D → ℕ → VideoRateControl D
  record_frame r bytes now timestamp =
      let fq = frame_quantizer r timestamp in
      let b = blocked_minimum (free_slot r timestamp) now in
      let left = spend b bytes now in
      let s : VideoRateControl D = record b { updated_at = now; available = left } in
      if lt left (num 0 1) then overflow s fq now else s

  pub update : VideoRateControl D → D → D → D → Bool → VideoRateControl D
  unfolding blocked_minimum set_quantizer
  update r actual elapsed now can_improve =
      let b = blocked_minimum r now in
      let smoothed =
        add b.smoothed_bitrate
          (div (mul (sub actual b.smoothed_bitrate) elapsed) (add (num 2 1) elapsed)) in
      let s : VideoRateControl D = record b { smoothed_bitrate = smoothed } in
      let next = s.quantizer - quantizer_recovery_step in
      if can_improve
        && leb (max min_quantizer_limit s.min_quantizer) next
        && le (num 1000 1) (sub now s.adjusted_at)
        && lt (fmax actual smoothed) (mul s.budget (num 75 100))
      then set_quantizer s next now
      else s

-- The calls that the worker makes between two resets that forget the block.
pub data Call {ℓ} (D : Type ℓ) : Type ℓ where
  submits : ℕ → Call D
  records : ℕ → D → ℕ → Call D
  updates : D → D → D → Bool → Call D
  resets : ℕ → ℕ → D → Bool → Call D

module _ {ℓ} {D : Type ℓ} ⦃n : Number D⦄ where
  pub step : VideoRateControl D → Call D → VideoRateControl D
  unfolding submit
  step r (submits timestamp) = (submit r timestamp).0
  step r (records bytes now timestamp) = record_frame r bytes now timestamp
  step r (updates actual elapsed now can) = update r actual elapsed now can
  step r (resets bitrate rate now keep) = reset r bitrate rate now keep

  pub run : VideoRateControl D → List (Call D) → VideoRateControl D
  run r [] = r
  run r (c ∷ cs) = run (step r c) cs
