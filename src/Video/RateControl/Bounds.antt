-- ===== src/Video/RateControl/Bounds.antt =====
-- The range of the quantizer and the ring of submitted frames in video-worker.js.
use vrcstreamer.Common.{
  Option-cases, List, [], ◌∷◌, ℕ, ◌≤◌, ◌<◌, ◌≡◌, Bool, inl, inr, none, some, List, [], ◌∷◌, length,
  length-set, arith,
}
use vrcstreamer.Common.Number.{Number}
use vrcstreamer.Video.RateControl.{
  spend, frame_quantizer, submit, Call, submits, records, updates, resets, step, run,
  VideoRateControl, blocked_minimum, reset, submit, set_quantizer, frame_quantizer, free_slot,
  spend, overflow, record_frame, update, Call, submits, records, updates, resets, step, run,
  min_quantizer_limit, max_quantizer, quantizer_history_size, index_of,
}

pub record IsInRange {ℓ} {D : Type ℓ} (r : VideoRateControl D) : Type 0 where
  pub lowest : min_quantizer_limit ≤ r.quantizer
  pub blocked : r.min_quantizer ≤ r.quantizer
  pub highest : r.quantizer ≤ max_quantizer
  pub slots : length r.frame_timestamps ≡ quantizer_history_size
  pub quantizers : length r.frame_quantizers ≡ quantizer_history_size
  pub slot : r.frame_slot < quantizer_history_size

module _ {ℓ} {D : Type ℓ} ⦃n : Number D⦄ where
  pub blocked_minimum-IsInRange :
      (r : VideoRateControl D) (now : D) → IsInRange r → IsInRange (blocked_minimum r now)
  unfolding blocked_minimum
  blocked_minimum-IsInRange r now v = ground arith

  set_quantizer-IsInRange :
      (r : VideoRateControl D) (value : ℕ) (now : D)
      → r.min_quantizer ≤ max_quantizer
      → length r.frame_timestamps ≡ quantizer_history_size
      → length r.frame_quantizers ≡ quantizer_history_size
      → r.frame_slot < quantizer_history_size
      → IsInRange (set_quantizer r value now)
  unfolding set_quantizer
  set_quantizer-IsInRange r value now a b c d = ground arith

  overflow-IsInRange :
      (r : VideoRateControl D) (fq : ℕ) (now : D) → IsInRange r → IsInRange (overflow r fq now)
  unfolding overflow
  overflow-IsInRange r fq now v = ground arith

  pub free_slot-IsInRange :
      (r : VideoRateControl D) (timestamp : ℕ) → IsInRange r → IsInRange (free_slot r timestamp)
  unfolding free_slot
  free_slot-IsInRange r timestamp v = elim (Option-cases (index_of r.frame_timestamps timestamp)) [
    | inl e ↦ rw (e, free_slot) v
    | inr (slot, e) ↦ rw (e, free_slot) (ground (arith, length-set r.frame_timestamps slot none))
  ]

  record_frame-IsInRange :
      (r : VideoRateControl D) (bytes : ℕ) (now : D) (timestamp : ℕ)
      → IsInRange r
      → IsInRange (record_frame r bytes now timestamp)
  unfolding record_frame
  record_frame-IsInRange r bytes now timestamp v =
      let b = blocked_minimum (free_slot r timestamp) now in
      let w : IsInRange b = blocked_minimum-IsInRange _ now (free_slot-IsInRange r timestamp v) in
      let left = spend b bytes now in
      let s : VideoRateControl D = record b { updated_at = now; available = left } in
      let u : IsInRange s = ground arith in
      ground (arith, u, overflow-IsInRange s (frame_quantizer r timestamp) now u)

  update-IsInRange :
      (r : VideoRateControl D) (actual elapsed now : D) (can : Bool)
      → IsInRange r
      → IsInRange (update r actual elapsed now can)
  unfolding update
  update-IsInRange r actual elapsed now can v = ground arith

  -- Whatever the control was before, as long as its block is within range and its ring has its size.
  reset-IsInRange :
      (r : VideoRateControl D) (bitrate frame_rate : ℕ) (now : D) (keep : Bool)
      → r.min_quantizer ≤ max_quantizer
      → length r.frame_quantizers ≡ quantizer_history_size
      → IsInRange (reset r bitrate frame_rate now keep)
  unfolding reset
  reset-IsInRange r bitrate frame_rate now keep a b = ground arith

  submit-IsInRange :
      (r : VideoRateControl D) (timestamp : ℕ) → IsInRange r → IsInRange (submit r timestamp).0
  unfolding submit
  submit-IsInRange r timestamp v = ground (
    arith,
    length-set r.frame_timestamps r.frame_slot (some timestamp),
    length-set r.frame_quantizers r.frame_slot r.quantizer,
  )

  pub step-IsInRange : (r : VideoRateControl D) (c : Call D) → IsInRange r → IsInRange (step r c)
  unfolding step
  step-IsInRange r (submits timestamp) v = submit-IsInRange r timestamp v
  step-IsInRange r (records bytes now timestamp) v = record_frame-IsInRange r bytes now timestamp v
  step-IsInRange r (updates actual elapsed now can) v = update-IsInRange r actual elapsed now can v
  step-IsInRange r (resets bitrate rate now keep) v =
      reset-IsInRange r bitrate rate now keep (omega arith) v.quantizers

  run-IsInRange : (r : VideoRateControl D) (cs : List (Call D)) → IsInRange r → IsInRange (run r cs)
  unfolding run
  run-IsInRange r [] v = v
  run-IsInRange r (c ∷ cs) v = run-IsInRange (step r c) cs (step-IsInRange r c v)

  -- After a first reset of a control whose block is within the codec's range and whose ring has its
  -- size, every sequence of calls keeps the quantizer between 18 and 51 and at or above the blocked
  -- minimum, and keeps the slot and both arrays of the ring of 64 frames in bounds.
  pub run-reset-IsInRange :
      (r : VideoRateControl D) (bitrate frame_rate : ℕ) (now : D) (keep : Bool) (cs : List (Call D))
      → r.min_quantizer ≤ max_quantizer
      → length r.frame_quantizers ≡ quantizer_history_size
      → IsInRange (run (reset r bitrate frame_rate now keep) cs)
  run-reset-IsInRange r bitrate frame_rate now keep cs a b =
      run-IsInRange _ cs (reset-IsInRange r bitrate frame_rate now keep a b)
