-- ===== src/Video/RateControl/Block.antt =====
-- The temporary block of video-worker.js: while it lasts, the quantizer stays above the one that
-- overflowed the allowance.
use vrcstreamer.Video.RateControl.Bounds.{IsInRange, blocked_minimum-IsInRange, free_slot-IsInRange}
use vrcstreamer.Common.{
  ℕ, ◌+◌, ◌≤◌, max, min, ◌≡◌, Bool, true, false, Option-cases, inl, inr, List, [], ◌∷◌, arith, All,
}
use vrcstreamer.Common.Number.{Number, IsOrdered}
use vrcstreamer.Video.RateControl.{
  VideoRateControl, blocked_minimum, reset, frame_quantizer, free_slot, spend, overflow,
  record_frame, update, Call, submits, records, updates, resets, step, run, max_quantizer, index_of,
  quantizer_block_ms,
}

module _ {ℓ} {D : Type ℓ} ⦃n : Number D⦄ (laws : IsOrdered D) where
  open n use {num, add, lt, le}
  open laws use {not-le_of_lt, lt_of_lt_of_le, add_num_mono}

  -- `start + 15 s`, in the code's arithmetic.
  abbrev pub block_end : D → D
  block_end start = add start (num quantizer_block_ms 1)

  -- A call whose clock reads between `start` and the end of a block that begins at `start`, and
  -- that does not ask for the block to be forgotten.
  abbrev pub IsInWindow : D → Call D → Type 0
  IsInWindow start (submits timestamp) = Unit
  IsInWindow start (records bytes now timestamp) =
      (le start now ≡ true) × (lt now (block_end start) ≡ true)
  IsInWindow start (updates actual elapsed now can) = lt now (block_end start) ≡ true
  IsInWindow start (resets bitrate rate now keep) =
      (lt now (block_end start) ≡ true) × (keep ≡ true)

  -- The block lasts until `start + 15 s` at least, and holds the quantizer at `least` or above.
  pub record IsHeld (start : D) (least : ℕ) (r : VideoRateControl D) : Type 0 where
    pub until : le (block_end start) r.blocked_until ≡ true
    pub blocked : least ≤ r.min_quantizer
    pub quantizer : r.min_quantizer ≤ r.quantizer
    pub small : r.min_quantizer ≤ max_quantizer

  not-le-until :
      (start now until : D)
      → lt now (block_end start) ≡ true
      → le (block_end start) until ≡ true
      → le until now ≡ false
  not-le-until start now until a b = not-le_of_lt _ _ (lt_of_lt_of_le _ _ _ a b)

  blocked_minimum-eq :
      (start now : D) (r : VideoRateControl D)
      → lt now (block_end start) ≡ true
      → le (block_end start) r.blocked_until ≡ true
      → blocked_minimum r now ≡ r
  unfolding blocked_minimum
  blocked_minimum-eq start now r a b = rw (not-le-until start now r.blocked_until a b)

  free_slot-IsHeld :
      (start : D) (least : ℕ) (r : VideoRateControl D) (timestamp : ℕ)
      → IsHeld start least r
      → IsHeld start least (free_slot r timestamp)
  unfolding free_slot
  free_slot-IsHeld start least r timestamp h =
      elim (Option-cases (index_of r.frame_timestamps timestamp)) [
        | inl e ↦ rw (e, free_slot) h
        | inr (slot, e) ↦ rw (e, free_slot) (ground (arith, h))
      ]

  overflow-IsHeld :
      (start now : D) (least fq : ℕ) (r : VideoRateControl D)
      → least ≤ max r.min_quantizer (min max_quantizer (fq + 1))
      → r.min_quantizer ≤ max_quantizer
      → le start now ≡ true
      → IsHeld start least (overflow r fq now)
  unfolding overflow
  overflow-IsHeld start now least fq r a b h =
      ground (arith, add_num_mono start now quantizer_block_ms 1 h)

  record_frame-IsHeld :
      (start now : D) (least bytes timestamp : ℕ) (r : VideoRateControl D)
      → le start now ≡ true
      → lt now (block_end start) ≡ true
      → IsHeld start least r
      → IsHeld start least (record_frame r bytes now timestamp)
  unfolding record_frame
  record_frame-IsHeld start now least bytes timestamp r a b h =
      let f = free_slot r timestamp in
      let w : IsHeld start least f = free_slot-IsHeld start least r timestamp h in
      let fq = frame_quantizer r timestamp in
      let left = spend f bytes now in
      let s : VideoRateControl D = record f { updated_at = now; available = left } in
      rw (blocked_minimum-eq start now f b w.until)
        (ground (arith, w, overflow-IsHeld start now least fq s))

  update-IsHeld :
      (start now actual elapsed : D) (least : ℕ) (can : Bool) (r : VideoRateControl D)
      → lt now (block_end start) ≡ true
      → IsHeld start least r
      → IsHeld start least (update r actual elapsed now can)
  unfolding update
  update-IsHeld start now actual elapsed least can r b h =
      ground (arith, not-le-until start now r.blocked_until b h.until)

  reset-IsHeld :
      (start now : D) (least bitrate rate : ℕ) (r : VideoRateControl D)
      → lt now (block_end start) ≡ true
      → IsHeld start least r
      → IsHeld start least (reset r bitrate rate now true)
  unfolding reset
  reset-IsHeld start now least bitrate rate r b h =
      ground (arith, not-le-until start now r.blocked_until b h.until)

  step-IsHeld :
      (start : D) (least : ℕ) (r : VideoRateControl D) (c : Call D)
      → IsInWindow start c
      → IsHeld start least r
      → IsHeld start least (step r c)
  unfolding step
  step-IsHeld start least r (submits timestamp) w h = ground (arith, h)
  step-IsHeld start least r (records bytes now timestamp) w h =
      record_frame-IsHeld start now least bytes timestamp r w.0 w.1 h
  step-IsHeld start least r (updates actual elapsed now can) w h =
      update-IsHeld start now actual elapsed least can r w h
  step-IsHeld start least r (resets bitrate rate now keep) w h =
      rw w.1 (reset-IsHeld start now least bitrate rate r w.0 h)

  run-IsHeld :
      (start : D) (least : ℕ) (r : VideoRateControl D) (cs : List (Call D))
      → All (IsInWindow start) cs
      → IsHeld start least r
      → IsHeld start least (run r cs)
  unfolding run
  run-IsHeld start least r [] w h = h
  run-IsHeld start least r (c ∷ cs) w h =
      run-IsHeld start least (step r c) cs w.1 (step-IsHeld start least r c w.0 h)

  overflowed-IsHeld :
      (start : D) (bytes timestamp : ℕ) (r : VideoRateControl D)
      → IsInRange r
      → le start start ≡ true
      → lt (spend (blocked_minimum (free_slot r timestamp) start) bytes start) (num 0 1) ≡ true
      → IsHeld start
          (min max_quantizer (frame_quantizer r timestamp + 1))
          (record_frame r bytes start timestamp)
  unfolding record_frame
  overflowed-IsHeld start bytes timestamp r v a e =
      let b = blocked_minimum (free_slot r timestamp) start in
      let left = spend b bytes start in
      let s : VideoRateControl D = record b { updated_at = start; available = left } in
      let fq = frame_quantizer r timestamp in
      let w : IsInRange b = blocked_minimum-IsInRange _ start (free_slot-IsInRange r timestamp v) in
      rw e (overflow-IsHeld start start _ fq s (omega arith) (omega arith) a)

  -- A frame coded with quantizer q that overflows the allowance at time `start` blocks q: every
  -- quantizer after any calls whose clocks read from `start` to before `start + 15 s`, resets that
  -- keep the block included, is at least q + 1, or 51 if q is the codec's worst.
  pub quantizer-run_blocked :
      (start : D) (bytes timestamp : ℕ) (r : VideoRateControl D) (cs : List (Call D))
      → IsInRange r
      → le start start ≡ true
      → lt (spend (blocked_minimum (free_slot r timestamp) start) bytes start) (num 0 1) ≡ true
      → All (IsInWindow start) cs
      → min max_quantizer (frame_quantizer r timestamp + 1)
        ≤ (run (record_frame r bytes start timestamp) cs).quantizer
  quantizer-run_blocked start bytes timestamp r cs v a e w =
      omega (arith, run-IsHeld start _ _ cs w (overflowed-IsHeld start bytes timestamp r v a e))
