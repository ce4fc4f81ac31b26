-- ===== src/Publisher/EncoderSwap/Order.antt =====
-- The blocks that streamer.js keeps for a new encoder, in `encodeAudioBlock` and
-- `completeAudioEncoderSwap`.
use vrcstreamer.Common.{
  subst, ℕ, zero, suc, ◌-◌, ◌≤◌, ◌<◌, ◌≡◌, refl, sym, ap, ◌∙◌, inl, inr, true, false, none, some,
  List, [], ◌∷◌, ◌++◌, map, append_assoc, append-nil, arith, leb, Bool-cases, length, drop,
}
use vrcstreamer.Common.{length-append, length-drop}
use vrcstreamer.Publisher.AudioSend.{max_audio_buffered_blocks}
use vrcstreamer.Publisher.EncoderSwap.{
  Session, Block, Swap, closes_encoder, swaps, push_block, sync_clock, route, encode_audio_block,
  encode_all, complete_swap, Call, captures, step, run,
}

-- The last six of a list.
abbrev pub latest : List Block → List Block
latest bs = drop (length bs - max_audio_buffered_blocks) bs

drop-append_le : (k : ℕ) (xs ys : List Block) → k ≤ length xs → drop k (xs ++ ys) ≡ drop k xs ++ ys
drop-append_le zero xs ys h = refl
drop-append_le (suc k) [] ys h = absurd (omega arith)
drop-append_le (suc k) (x ∷ xs) ys h = drop-append_le k xs ys (omega arith)

drop_one : (k : ℕ) (xs : List Block) → drop 1 (drop k xs) ≡ drop (suc k) xs
drop_one zero xs = refl
drop_one (suc k) [] = refl
drop_one (suc k) (x ∷ xs) = drop_one k xs

-- One more block, behind the latest.
latest-snoc :
    (w : Swap) (bs : List Block) (b : Block)
    → w.buffers ≡ latest bs
    → (push_block w b).0.buffers ≡ latest (bs ++ (b ∷ []))
unfolding push_block
latest-snoc w bs b e =
    let len : length w.buffers ≡ length bs - (length bs - 6) =
      ap length e ∙ length-drop (length bs - 6) bs in
    elim (Bool-cases (leb max_audio_buffered_blocks (length w.buffers))) [
      | inl full ↦
          let many : 6 ≤ length bs = ground arith in
          let n : length (bs ++ (b ∷ [])) - 6 ≡ suc (length bs - 6) =
            omega (arith, many, length-append bs (b ∷ [])) in
          rw (full, n)
            (ap (λ k. drop 1 k ++ (b ∷ [])) e
              ∙ ap (λ k. k ++ (b ∷ [])) (drop_one (length bs - 6) bs)
              ∙ sym (drop-append_le (suc (length bs - 6)) bs (b ∷ []) (omega (arith, many))))
      | inr part ↦
          let few : length bs < 6 = ground arith in
          let n : length (bs ++ (b ∷ [])) - 6 ≡ 0 = omega (arith, few, length-append bs (b ∷ [])) in
          let m : length bs - 6 ≡ 0 = omega (arith, few) in
          rw (part, n) (ap (λ k. k ++ (b ∷ [])) (e ∙ ap (λ k. drop k bs) m))
    ]

-- The old encoder, and a swap to another that keeps the latest of the blocks so far.
abbrev IsKeeping : ℕ → ℕ → List Block → Session → Type 0
IsKeeping old new bs s =
    (s.encoder ≡ old)
    × ((w : Swap) × (s.swap ≡ some w) × (w.encoder ≡ new) × (w.buffers ≡ latest bs))

abbrev pub capture_of : Block → Call
capture_of b = captures true b.buffer (some b.timestamp_samples) false

sync_clock-keeps :
    (s : Session) (b : Block)
    → ((sync_clock s b).0.swap ≡ s.swap) × ((sync_clock s b).0.encoder ≡ s.encoder)
unfolding sync_clock
sync_clock-keeps s b = ground arith

route-keeps :
    (s : Session) (b : Block) (w : Swap)
    → s.swap ≡ some w
    → ((route s b false).0.swap ≡ some (push_block w b).0)
      × ((route s b false).0.encoder ≡ s.encoder)
unfolding route
route-keeps s b w e = ground (arith, e)

push_block-encoder : (w : Swap) (b : Block) → (push_block w b).0.encoder ≡ w.encoder
unfolding push_block
push_block-encoder w b = ground arith

capture_of-IsKeeping :
    (old new : ℕ) (bs : List Block) (s : Session) (b : Block)
    → IsKeeping old new bs s
    → IsKeeping old new (bs ++ (b ∷ [])) (step s (capture_of b)).0
unfolding step encode_audio_block
capture_of-IsKeeping old new bs s b (a, (w, e, f, g)) =
    let (x, y) = sync_clock-keeps s b in
    let (z, t) = route-keeps (sync_clock s b).0 b w (x ∙ e) in
    (t ∙ y ∙ a, ((push_block w b).0, z, push_block-encoder w b ∙ f, latest-snoc w bs b g))

captures-IsKeeping :
    (old new : ℕ) (bs cs : List Block) (s : Session)
    → IsKeeping old new bs s
    → IsKeeping old new (bs ++ cs) (run s (map capture_of cs)).0
unfolding run
captures-IsKeeping old new bs [] s k = subst (λ l. IsKeeping old new l s) (sym (append-nil bs)) k
captures-IsKeeping old new bs (c ∷ cs) s k =
    subst (λ l. IsKeeping old new l (run (step s (capture_of c)).0 (map capture_of cs)).0)
      (append_assoc bs (c ∷ []) cs)
      (captures-IsKeeping old new (bs ++ (c ∷ [])) cs (step s (capture_of c)).0
        (capture_of-IsKeeping old new bs s c k))

completing :
    (u : Session) (v : Swap) (n : ℕ)
    → u.swap ≡ some v
    → v.encoder ≡ n
    → let (x, es) = complete_swap u true n true in
      (x.encoder ≡ v.encoder)
      × (x.swap ≡ none)
      × (es ≡ closes_encoder u.encoder ∷ (encode_all v.encoder v.buffers ++ (swaps ∷ [])))
unfolding complete_swap
completing u v n e f = ground (arith, e, f)

-- Blocks captured while the old encoder is flushed are not lost but for the oldest above six: when
-- the swap completes in the active session, the old encoder is closed and the new one gets the last
-- six of the blocks that were captured since the swap began, none stale, in their order.
pub complete_swap-latest :
    (s : Session) (w : Swap) (bs : List Block)
    → s.swap ≡ some w
    → w.buffers ≡ []
    → let (u, es) = complete_swap (run s (map capture_of bs)).0 true w.encoder true in
      (u.encoder ≡ w.encoder)
      × (u.swap ≡ none)
      × (es ≡ closes_encoder s.encoder ∷ (encode_all w.encoder (latest bs) ++ (swaps ∷ [])))
complete_swap-latest s w bs e f =
    let u = (run s (map capture_of bs)).0 in
    let (a, (v, g, h, k)) =
      captures-IsKeeping s.encoder w.encoder [] bs s (refl, (w, e, refl, f)) in
    let (x, y, z) = completing u v w.encoder g h in
    (
      x ∙ h,
      y,
      z
          ∙ ap (λ i. closes_encoder i ∷ (encode_all v.encoder v.buffers ++ (swaps ∷ []))) a
          ∙ ap (λ i. closes_encoder s.encoder ∷ (encode_all i v.buffers ++ (swaps ∷ []))) h
          ∙ ap (λ i. closes_encoder s.encoder ∷ (encode_all w.encoder i ++ (swaps ∷ []))) k,
    )
