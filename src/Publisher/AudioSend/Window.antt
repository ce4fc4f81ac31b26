-- ===== src/Publisher/AudioSend/Window.antt =====
-- The audio budget of streamer.js as a bound on the bytes sent in any window of time.
use vrcstreamer.Publisher.AudioSend.{
  max_audio_send_burst_bytes, refill, consume_audio_send_budget, Budget,
}
use vrcstreamer.Common.{ℕ, ◌+◌, ◌-◌, ◌*◌, ◌≤◌, ◌≡◌, true, List, [], ◌∷◌, arith, if◌then◌else◌}

-- The calls of a history, `(now, bytes)`, in turn; the second part is the number of bytes allowed.
unfoldable pub run : Budget → List (ℕ × ℕ) → Budget × ℕ
run b [] = (b, 0)
run b ((now, bytes) ∷ cs) =
    let (c, enough) = consume_audio_send_budget b now bytes in
    let (d, sum) = run c cs in (d, if enough then bytes + sum else sum)

-- The clock does not go back, and stays within `[from, to]`.
abbrev pub IsOrderedBetween : ℕ → ℕ → List (ℕ × ℕ) → Type 0
IsOrderedBetween from to [] = from ≤ to
IsOrderedBetween from to ((now, bytes) ∷ cs) = (from ≤ now) × IsOrderedBetween now to cs

le_to : (from to : ℕ) (cs : List (ℕ × ℕ)) → IsOrderedBetween from to cs → from ≤ to
le_to from to [] h = h
le_to from to ((now, bytes) ∷ cs) h = omega (arith, le_to now to cs h.1)

run_bound :
    (b : Budget) (to : ℕ) (cs : List (ℕ × ℕ))
    → IsOrderedBetween b.at to cs
    → (run b cs).1 * 1000 ≤ b.milli_bytes + 48 * (to - b.at)
unfolding run consume_audio_send_budget refill
run_bound b to [] h = omega arith
run_bound b to ((now, bytes) ∷ cs) h =
    let c = (consume_audio_send_budget b now bytes).0 in
    ground (arith, run_bound c to cs, le_to now to cs h.1)

-- Whatever the budget was, the bytes allowed by calls whose clock runs from `from` to `to` are at
-- most a burst of 48000 and 48000 for each second of the window.
pub run-bytes_le :
    (b : Budget) (from to bytes : ℕ) (cs : List (ℕ × ℕ))
    → IsOrderedBetween from to cs
    → (run b ((from, bytes) ∷ cs)).1 * 1000 ≤ max_audio_send_burst_bytes * 1000 + 48 * (to - from)
unfolding run consume_audio_send_budget refill
run-bytes_le b from to bytes cs h =
    let c = (consume_audio_send_budget b from bytes).0 in
    ground (arith, run_bound c to cs, le_to from to cs h)

-- After a second without sending, a packet of at most 48000 bytes is always allowed.
pub consume_audio_send_budget_ready :
    (b : Budget) (now bytes : ℕ)
    → b.at + 1_000_000 ≤ now
    → bytes ≤ max_audio_send_burst_bytes
    → (consume_audio_send_budget b now bytes).1 ≡ true
unfolding consume_audio_send_budget refill
consume_audio_send_budget_ready b now bytes h k = ground arith
