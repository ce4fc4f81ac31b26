-- ===== src/Publisher/AudioSend/Tests.antt =====
-- The audio send path of streamer.js at concrete inputs.
use vrcstreamer.Publisher.AudioSend.Paths.{send_audio_packet_sent}
use vrcstreamer.Publisher.AudioSend.Stale.{audio_timestamp_is_stale_iff}
use vrcstreamer.Publisher.Transport.{is_stalled, watch, poll, congested, Transport}
use vrcstreamer.Publisher.AudioSend.Window.{run-bytes_le, consume_audio_send_budget_ready, run}
use vrcstreamer.Common.{
  ℕ, ◌+◌, ◌-◌, ◌*◌, ◌≤◌, ◌<◌, ◌≡◌, refl, ◌↔◌, true, false, none, some, List, [], ◌∷◌, arith,
}
use vrcstreamer.Publisher.AudioSend.{
  poll, transmit, congested, refill, offer, max_audio_packet_age_samples,
  max_audio_send_burst_bytes, consume_audio_send_budget, audio_timestamp_is_stale,
  send_audio_packet, Transport, Session, Environment, Budget, dropped, sent,
}

abbrev full : Budget
full = record { milli_bytes = 48_000_000; at = 1_000_000 }

abbrev calm : Transport
calm = record { congested_at = 0; failed = false; video_control = none; video_paused = false }

abbrev session : Session
session = record { encoder = 5; transport = calm; budget = full }

-- The clock has wrapped past 2^32, the packet's count has not.
abbrev environment : Environment
environment = record {
  active = true;
  open_socket = true;
  clock = 4_294_970_000;
  poll_at = 1_000_010;
  budget_at = 1_000_020;
  queued = 0;
  send_throws = false;
}

sends : (send_audio_packet session environment 5 400 (some 4_294_960_000)).2 ≡ sent
unfolding send_audio_packet audio_timestamp_is_stale offer consume_audio_send_budget refill transmit
    poll watch is_stalled
sends = refl

drops_stale : (send_audio_packet session environment 5 400 (some 4_294_900_000)).2 ≡ dropped
unfolding send_audio_packet audio_timestamp_is_stale
drops_stale = refl

send_audio_packet_sent_example :
    let (t, es, r) = send_audio_packet session environment 5 400 (some 4_294_960_000) in
    (environment.active ≡ true)
    × (session.encoder ≡ 5)
    × (environment.open_socket ≡ true)
    × (audio_timestamp_is_stale 4_294_970_000 (some 4_294_960_000) ≡ false)
    × (t.transport.failed ≡ false)
    × (congested t.transport ≡ false)
    × (t.budget.milli_bytes + 400 * 1000 ≡ refill full 1_000_020)
    × (t.encoder ≡ 5)
send_audio_packet_sent_example =
    send_audio_packet_sent session environment 5 400 (some 4_294_960_000) sends

audio_timestamp_is_stale_iff_example :
    (audio_timestamp_is_stale 4_294_970_000 (some 4_294_960_000) ≡ true)
    ↔ (4_294_960_000 + max_audio_packet_age_samples < 4_294_970_000)
audio_timestamp_is_stale_iff_example =
    audio_timestamp_is_stale_iff 4_294_970_000 4_294_960_000 (omega arith) (omega arith)

abbrev calls : List (ℕ × ℕ)
calls = (1_500_000, 30_000) ∷ (2_000_000, 48_000) ∷ []

run_bytes : (run full ((1_000_000, 40_000) ∷ calls)).1 ≡ 70_000
unfolding run consume_audio_send_budget refill
run_bytes = refl

run-bytes_le_example :
    (run full ((1_000_000, 40_000) ∷ calls)).1 * 1000
    ≤ max_audio_send_burst_bytes * 1000 + 48 * (2_000_000 - 1_000_000)
run-bytes_le_example = run-bytes_le full 1_000_000 2_000_000 40_000 calls (omega arith)

consume_audio_send_budget_ready_example :
    (consume_audio_send_budget (record { milli_bytes = 0; at = 5 }) 1_000_005 48_000).1 ≡ true
consume_audio_send_budget_ready_example =
    consume_audio_send_budget_ready (record { milli_bytes = 0; at = 5 }) 1_000_005 48_000
      (omega arith) (omega arith)
