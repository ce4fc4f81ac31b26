-- ===== src/Publisher/AudioSend/Paths.antt =====
-- The branches of `sendAudioPacket` of streamer.js.
use vrcstreamer.Publisher.Transport.Stall.{poll-alive}
use vrcstreamer.Publisher.Transport.{congested}
use vrcstreamer.Common.{ℕ, ◌+◌, ◌*◌, ◌≡◌, true, false, Option, arith}
use vrcstreamer.Publisher.AudioSend.{
  refill, congested, audio_timestamp_is_stale, Environment, consume_audio_send_budget, transmit,
  offer, send_audio_packet, Session, sent,
}

-- What is sent is a packet of the active session's current encoder, at
-- most half a second old by the 32-bit test, over an open socket whose transport is neither failed
-- nor congested, and its bytes are paid from the refilled budget.
pub send_audio_packet_sent :
    (s : Session) (e : Environment) (encoder bytes : ℕ) (source : Option ℕ)
    → (send_audio_packet s e encoder bytes source).2 ≡ sent
    → let (t, es, r) = send_audio_packet s e encoder bytes source in
      (e.active ≡ true)
      × (s.encoder ≡ encoder)
      × (e.open_socket ≡ true)
      × (audio_timestamp_is_stale e.clock source ≡ false)
      × (t.transport.failed ≡ false)
      × (congested t.transport ≡ false)
      × (t.budget.milli_bytes + bytes * 1000 ≡ refill s.budget e.budget_at)
      × (t.encoder ≡ encoder)
unfolding send_audio_packet offer transmit consume_audio_send_budget
send_audio_packet_sent s e encoder bytes source h =
    ground (arith, poll-alive s.transport e.poll_at e.queued)
