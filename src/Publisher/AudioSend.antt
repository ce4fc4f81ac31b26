-- ===== src/Publisher/AudioSend.antt =====
-- The way of an encoded AAC packet to the WebSocket in client/scripts/streamer.js:
-- `audioTimestampIsStale`, `consumeAudioSendBudget` and `sendAudioPacket`.
-- Times are whole microseconds. The budget counts thousandths of a byte, so that its refill of
-- 48000 bytes a second is 48 thousandths a microsecond, exactly.
pub mod Stale
pub mod Window
pub mod Paths
pub mod Tests
use vrcstreamer.Common.{
  ℕ, zero, suc, ◌+◌, ◌-◌, ◌*◌, ◌/◌, ◌%◌, ◌^◌, ◌≤◌, ◌<◌, min, max, ◌≡◌, refl, sym, ap, ◌∙◌, ◌≢◌, ◌↔◌,
  ◌⊎◌, inl, inr, Bool, true, false, not, ◌&&◌, ◌||◌, Option, none, some, List, [], ◌∷◌, ◌++◌, map,
  append_assoc, append-nil, arith, ltb, leb, ◌==◌, if◌then◌else◌, Bool-cases, Option-cases, is_some,
  length, get_elem?, get_or, set, take, drop, replicate, All,
}
use vrcstreamer.Publisher.Transport.{Transport, Outcome, Event, poll, abort, congested, other}

abbrev pub sample_rate : ℕ
sample_rate = 48000

abbrev pub max_audio_buffered_blocks : ℕ
max_audio_buffered_blocks = 6

abbrev pub max_audio_packet_age_samples : ℕ
max_audio_packet_age_samples = sample_rate / 2

abbrev pub max_audio_send_bytes_per_second : ℕ
max_audio_send_bytes_per_second = 48000

abbrev pub max_audio_send_burst_bytes : ℕ
max_audio_send_burst_bytes = max_audio_send_bytes_per_second

-- `clock` is `Math.round(currentTime * sampleRate)`; `none` is a timestamp that is no integer. The
-- callers' integers are not negative.
pub audio_timestamp_is_stale : ℕ → Option ℕ → Bool
audio_timestamp_is_stale clock none = false
audio_timestamp_is_stale clock (some source) =
    let current = clock % 2 ^ 32 in
    let age = (current + 2 ^ 32 - source % 2 ^ 32) % 2 ^ 32 in
    ltb age 0x8000_0000 && ltb max_audio_packet_age_samples age

pub record Budget : Type 0 where
  pub milli_bytes : ℕ
  pub at : ℕ

-- `Math.min(burst, budget + elapsed * rate)` at time `now`.
pub refill : Budget → ℕ → ℕ
refill b now =
    min (max_audio_send_burst_bytes * 1000)
      (b.milli_bytes + (now - b.at) * max_audio_send_bytes_per_second / 1000)

pub consume_audio_send_budget : Budget → ℕ → ℕ → Budget × Bool
consume_audio_send_budget b now bytes =
    let level = refill b now in
    if ltb level (bytes * 1000)
    then (record { milli_bytes = level; at = now }, false)
    else (record { milli_bytes = level - bytes * 1000; at = now }, true)

-- What `sendAudioPacket` uses of a session. `encoder` is the identity of `session.encoder`.
pub record Session : Type 0 where
  pub encoder : ℕ
  pub transport : Transport
  pub budget : Budget

-- What it reads of the rest of the program: is the session `app.active`, is its socket open, the
-- audio clock in samples, the time when the transport polls and when the budget is read, the bytes
-- that the socket has queued, and whether `ws.send` throws.
pub record Environment : Type 0 where
  pub active : Bool
  pub open_socket : Bool
  pub clock : ℕ
  pub poll_at : ℕ
  pub budget_at : ℕ
  pub queued : ℕ
  pub send_throws : Bool

-- `ignored` and `halted` return silently, `dropped` calls `recordDrop`, `sent` calls `ws.send`, and
-- `refused` is a `ws.send` that throws, after which the transport is aborted.
pub data Sending : Type 0 where
  ignored dropped halted sent refused : Sending

pub transmit : Session → Environment → Session × List Event × Sending
transmit s e =
    let (t, es) = abort s.transport (other 0) in
    if e.send_throws then (record s { transport = t }, es, refused) else (s, [], sent)

-- From the poll on.
pub offer : Session → Environment → ℕ → Session × List Event × Sending
offer s e bytes =
    let (t, es, alive) = poll s.transport e.poll_at e.queued in
    let u : Session = record s { transport = t } in
    let (b, enough) = consume_audio_send_budget s.budget e.budget_at bytes in
    let w : Session = record u { budget = b } in
    let (x, fs, r) = transmit w e in
    if not alive
    then (u, es, halted)
    else if congested t
    then (u, es, dropped)
    else if not enough
    then (w, es, dropped)
    else (x, es ++ fs, r)

pub send_audio_packet : Session → Environment → ℕ → ℕ → Option ℕ → Session × List Event × Sending
send_audio_packet s e encoder bytes source =
    if not e.active || not (s.encoder == encoder) || not e.open_socket
    then (s, [], ignored)
    else if audio_timestamp_is_stale e.clock source
    then (s, [], dropped)
    else offer s e bytes
