-- ===== src/Publisher.antt =====
-- The publishing session, client/scripts/streamer.js.
pub mod Transport
pub mod AudioSend
pub mod Session
pub mod Devices
pub mod EncoderSwap
pub mod AacEncoder
pub mod VideoWorker
