-- ===== src/Aac.antt =====
-- The worker of client/scripts/aac-worker.js: the choice of a codec, the conversion of the samples, the
-- framing for the WASM encoder, and the messages.
pub mod Config
pub mod Samples
pub mod Wasm
pub mod Worker
