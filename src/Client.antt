-- ===== src/Client.antt =====
-- The settings of client/scripts/client.js: the stream code, and the presets of the video that a
-- server offers.
pub mod Quality
pub mod Presets
pub mod Code
