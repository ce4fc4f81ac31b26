-- ===== src/Video.antt =====
-- The video worker, client/scripts/video-worker.js.
pub mod RateControl
pub mod Level
pub mod AnnexB
pub mod Clock
pub mod Worker
