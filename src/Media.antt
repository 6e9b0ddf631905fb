-- ===== src/Media.antt =====
-- common/media: the streams of the proxy. `Thread` is what StreamThread's thread does and `Owner` its
-- Start and Stop, `VideoOp` is StreamVideoOp, and `Software` a small codec for the examples; the
-- other modules hold the proofs.
pub mod Thread
pub mod Events
pub mod Ends
pub mod Owner
pub mod VideoOp
pub mod VideoSafe
pub mod VideoRuns
pub mod Software
mod Examples
mod VideoExamples
