-- ===== src/FrameClock.antt =====
-- The prediction of presentation times, src/frame_clock.rs.
pub mod Defs
pub mod Prediction
