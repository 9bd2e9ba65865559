-- ===== src/Session.antt =====
-- The session lock and the redraw of outputs, in src/niri.rs with the two backends of
-- src/backend/mod.rs.
pub mod Types
pub mod Lock
pub mod Redraw
pub mod Safety
pub mod Commits
pub mod Steps
pub mod Loop
pub mod Completion
pub mod Traces
