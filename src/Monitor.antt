-- ===== src/Monitor.antt =====
-- The workspaces of one monitor, src/layout/monitor.rs.
pub mod Types
pub mod Switch
pub mod Workspaces
pub mod Cleaning
pub mod Defs
pub mod Invariant
pub mod Moves
pub mod Growing
pub mod Reordering
pub mod Relocating
pub mod Exchanging
pub mod Appending
pub mod Switching
pub mod BackAndForth
