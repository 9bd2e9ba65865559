-- ===== src/Ipc.antt =====
-- The state that clients keep from the event stream, niri-ipc/src/state.rs.
pub mod Types
pub mod State
pub mod Replicate
pub mod Keyed
pub mod Reached
pub mod Focus
pub mod Active
pub mod Refresh
pub mod Effects
pub mod Runs
pub mod Entries
pub mod Refreshing
pub mod Refreshed
pub mod Readiness
pub mod Refinement
