-- ===== src/Examples.antt =====
-- Concrete inputs for the theorems, and runs of the definitions.
pub mod Session
pub mod Monitor
pub mod Ipc
pub mod FrameClock
pub mod Switching
pub mod Layout
pub mod Refresh
pub mod Scrolling
