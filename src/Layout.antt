-- ===== src/Layout.antt =====
-- All monitors together, src/layout/mod.rs.
pub mod Types
pub mod Counting
pub mod Outputs
pub mod Creation
pub mod Belonging
pub mod Extraction
pub mod Views
pub mod Ownership
pub mod Adding
pub mod Joining
pub mod Rehoming
pub mod Removing
pub mod Leaving
pub mod Moves
pub mod Carrying
pub mod Sending
pub mod Crossing
