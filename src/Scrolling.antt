-- ===== src/Scrolling.antt =====
-- The columns and tiles of a workspace, src/layout/scrolling.rs.
pub mod Types
pub mod Columns
pub mod Commands
pub mod Transfer
pub mod Invariant
pub mod Removal
pub mod Insertion
pub mod Consuming
pub mod Expelling
pub mod Moving
pub mod Exchanging
pub mod Placing
pub mod Swapping
pub mod Activating
pub mod Focusing
pub mod Sequences
pub mod Preserving
