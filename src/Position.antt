-- ===== src/Position.antt =====
-- src/bfbt/portfolio/instructions.py: sizing, constraints and the account of the positions.
pub mod State
pub mod Value
pub mod Execute
pub mod Limit
pub mod Legs
pub mod Selections
pub mod Process
pub mod Batch
pub mod Tracked
pub mod Kept
pub mod Preserve
pub mod Reach
pub mod Safe
pub mod Bisect
pub mod Counted
pub mod Numbered
pub mod Saved
