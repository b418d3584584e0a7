-- ===== src/Events.antt =====
-- src/bfbt/engine/events.py: which of several intents for one fill wins, and what links trades and
-- risk events to it.
pub mod Intent
pub mod Arbitrate
pub mod Count
pub mod Winner
pub mod Groups
pub mod Normal
pub mod Best
pub mod Result
pub mod Arbitrated
pub mod Kept
pub mod Batch
pub mod Link
pub mod Resolved
pub mod Trades
pub mod OneFill
