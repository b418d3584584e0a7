-- ===== src/Risk.antt =====
-- src/bfbt/risk/state_machine.py: the bounded risk state machine, a file for each group of methods.
pub mod State
pub mod Input
pub mod Trigger
pub mod Book
pub mod Evaluate
pub mod Fill
pub mod Checkpoint
pub mod Runs
pub mod Steps
pub mod Phase
pub mod Sync
pub mod Invariant
pub mod Clock
pub mod Preserve
pub mod Drain
pub mod Session
pub mod Outcome
pub mod Exits
pub mod Numbers
pub mod Choice
pub mod Hits
pub mod Contested
