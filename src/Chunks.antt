-- ===== src/Chunks.antt =====
-- src/bfbt/performance: the plan of a long run's chunks, and how a run resumes.
pub mod Plan
pub mod Partition
pub mod Identity
pub mod Accepted
pub mod Workspace
pub mod Resume
pub mod Transaction
pub mod Recorded
pub mod Readable
pub mod Placed
pub mod Committed
