-- ===== src/Config.antt =====
-- src/bfbt/config: the parts of a strategy's configuration that the modelled components read.
pub mod ExitRules
pub mod Durations
pub mod Grammar
pub mod Selection
pub mod Disjoint
pub mod Sizing
pub mod Sized
