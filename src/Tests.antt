-- ===== src/Tests.antt =====
-- Runs of the models on concrete inputs.
mod Fixed
mod Risk
mod Rank
mod Chunks
mod Events
mod Position
