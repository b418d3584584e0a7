-- ===== src/Chunks/Committed.antt =====
-- A chunk that is written and committed is found again when the run resumes.
use bfbt.Chunks.Transaction.{Transaction}
