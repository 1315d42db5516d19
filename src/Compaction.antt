-- ===== src/Compaction.antt =====
-- Context compaction: src/compaction/compactor.ts over the messages of src/backend/types.ts.
pub mod Message
pub mod Estimate
pub mod Tail
pub mod Sanitize
pub mod SystemText
pub mod Thresholds
pub mod Repair
pub mod Run
pub mod Checkpoint
pub mod Trim
pub mod Notes
pub mod Resume
