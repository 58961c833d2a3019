-- ===== src/Engine.antt =====
-- engine: the compaction fence of a partition (Engine/Gate) and its generations (Engine/Partition).
pub mod Gate
pub mod Partition
pub mod Rollback
pub mod Restart
