-- ===== src/Storage.antt =====
-- src/storage.rs: the engine. `Tables` is what it asks of the SSTable files, `FileName` their names,
-- `Engine` the state with the writes, the rotation and the flush, `Lookup` and `Scan` the reads,
-- `Compaction` the merge of levels, and `Lifecycle` opening, closing and the statistics.
-- `Sample` has tables for the examples.
pub mod Tables
pub mod FileName
pub mod Engine
pub mod Lookup
pub mod Scan
pub mod Compaction
pub mod Lifecycle
pub mod Sample
