-- ===== src/Sstable.antt =====
-- src/sstable.rs: the files of sorted entries. `Block` has the format of a data block, `Index` the
-- index, its format and its binary search, `Footer` the end of a file, `Codec` what is used of other
-- packages, `Writer` and `Builder` the writing of a file, `Reader` the reading of one, and `File` what is
-- read of what was written.
pub mod Block
pub mod Index
pub mod Footer
pub mod Codec
pub mod Writer
pub mod Builder
pub mod Reader
pub mod File
mod Sample
