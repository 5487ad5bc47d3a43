-- ===== src/Lib.antt =====
-- justdb, a key-value store of the log-structured merge kind: writes go to a memtable, full
-- memtables are flushed to sorted files (SSTables) with Bloom filters, and compaction merges the
-- files of a level into the next. The engine (src/storage.rs) calls the memtable, the files and the
-- filters; the files are made of blocks of entries in the format of the serializer.
--
-- Which file models what:
--   Entry         src/lib.rs: `Entry`, with the order of keys in Entry/Order.
--   Error         src/error.rs: `StorageError`, its predicates, its category, its conversions.
--   Serialization src/serialization.rs: Writer has `Serializer`, Reader has `Deserializer`, Utf8 the
--                 check of `String::from_utf8`, Wire the traits with their six implementations and
--                 `utils`. Consumes, Safe and Total are the reasoning about readers.
--   Bloom         src/bloom.rs: `BloomFilter`, `new` to `merge`.
--   KeyMap        the standard library's `BTreeMap`, as a list of pairs in the order of the keys.
--   NumberMap     its `HashMap` from a number, as a list of pairs.
--   MemTable      src/memtable.rs: `MemTable` as a record, `put`, `delete` and the reads.
--   Config        src/config.rs: `Config`, its builders, `validate`, the level functions.
--   Sstable       src/sstable.rs: Block has the format of an entry and of a block
--                 (`serializer_entry`, the head that `flush_current_block` writes) and its readers
--                 (`search_in_block`, `get_entries_in_range_from_block`, the parser in
--                 `load_current_block`); Index has `serialize_index`, what `load_index` reads from
--                 the bytes, and `find_block_for_key`; Footer has the bytes of `write_footer` and
--                 what `load_metadata` reads from them;
--                 Writer has `SSTableWriter`, Builder `SSTableBuilder`, Reader `SSTableReader` with
--                 `SSTableIterator` in Reader/Iterator, and File what the reader finds in a file of the
--                 writer, from the footer to the entries (Writer/Adding is the state of a writer that
--                 has some, File/Placed and File/Find are the blocks of a file and the search in them). Codec names what they use of other
--                 packages; Sample has a codec for the examples.
--   Storage       src/storage.rs: FileName has the names of the files, Engine the state of
--                 `StorageEngine` with `put`, `delete`, the rotation and the flush, Lookup `get`, Scan
--                 `scan`, Compaction the merge of levels and the background compaction, Lifecycle
--                 `open`, `close` and `stats`. Tables is the interface through which the engine sees
--                 the files of src/sstable.rs; Sample has tables for the examples.
--   Cli           src/bin/cli.rs: Text has what the loop uses of strings, Session what the commands act on
--                 and print, Interactive `run_intractive_mode`, Generate the keys and values of the
--                 benchmark, Benchmark `run_benchmark`, Main the commands and `main`.
--   Common        lists, Booleans, bits, bytes, outcomes and `f64` for all of them.
--
-- State and failure: a method on `&mut self` is a function from the state to an outcome and the next
-- state; an outcome is a value, an error or a panic. A function and its model have one name. A key, a
-- value and a string are lists of bytes, as numbers.
--
-- Widths: `usize` and `u64` have 64 bits and wrap, as in a release build, also where the source
-- calls `wrapping_add`; a cast to a narrower type is written out. Lengths that the theorems assume
-- below 2 ^ 63 are those that `Vec` and slices have.
--
-- Fuel: the loop that writes a variable-length integer has ten rounds, one for each seven bits of
-- 64, and the loop that reads one has eleven, of which the last meets the test for a number that is
-- too long. A decimal number of 64 bits has at most twenty digits, and the loop of a rotation that
-- flushes has the number of immutable memtables. The recursion of `level_max_sstables` has its
-- stack depth as fuel, and the binary search the length of the index, which is the width of the range
-- that every round makes narrower. A call of the iterator has one round more than the index has
-- blocks, and the loop that makes a value of the benchmark as many as the value is to have bytes. The
-- interactive loop, which need not end, has so many rounds as are watched.
--
-- The engine: its locks are held within one method, so a method is a function on the whole state, and
-- the readings of the clock during one call are one reading. A background task is counted, and one
-- tick of it is `compaction_tick`. The hash map of a scan or a merge, which is sorted at the end, is a
-- map in the order of its keys from the start. What is printed is left out.
--
-- Parameters: the hash functions (`DefaultHasher`, `blake3`), the checksum, the compressors, the writes
-- to a file and what opening one answers, `f64`, the clock, the number of processors, the random numbers
-- of the benchmark and the lines of the input. Nothing is assumed of them but what a theorem names.
--
-- Memory: room is given whenever it is asked for, so `Vec::with_capacity` and `reserve`, which abort the
-- process when it is not, do nothing.
--
-- Not modelled: the statistics of src/bloom.rs, the interleaving of two tasks in src/storage.rs, the
-- parsing of the arguments, the log and the times in src/bin/cli.rs, the unused src/wal.rs and
-- src/compaction.rs, and the texts that `thiserror` generates.
pub mod Common
pub mod Error
pub mod Serialization
pub mod Bloom
pub mod Entry
pub mod KeyMap
pub mod NumberMap
pub mod MemTable
pub mod Config
pub mod Sstable
pub mod Storage
pub mod Cli
