-- ===== src/Sstable/File/Tests.antt =====
-- src/sstable.rs: examples of files that are written and read.
use justdbd.Common.{
  ℕ, ◌≡◌, refl, List, [], ◌∷◌, some, none, arith, length, All, ◌++◌, length-append,
}
use justdbd.Common.Bytes.{le_bytes}
use justdbd.Common.Outcome.{ok, and_then}
use justdbd.Bloom
use justdbd.Bloom.{to_bytes}
use justdbd.Config.{uncompressed}
use justdbd.Common.Whole.{whole}
use justdbd.Entry.{compare_keys}
use justdbd.Entry.Record
use justdbd.Entry.Record.{Entry}
use justdbd.Sstable.Builder.{SstableBuilder, new}
use justdbd.Sstable.File.Table.{write_entries, write_entries-iter}
use justdbd.Sstable.File.Get.{write_entries-get}
use justdbd.Serialization.Writer
use justdbd.Serialization.Writer.{write_u8, write_u32, write_u64, write_bytes}
use justdbd.Sstable.Block.{block_data, entry_data}
use justdbd.Sstable.Footer.{SstableMeta}
use justdbd.Sstable.File.{IsFlushed, file_length, opened, open_reader-finish}
use justdbd.Sstable.File.Blocks.{IsFlushable, load_block-flush_current_block}
use justdbd.Sstable.Index.{IndexEntry, serialize_index}
use justdbd.Sstable.Reader.{get, SstableReader, mapped, open_reader, load_block, decompress}
use justdbd.Sstable.Reader.Frame.{frame}
use justdbd.Sstable.Sample.{plain, no_hashes, eight_bits, first_place, writer, blank_writer}
use justdbd.Sstable.Writer.{
  is_out_of_order, add_all, add, note_keys, append_entry, flush_if_full, add_to_filter,
  SstableWriter, TableMeta, compress_block, flush_current_block, finish,
}
use justdbd.Sstable.Writer.Adding.{IsRestoring, InOrder}
use justdbd.Sstable.Writer.Runs.{IsAppending}
use justdbd.Sstable.Block.Layout.{IsStorable, layout}
use justdbd.Sstable.Block.RoundTrip.{layouts, find}
use justdbd.Sstable.Reader.Iterator.{iter, next}
use justdbd.Sstable.Reader.Iterator.Blocks.{Yields}

plain-IsAppending : IsAppending plain
plain-IsAppending = record {
  accepts = λ bytes content. refl;
  appends = λ bytes content. refl;
  syncs = λ content. refl;
}

blank_writer-IsFlushed : IsFlushed blank_writer
unfolding to_bytes serialize_index le_bytes write_u32 Writer.finish
blank_writer-IsFlushed = record {
  placed = refl;
  entries_fit = omega arith;
  time_fits = omega arith;
  index_fits = tt;
  few = omega arith;
  short = let n : file_length blank_writer ≡ 81 = refl in omega (arith, n);
}

open_reader-finish_example :
    (table : TableMeta) × (w' : SstableWriter) × (finish plain blank_writer ≡ (ok table, w'))
    × (open_reader (ok (mapped w'.content))
        ≡ and_then
            (Bloom.from_bytes (Bloom.to_bytes eight_bits))
            λ filter. ok (opened w'.content table.footer [] filter))
unfolding flush_current_block
open_reader-finish_example =
    open_reader-finish plain plain-IsAppending blank_writer blank_writer refl blank_writer-IsFlushed

abbrev any_meta : SstableMeta
any_meta = record {
  entry_count = 0;
  data_size = 0;
  index_size = 0;
  bloom_offset = 0;
  bloom_size = 0;
  compression = uncompressed;
  created_at = 0;
  version = 1;
}

abbrev packed : List ℕ
packed = block_data 1 (7 ∷ 8 ∷ [])

abbrev reading : SstableReader
reading = opened (frame plain packed) any_meta [] eight_bits

writer-IsFlushable : IsFlushable plain writer [] first_place packed
unfolding block_data compress_block decompress write_u32 le_bytes Writer.finish
writer-IsFlushable = record {
  started = omega arith;
  indexed = refl;
  at_end = refl;
  placed = refl;
  compresses = refl;
  restores = refl;
  sum_fits = omega arith;
  short = omega arith;
}

load_block-flush_current_block_example :
    (w' : SstableWriter) × (last : IndexEntry) × (flush_current_block plain writer ≡ (ok tt, w'))
    × (w'.content ≡ frame plain packed)
    × (w'.position ≡ length w'.content)
    × (w'.index ≡ last ∷ [])
    × (load_block plain last reading ≡ ok packed)
unfolding block_data write_u32 le_bytes Writer.finish
load_block-flush_current_block_example =
    load_block-flush_current_block plain plain-IsAppending writer [] first_place packed [] reading
      writer-IsFlushable refl refl (omega arith)

abbrev two : List Entry
two = Record.new (b'a' ∷ []) (some (5 ∷ [])) 7 1 ∷ Record.new (b'b' ∷ []) none 8 2 ∷ []

abbrev builder : SstableBuilder whole
builder = record {
  compression = uncompressed;
  compression_level = 1;
  bloom_false_positive_rate = 1;
}

abbrev fresh : SstableWriter
fresh = record (blank_writer) {
  bloom_filter = Bloom.new whole 2 1;
  entry_count = 0;
  min_key = none;
  max_key = none;
  created_at = 5;
}

abbrev written : SstableWriter
written = (write_entries plain no_hashes two fresh).1

written_length : length written.content ≡ 57
unfolding add_all add note_keys append_entry flush_if_full add_to_filter flush_current_block
    compare_keys entry_data block_data Bloom.add Bloom.new le_bytes write_u8 write_u32 write_u64
    write_bytes Writer.finish
written_length = refl

plain-IsRestoring : IsRestoring plain uncompressed
unfolding compress_block decompress
plain-IsRestoring = record {
  packed = λ w bytes. bytes;
  compresses = λ w bytes same. uncompressed_block bytes w same;
  restores = λ w bytes same. refl;
  sums = λ bytes. omega arith;
}
  where
    uncompressed_block :
        (bytes : List ℕ) (w : SstableWriter)
        → w.compression ≡ uncompressed
        → compress_block plain bytes w ≡ ok bytes
    uncompressed_block bytes w same = rw (compress_block, same) refl

two-IsStorable : All IsStorable two
two-IsStorable = (
  record {
    key_fits = omega arith;
    value_fits = omega arith;
    timestamp_fits = omega arith;
    sequence_fits = omega arith;
  },
  (
    record {
      key_fits = omega arith;
      value_fits = omega arith;
      timestamp_fits = omega arith;
      sequence_fits = omega arith;
    },
    tt,
  ),
)

-- A reader of the table, whose filter is left out.
abbrev table_reader : SstableReader
table_reader = record {
  source = mapped (written.content ++ []);
  meta = any_meta;
  min_key = b'a' ∷ [];
  max_key = b'a' ∷ [];
  index = written.index;
  bloom_filter = none;
  block_cache = [];
}

write_entries-iter_example :
    ((write_entries plain no_hashes two fresh).0 ≡ ok tt)
    × Yields plain (next plain (iter table_reader)) two (ok none)
unfolding new InOrder is_out_of_order compare_keys layouts layout le_bytes
write_entries-iter_example =
    write_entries-iter plain no_hashes builder plain-IsAppending plain-IsRestoring 5 2 fresh two []
      table_reader refl (refl, (refl, tt)) two-IsStorable (omega arith) (omega arith) refl refl refl
      refl (omega (arith, written_length, length-append written.content []))

write_entries-get_example :
    ((write_entries plain no_hashes two fresh).0 ≡ ok tt)
    × ((get plain no_hashes (b'b' ∷ []) table_reader).0 ≡ ok (find (b'b' ∷ []) two))
unfolding new InOrder is_out_of_order compare_keys layouts layout le_bytes
write_entries-get_example =
    write_entries-get plain no_hashes builder plain-IsAppending plain-IsRestoring 5 2 fresh two []
      table_reader (b'b' ∷ []) refl (refl, (refl, tt)) two-IsStorable (omega arith) (omega arith)
      refl refl refl refl refl (omega (arith, written_length, length-append written.content []))
