-- ===== src/Sstable/File.antt =====
-- src/sstable.rs: what `SSTableReader` finds in a file that `SSTableWriter` has written: its footer and
-- index here, one block in `Blocks`, all blocks of a table in `Placed`, its entries in `Table`, and a
-- single entry in `Find` and `Get`.
pub mod Blocks
pub mod Placed
pub mod Sorted
pub mod Find
pub mod Table
pub mod Get
mod Tests
use justdbd.Common.{
  ℕ, ◌+◌, ◌%◌, ◌^◌, ◌≤◌, ◌<◌, ◌≡◌, refl, sym, ap, ◌∙◌, Bool, true, false, List, [], ◌∷◌, ◌++◌,
  Option, none, some, arith, length, All, length-append,
}
use justdbd.Common.Outcome.{Outcome, ok, err, and_then}
use justdbd.Bloom
use justdbd.Bloom.Format.{length-to_bytes}
use justdbd.Sstable.Codec.{Codec}
use justdbd.Sstable.Footer.{SstableMeta, write_footer}
use justdbd.Sstable.Footer.RoundTrip.{load_metadata-write_footer}
use justdbd.Sstable.Index.{IndexEntry, serialize_index}
use justdbd.Sstable.Index.RoundTrip as IndexFormat
use justdbd.Sstable.Reader.{SstableReader, mapped, open_reader, first_index_key, last_index_key}
use justdbd.Sstable.Reader.Layout.{file, length-file, IsLaidOut, open_reader-file}
use justdbd.Sstable.Writer.{SstableWriter, TableMeta, flush_current_block, finish}
use justdbd.Sstable.Writer.Runs.{IsAppending, tail_meta, finish-run}

-- The length of the file that `finish` makes when the last block has been flushed.
abbrev pub file_length : SstableWriter → ℕ
file_length w =
    length w.content
    + (length (Bloom.to_bytes w.bloom_filter) + (length (serialize_index w.index) + 64))

-- What a writer holds that has no open block: its position is that of the file, and what it writes fits
-- the format.
pub record IsFlushed (w : SstableWriter) : Type 0 where
  pub placed : w.position ≡ length w.content
  pub entries_fit : w.entry_count < 2 ^ 64
  pub time_fits : w.created_at < 2 ^ 64
  pub index_fits : All IndexFormat.IsStorable w.index
  pub few : length w.index < 2 ^ 32
  pub short : file_length w < 2 ^ 63

-- The reader of a file with an index and a filter.
abbrev pub opened : List ℕ → SstableMeta → List IndexEntry → Bloom.BloomFilter → SstableReader
opened content meta index filter = record {
  source = mapped content;
  meta = meta;
  min_key = first_index_key index;
  max_key = last_index_key index;
  index = index;
  bloom_filter = some filter;
  block_cache = [];
}

module _ (codec : Codec) (h : IsAppending codec) where
  -- If every write to the file succeeds and the last block has been flushed, leaving a writer whose
  -- contents fit the format and a file shorter than 2 ^ 63 bytes, then `finish` succeeds. Opening the
  -- file that it leaves, mapped, finds the footer that it returned and the index as it was; it succeeds
  -- just when the bytes of the filter are accepted.
  open_reader-finish :
      (w w1 : SstableWriter)
      → flush_current_block codec w ≡ (ok tt, w1)
      → IsFlushed w1
      → (table : TableMeta) × (w' : SstableWriter) × (finish codec w ≡ (ok table, w'))
        × (open_reader (ok (mapped w'.content))
            ≡ and_then
                (Bloom.from_bytes (Bloom.to_bytes w1.bloom_filter))
                λ filter. ok (opened w'.content table.footer w1.index filter))
  open_reader-finish w w1 flushed v =
      let meta = tail_meta w1.position w1 in
      let bloom = Bloom.to_bytes w1.bloom_filter in
      let index_data = serialize_index w1.index in
      let (footer, made, width, read) = load_metadata-write_footer meta (record {
        entry_count_fits = v.entries_fit;
        data_size_fits = omega (arith, v.placed, v.short);
        index_size_fits = omega (arith, v.short);
        bloom_offset_fits = omega (arith, v.placed, v.short);
        bloom_size_fits = omega (arith, v.short);
        created_at_fits = v.time_fits;
      }) in
      let (table, w', run, same, content) = finish-run codec h w w1 footer flushed made in
      (
        table,
        w',
        run,
        rw (same, content)
            (open_reader-file w1.content bloom index_data footer meta w1.index (record {
              small = omega (
                arith,
                v.short,
                length-file w1.content bloom index_data footer meta w1.index width,
              );
              width = width;
              footer_read = read;
              bloom_at = v.placed;
              bloom_wide = refl;
              bloom_there = omega (arith, length-to_bytes w1.bloom_filter);
              index_wide = refl;
              index_read =
                  IndexFormat.load_index-serialize_index w1.index v.index_fits v.few
                    (omega (arith, v.short));
            })),
      )
