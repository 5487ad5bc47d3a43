-- ===== src/Sstable/Block/Tests.antt =====
-- src/sstable.rs: examples of data blocks, of a value and a tombstone.
use justdbd.Common.{ℕ, ◌^◌, ◌≡◌, ◌≢◌, ◌<◌, List, [], ◌∷◌, none, some, arith, length, All}
use justdbd.Common.Outcome.{ok, panic}
use justdbd.Entry.Record
use justdbd.Entry.Record.{Entry}
use justdbd.Common.Bytes.{le_bytes}
use justdbd.Serialization.Writer.{write_u32, finish}
use justdbd.Sstable.Block.{
  block_data, search_in_block, get_entries_in_range_from_block, parse_block,
}
use justdbd.Sstable.Block.Layout.{IsStorable, layout}
use justdbd.Sstable.Block.RoundTrip.{
  find, between, layouts, block_of, search_in_block-block_of, get_entries_in_range-block_of,
}
use justdbd.Sstable.Block.Total.{block_readers-ne-panic}

abbrev first_key : List ℕ
first_key = 97 ∷ []

abbrev second_key : List ℕ
second_key = 98 ∷ []

abbrev entries : List Entry
entries = Record.new first_key (some (5 ∷ [])) 7 0 ∷ Record.new second_key none 8 1 ∷ []

abbrev stored : All IsStorable entries
stored = (
  record {
    key_fits = omega arith;
    value_fits = omega arith;
    timestamp_fits = omega arith;
    sequence_fits = omega arith;
  },
  (
    record {
      key_fits = omega arith;
      value_fits = omega arith;
      timestamp_fits = omega arith;
      sequence_fits = omega arith;
    },
    tt,
  ),
)

block_small : length (block_of entries) < 2 ^ 63
unfolding block_data finish write_u32 le_bytes layouts layout
block_small = omega arith

search_in_block-block_of_example :
    search_in_block (block_of entries) second_key ≡ ok (find second_key entries)
search_in_block-block_of_example =
    search_in_block-block_of entries stored (omega arith) block_small second_key

get_entries_in_range-block_of_example :
    get_entries_in_range_from_block (block_of entries) first_key second_key
    ≡ ok (between first_key second_key entries)
get_entries_in_range-block_of_example =
    get_entries_in_range-block_of entries stored (omega arith) block_small first_key second_key

abbrev short_block : List ℕ
short_block = 1 ∷ 0 ∷ []

block_readers-ne-panic_example :
    ((target : List ℕ) → search_in_block short_block target ≢ panic)
    × ((start end : List ℕ) → get_entries_in_range_from_block short_block start end ≢ panic)
    × (parse_block short_block ≢ panic)
block_readers-ne-panic_example =
    block_readers-ne-panic short_block (omega arith, (omega arith, tt)) (omega arith)
