-- ===== src/Sstable/Index/Tests.antt =====
-- src/sstable.rs: examples of an index of two blocks.
use justdbd.Common.{◌^◌, ◌≡◌, ◌<◌, refl, List, [], ◌∷◌, arith, length, All}
use justdbd.Common.Bytes.{le_bytes}
use justdbd.Common.Outcome.{ok}
use justdbd.Entry.{compare_keys}
use justdbd.Serialization.Writer.{write_u32, write_u64, write_bytes, finish}
use justdbd.Sstable.Index.{
  IndexEntry, write_index_entry, write_index_entries, serialize_index, load_index,
  find_block_for_key,
}
use justdbd.Sstable.Index.RoundTrip.{IsStorable, load_index-serialize_index}
use justdbd.Sstable.Index.Search.{IsAscending, last_block, find_block_for_key-last_block}

abbrev two_blocks : List IndexEntry
two_blocks =
    record { key = 97 ∷ []; offset = 0; size = 4100 }
    ∷ record { key = 110 ∷ []; offset = 4100; size = 60 }
    ∷ []

abbrev stored : All IsStorable two_blocks
stored = (
  record { key_fits = omega arith; offset_fits = omega arith; size_fits = omega arith },
  (record { key_fits = omega arith; offset_fits = omega arith; size_fits = omega arith }, tt),
)

index_small : length (serialize_index two_blocks) < 2 ^ 63
unfolding serialize_index write_index_entries write_index_entry write_u32 write_u64 write_bytes
    finish le_bytes
index_small = omega arith

load_index-serialize_index_example : load_index (serialize_index two_blocks) ≡ ok two_blocks
load_index-serialize_index_example =
    load_index-serialize_index two_blocks stored (omega arith) index_small

ascending : IsAscending two_blocks
unfolding IsAscending compare_keys
ascending = ((refl, tt), (tt, tt))

find_block_for_key-last_block_example :
    find_block_for_key two_blocks (98 ∷ []) ≡ ok (last_block (98 ∷ []) two_blocks)
find_block_for_key-last_block_example = find_block_for_key-last_block two_blocks (98 ∷ []) ascending
