-- ===== src/Sstable/Index.antt =====
-- src/sstable.rs: the index of a file, one entry for each block with its first key, its place and its
-- size: its format (`serialize_index`, the loop of `load_index`) and the binary search in it.
pub mod RoundTrip
pub mod Search
mod Tests
use justdbd.Common.{
  ℕ, zero, suc, ◌+◌, ◌-◌, ◌/◌, ◌%◌, ◌^◌, true, false, List, [], ◌∷◌, ◌++◌, Option, none, some, ltb,
  leb, length, get_elem?, if◌then◌else◌,
}
use justdbd.Common.Outcome.{ok, panic, and_then, return, ◌>>=◌}
use justdbd.Entry.{key_lt}
use justdbd.Error.{Result}
use justdbd.Serialization.Reader
use justdbd.Serialization.Reader.{Reader, read_u32, read_u64, read_bytes}
use justdbd.Serialization.Writer
use justdbd.Serialization.Writer.{Serializer, write_u32, write_u64, write_bytes, finish}

pub record IndexEntry : Type 0 where
  pub key : List ℕ
  pub offset : ℕ
  pub size : ℕ

write_index_entry : IndexEntry → Serializer → Serializer
write_index_entry e s =
    write_u64 e.size (write_u64 e.offset (write_bytes e.key (write_u32 (length e.key % 2 ^ 32) s)))

-- the loop of `serialize_index`
write_index_entries : List IndexEntry → Serializer → Serializer
unfolding write_index_entry
write_index_entries [] s = s
write_index_entries (e ∷ es) s = write_index_entries es (write_index_entry e s)

unfoldable pub serialize_index : List IndexEntry → List ℕ
unfolding write_index_entries
serialize_index index =
    finish (write_index_entries index (write_u32 (length index % 2 ^ 32) Writer.new))

read_index_entry : Reader IndexEntry
read_index_entry = do
  key_len ← read_u32
  key ← read_bytes key_len
  offset ← read_u64
  size ← read_u64
  return (record { key = key; offset = offset; size = size })

-- the loop of `load_index`, without the room that is reserved in front of it
load_index_entries : ℕ → List IndexEntry → Reader (List IndexEntry)
unfolding read_index_entry
load_index_entries zero index = return index
load_index_entries (suc n) index = do e ← read_index_entry; load_index_entries n (index ++ e ∷ [])

index_reader : Reader (List IndexEntry)
unfolding load_index_entries
index_reader = do entry_count ← read_u32; load_index_entries entry_count []

-- `load_index` on the bytes that it has read
pub load_index : List ℕ → Result (List IndexEntry)
unfolding index_reader
load_index index_data = (index_reader (Reader.new index_data)).0

-- The loop of `find_block_for_key`. A round makes `right - left` smaller, so that many rounds are
-- fuel enough. A search without fuel before the end of the loop answers `panic`.
bisect : ℕ → List IndexEntry → List ℕ → ℕ → ℕ → Result ℕ
bisect zero index key left right = if ltb left right then panic else ok left
bisect (suc n) index key left right =
    let mid = left + (right - left) / 2 in
    elim (ltb left right) [
      | false ↦ ok left
      | true ↦ elim (get_elem? index mid) [
        | none ↦ panic
        | some e ↦ elim (key_lt key e.key) [
          | true ↦ bisect n index key left mid
          | false ↦ bisect n index key (mid + 1) right
        ]
      ]
    ]

-- what the search answers when `left` is zero
first_block : List IndexEntry → List ℕ → Option ℕ
first_block [] key = none
first_block (e ∷ es) key = if key_lt key e.key then none else some 0

unfoldable pub find_block_for_key : List IndexEntry → List ℕ → Result (Option ℕ)
unfolding bisect first_block
find_block_for_key index key =
    and_then (bisect (length index) index key 0 (length index))
      λ left. if ltb 0 left then ok (some (left - 1)) else ok (first_block index key)
