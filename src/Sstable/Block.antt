-- ===== src/Sstable/Block.antt =====
-- src/sstable.rs: the data blocks. `serializer_entry` and the head that `flush_current_block` writes
-- make a block; `search_in_block`, `get_entries_in_range_from_block` and `load_current_block` read one.
pub mod Layout
pub mod RoundTrip
pub mod Total
mod Tests
use justdbd.Common.{
  ℕ, zero, suc, ◌%◌, ◌^◌, Bool, not, ◌&&◌, List, [], ◌∷◌, ◌++◌, Option, none, some, ◌==◌, length,
  if◌then◌else◌,
}
use justdbd.Common.Outcome.{return, ◌>>=◌, ◌>>◌}
use justdbd.Entry.{key_lt, key_le, key_eq}
use justdbd.Entry.Record
use justdbd.Entry.Record.{Entry}
use justdbd.Error.{Result}
use justdbd.Serialization.Reader
use justdbd.Serialization.Reader.{Reader, read_u8, read_u32, read_u64, read_bytes, skip}
use justdbd.Serialization.Writer
use justdbd.Serialization.Writer.{Serializer, write_u8, write_u32, write_u64, write_bytes, finish}

serializer_value : Option (List ℕ) → Serializer → Serializer
serializer_value none s = write_u8 0 s
serializer_value (some value) s =
    write_bytes value (write_u32 (length value % 2 ^ 32) (write_u8 1 s))

serializer_entry : Entry → Serializer → Serializer
unfolding serializer_value
serializer_entry e s =
    let keyed = write_bytes e.key (write_u32 (length e.key % 2 ^ 32) s) in
    write_u64 e.sequence (write_u64 e.timestamp (serializer_value e.value keyed))

-- the bytes that `add` appends to the current block
unfoldable pub entry_data : Entry → List ℕ
unfolding serializer_entry
entry_data e = finish (serializer_entry e Writer.new)

-- `block_data` of `flush_current_block`: the count of entries, cast to 32 bits, and the block
unfoldable pub block_data : ℕ → List ℕ → List ℕ
block_data entries block = finish (write_u32 (entries % 2 ^ 32) Writer.new) ++ block

pub read_key : Reader (List ℕ)
read_key = do len ← read_u32; read_bytes len

-- `has_value`, the length and the value
pub read_value : Reader (Option (List ℕ))
read_value = do
  flag ← read_u8
  if not (flag == 0)
      then (do len ← read_u32; value ← read_bytes len; return (some value))
      else return none

-- the value and the two numbers of an entry whose key has been read
pub read_fields : List ℕ → Reader Entry
unfolding read_value
read_fields key = do
  value ← read_value
  timestamp ← read_u64
  sequence ← read_u64
  return (Record.new key value timestamp sequence)

-- the same bytes, skipped
pub skip_fields : Reader (Unit {0})
skip_fields = do
  flag ← read_u8
  (if not (flag == 0) then (do len ← read_u32; skip len) else return tt)
  skip 16

-- the loop of `search_in_block`
search_entries : ℕ → List ℕ → Reader (Option Entry)
unfolding read_key read_fields skip_fields
search_entries zero target = return none
search_entries (suc n) target =
    let later = search_entries n target in
    do
      key ← read_key
      if key_eq key target
          then (do e ← read_fields key; return (some e))
          else (do skip_fields; later)

search_from : List ℕ → Reader (Option Entry)
unfolding search_entries
search_from target = do count ← read_u32; search_entries count target

pub search_in_block : List ℕ → List ℕ → Result (Option Entry)
unfolding search_from
search_in_block block target = (search_from target (Reader.new block)).0

-- the loop of `get_entries_in_range_from_block`
range_entries : ℕ → List ℕ → List ℕ → List Entry → Reader (List Entry)
unfolding read_key read_fields skip_fields
range_entries zero start end results = return results
range_entries (suc n) start end results = do
  key ← read_key
  if key_le start key && key_lt key end
      then (do e ← read_fields key; range_entries n start end (results ++ e ∷ []))
      else (do skip_fields; range_entries n start end results)

range_reader : List ℕ → List ℕ → Reader (List Entry)
unfolding range_entries
range_reader start end = do count ← read_u32; range_entries count start end []

pub get_entries_in_range_from_block : List ℕ → List ℕ → List ℕ → Result (List Entry)
unfolding range_reader
get_entries_in_range_from_block block start end = (range_reader start end (Reader.new block)).0

-- the loop of `load_current_block`
load_entries : ℕ → List Entry → Reader (List Entry)
unfolding read_key read_fields
load_entries zero entries = return entries
load_entries (suc n) entries = do
  key ← read_key
  e ← read_fields key
  load_entries n (entries ++ e ∷ [])

-- without the room that is reserved for the entries
block_reader : Reader (List Entry)
unfolding load_entries
block_reader = do count ← read_u32; load_entries count []

pub parse_block : List ℕ → Result (List Entry)
unfolding block_reader
parse_block block = (block_reader (Reader.new block)).0
