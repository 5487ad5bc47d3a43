-- ===== src/Sstable/Block/Total.antt =====
-- src/sstable.rs: no bytes make the block readers panic.
use justdbd.Common.{
  ℕ, zero, suc, ◌<◌, ◌^◌, ◌≢◌, if◌then◌else◌, not, ◌&&◌, List, [], ◌∷◌, ◌++◌, some, none, arith,
  ◌==◌, length, All,
}
use justdbd.Common.Bytes.{Byte}
use justdbd.Common.Outcome.{panic, return, ◌>>=◌}
use justdbd.Entry.{key_lt, key_le, key_eq}
use justdbd.Entry.Record
use justdbd.Entry.Record.{Entry}
use justdbd.Serialization.Reader.{read_u8, read_u32, read_u64, read_bytes, skip}
use justdbd.Serialization.Reader.Safe.{
  Safe, Safe-return, Safe-if, Safe-bind, Safe-imp, Safe-new-ne-panic,
}
use justdbd.Serialization.Reader.Total.{
  read_u8-Safe, read_u32-Safe, read_u64-Safe, read_bytes-Safe, skip-Safe,
}
use justdbd.Sstable.Block.{
  read_key, read_value, read_fields, skip_fields, search_entries, search_from, search_in_block,
  range_entries, range_reader, get_entries_in_range_from_block, load_entries, block_reader,
  parse_block,
}

-- Any result will do.
abbrev Anything {ℓ} : {A : Type ℓ} → A → Type 0
Anything a = Unit

read_key-Safe : Safe Anything read_key
unfolding read_key
read_key-Safe =
    Safe-bind read_u32 read_bytes read_u32-Safe
      λ len small. Safe-imp _ _ (λ _ _. tt) (read_bytes len) (read_bytes-Safe len (omega arith))

read_value-Safe : Safe Anything read_value
unfolding read_value
read_value-Safe = Safe-bind read_u8 _ read_u8-Safe λ flag _.
    Safe-if (not (flag == 0)) _ _
      (λ _. Safe-bind read_u32 _ read_u32-Safe λ len small.
        Safe-bind (read_bytes len) _ (read_bytes-Safe len (omega arith))
          λ value _. Safe-return (some value) tt)
      (λ _. Safe-return none tt)

read_fields-Safe : (key : List ℕ) → Safe Anything (read_fields key)
unfolding read_fields
read_fields-Safe key = Safe-bind read_value _ read_value-Safe λ value _.
    Safe-bind read_u64 _ read_u64-Safe λ timestamp _.
      Safe-bind read_u64 _ read_u64-Safe
        λ sequence _. Safe-return (Record.new key value timestamp sequence) tt

skip_value-Safe :
    (flag : ℕ)
    → Safe {A = Unit {0}} Anything
        (if not (flag == 0) then (do len ← read_u32; skip len) else return tt)
skip_value-Safe flag =
    Safe-if (not (flag == 0)) _ _
      (λ _. Safe-bind read_u32 skip read_u32-Safe λ len small. skip-Safe len (omega arith))
      (λ _. Safe-return tt tt)

skip_fields-Safe : Safe Anything skip_fields
unfolding skip_fields
skip_fields-Safe =
    Safe-bind read_u8 _ read_u8-Safe
      λ flag _. Safe-bind _ _ (skip_value-Safe flag) λ _ _. skip-Safe 16 (omega arith)

search_entries-Safe : (n : ℕ) (target : List ℕ) → Safe Anything (search_entries n target)
unfolding search_entries
search_entries-Safe zero target = Safe-return none tt
search_entries-Safe (suc n) target = Safe-bind read_key _ read_key-Safe λ key _.
    Safe-if (key_eq key target) _ _
      (λ _. Safe-bind (read_fields key) _ (read_fields-Safe key) λ e _. Safe-return (some e) tt)
      (λ _. Safe-bind skip_fields _ skip_fields-Safe λ _ _. search_entries-Safe n target)

range_entries-Safe :
    (n : ℕ) (start end : List ℕ) (results : List Entry)
    → Safe Anything (range_entries n start end results)
unfolding range_entries
range_entries-Safe zero start end results = Safe-return results tt
range_entries-Safe (suc n) start end results = Safe-bind read_key _ read_key-Safe λ key _.
    Safe-if (key_le start key && key_lt key end) _ _
      (λ _.
        Safe-bind (read_fields key) _ (read_fields-Safe key)
          λ e _. range_entries-Safe n start end (results ++ e ∷ []))
      (λ _. Safe-bind skip_fields _ skip_fields-Safe λ _ _. range_entries-Safe n start end results)

load_entries-Safe : (n : ℕ) (entries : List Entry) → Safe Anything (load_entries n entries)
unfolding load_entries
load_entries-Safe zero entries = Safe-return entries tt
load_entries-Safe (suc n) entries = Safe-bind read_key _ read_key-Safe λ key _.
    Safe-bind (read_fields key) _ (read_fields-Safe key)
      λ e _. load_entries-Safe n (entries ++ e ∷ [])

-- Whatever the bytes of a block, fewer than 2 ^ 63 of them, the point search, the range search and
-- the iterator's parser return a result or an error, and do not panic.
pub block_readers-ne-panic :
    (block : List ℕ)
    → All Byte block
    → length block < 2 ^ 63
    → ((target : List ℕ) → search_in_block block target ≢ panic)
      × ((start end : List ℕ) → get_entries_in_range_from_block block start end ≢ panic)
      × (parse_block block ≢ panic)
unfolding search_in_block search_from get_entries_in_range_from_block range_reader parse_block
    block_reader
block_readers-ne-panic block h small = (
  λ target.
      Safe-new-ne-panic _ (Safe-bind read_u32 _ read_u32-Safe λ n _. search_entries-Safe n target)
        block h small,
  λ start end.
      Safe-new-ne-panic _
        (Safe-bind read_u32 _ read_u32-Safe λ n _. range_entries-Safe n start end []) block h small,
  Safe-new-ne-panic _ (Safe-bind read_u32 _ read_u32-Safe λ n _. load_entries-Safe n []) block h
      small,
)
