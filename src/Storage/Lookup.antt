-- ===== src/Storage/Lookup.antt =====
-- src/storage.rs: `get` and `find_sstable_for_key`.
pub mod Writes
pub mod Order
mod Tests
use justdbd.Common.{
  ℕ, zero, suc, ◌+◌, Bool, true, false, not, ◌&&◌, List, [], ◌∷◌, Option, none, some, reverse, ◌==◌,
  if◌then◌else◌,
}
use justdbd.Common.Float.{F64}
use justdbd.Common.Outcome.{Outcome, ok, err, and_then}
use justdbd.Entry.{key_le}
use justdbd.Entry.Record.{Entry}
use justdbd.Error.{Result, closed}
use justdbd.MemTable
use justdbd.MemTable.{MemTable}
use justdbd.NumberMap.{slot, set_slot}
use justdbd.Storage.Engine.{Engine, Levels}
use justdbd.Storage.Tables.{Tables}

-- a return where an entry is found, and else what comes behind
abbrev or_else : Option Entry → Result (Option Entry) → Result (Option Entry)
or_else (some e) later = ok (some e)
or_else none later = later

-- the first memtable that has the key
unfoldable pub get_in_memtables : List ℕ → List MemTable → Option Entry
get_in_memtables key [] = none
get_in_memtables key (m ∷ ms) =
    let later = get_in_memtables key ms in
    elim (MemTable.get key m) [ none ↦ later | some e ↦ some e ]

-- the value of an entry that was found
unfoldable pub value_of : Option Entry → Option (List ℕ)
value_of none = none
value_of (some entry) = entry.value

module _ {f : F64} (t : Tables f) where
  -- the filter is asked first
  get_in_table : List ℕ → t.Table → Result (Option Entry)
  get_in_table key table =
      and_then (t.might_contain table key) λ maybe. if maybe then t.get table key else ok none

  -- the loop over the tables of level 0
  get_in_tables : List ℕ → List t.Table → Result (Option Entry)
  unfolding get_in_table
  get_in_tables key [] = ok none
  get_in_tables key (table ∷ tables) =
      let later = get_in_tables key tables in
      and_then (get_in_table key table) λ found. or_else found later

  pub find_sstable_for_key : List t.Table → List ℕ → Option t.Table
  find_sstable_for_key [] key = none
  find_sstable_for_key (table ∷ tables) key =
      let later = find_sstable_for_key tables key in
      if key_le (t.min_key table) key && key_le key (t.max_key table) then some table else later

  get_in_level : List ℕ → ℕ → Option (List t.Table) → Result (Option Entry)
  unfolding get_in_tables get_in_table find_sstable_for_key
  get_in_level key level none = ok none
  get_in_level key level (some tables) =
      if level == 0
      then get_in_tables key (reverse tables)
      else elim (find_sstable_for_key tables key) [
        | none ↦ ok none
        | some table ↦ get_in_table key table
      ]

  -- the loop over the levels from `level` on, so many of them
  get_in_levels : ℕ → ℕ → List ℕ → Levels (List t.Table) → Result (Option Entry)
  unfolding get_in_level
  get_in_levels zero level key sstables = ok none
  get_in_levels (suc n) level key sstables =
      let later = get_in_levels n (level + 1) key sstables in
      and_then (get_in_level key level (slot level sstables)) λ found. or_else found later

  -- the entry that `get` reads
  get_entry : List ℕ → Engine f t → Result (Option Entry)
  unfolding get_in_memtables get_in_levels
  get_entry key e = or_else (MemTable.get key e.memtable) (
      or_else (get_in_memtables key (reverse e.immutable_memtables))
        (get_in_levels e.config.max_levels 0 key e.sstables))

  unfoldable pub get : List ℕ → Engine f t → Result (Option (List ℕ))
  unfolding get_entry value_of
  get key e =
      if e.is_closed then err closed else and_then (get_entry key e) λ found. ok (value_of found)
