-- ===== src/Storage/Scan.antt =====
-- src/storage.rs: `scan`. The hash map of results, sorted at the end, is a map in the order of its
-- keys from the start.
pub mod Memory
pub mod Agreement
mod Tests
use justdbd.Common.{
  ℕ, zero, suc, ◌+◌, Bool, true, false, List, [], ◌∷◌, Option, none, some, reverse, map, leb,
  if◌then◌else◌,
}
use justdbd.Common.Float.{F64}
use justdbd.Common.Outcome.{Outcome, ok, err, and_then}
use justdbd.Entry.Record.{Entry}
use justdbd.Error.{Result, closed}
use justdbd.KeyMap.{KeyMap, lookup, insert}
use justdbd.MemTable
use justdbd.MemTable.{MemTable}
use justdbd.NumberMap.{slot, set_slot}
use justdbd.Storage.Engine.{Engine, Levels}
use justdbd.Storage.Tables.{Tables}

-- a value and the sequence number that it came with
abbrev pub Results : Type 0
Results = KeyMap (List ℕ × ℕ)

-- a deletion marker is the empty value
pub collected : Entry → List ℕ × ℕ
collected e = elim e.value [ none ↦ ([], e.sequence) | some value ↦ (value, e.sequence) ]

-- the loop over the current memtable
pub collect_all : KeyMap Entry → Results → Results
unfolding collected
collect_all [] results = results
collect_all ((key, e) ∷ entries) results = collect_all entries (insert key (collected e) results)

-- `existing_seq` of the key is not below the entry's number
pub is_superseded : Option (List ℕ × ℕ) → Entry → Bool
is_superseded none e = false
is_superseded (some (value, existing_seq)) e = leb e.sequence existing_seq

-- the loop over other entries: one that is not newer than what is there is left out
pub collect_newer : KeyMap Entry → Results → Results
unfolding collected is_superseded
collect_newer [] results = results
collect_newer ((key, e) ∷ entries) results =
    collect_newer entries
      (if is_superseded (lookup key results) e then results else insert key (collected e) results)

-- the loop over the immutable memtables
pub collect_memtables : (start end : List ℕ) → List MemTable → Results → Result Results
unfolding collect_newer
collect_memtables start end [] results = ok results
collect_memtables start end (m ∷ ms) results =
    and_then (MemTable.range_iter start end m)
      λ entries. collect_memtables start end ms (collect_newer entries results)

keyed_entries : List Entry → KeyMap Entry
keyed_entries es = map (λ (e : Entry). (e.key, e)) es

-- `filter_map` and `collect`
pub live_results : Results → KeyMap (List ℕ)
live_results [] = []
live_results ((key, ([], _)) ∷ rest) = live_results rest
live_results ((key, (b ∷ bs, _)) ∷ rest) = (key, b ∷ bs) ∷ live_results rest

module _ {f : F64} (t : Tables f) where
  -- the loop over the tables of a level
  collect_tables : (start end : List ℕ) → List t.Table → Results → Result Results
  unfolding collect_newer keyed_entries
  collect_tables start end [] results = ok results
  collect_tables start end (table ∷ tables) results =
      and_then (t.range table start end)
        λ entries. collect_tables start end tables (collect_newer (keyed_entries entries) results)

  pub collect_level : (start end : List ℕ) → Option (List t.Table) → Results → Result Results
  unfolding collect_tables
  collect_level start end none results = ok results
  collect_level start end (some tables) results = collect_tables start end tables results

  -- the loop over the levels from `level` on, so many of them
  pub collect_levels :
      (n level : ℕ) (start end : List ℕ) → Levels (List t.Table) → Results → Result Results
  unfolding collect_level
  collect_levels zero level start end sstables results = ok results
  collect_levels (suc n) level start end sstables results =
      and_then (collect_level start end (slot level sstables) results)
        (collect_levels n (level + 1) start end sstables)

  pub scan : (start end : List ℕ) → Engine f t → Result (KeyMap (List ℕ))
  unfolding collect_all collect_memtables collect_levels live_results
  scan start end e =
      if e.is_closed
      then err closed
      else and_then (MemTable.range_iter start end e.memtable) λ entries.
        and_then
          (collect_memtables start end (reverse e.immutable_memtables) (collect_all entries []))
          λ in_memory.
            and_then (collect_levels e.config.max_levels 0 start end e.sstables in_memory)
              λ results. ok (live_results results)
