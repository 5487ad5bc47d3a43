-- ===== src/Storage/Compaction.antt =====
-- src/storage.rs: the merge of two levels and the compaction that runs in the background.
pub mod Merge
pub mod Split
mod Tests
use justdbd.Common.{
  ℕ, zero, suc, ◌+◌, ◌-◌, ◌*◌, ◌/◌, ◌%◌, ◌^◌, Bool, true, false, not, ◌&&◌, List, [], ◌∷◌, ◌++◌,
  Option, none, some, ltb, leb, ◌==◌, length, if◌then◌else◌,
}
use justdbd.Common.Float.{F64}
use justdbd.Common.Outcome.{Outcome, ok, err, panic, Method, return, ◌>>=◌, ◌>>◌, and_then}
use justdbd.Config.{level_target_size}
use justdbd.Entry.Record
use justdbd.Entry.Record.{Entry}
use justdbd.Error.{StorageError, Result}
use justdbd.KeyMap.{KeyMap, lookup, insert}
use justdbd.MemTable.{Clock}
use justdbd.NumberMap.{slot, set_slot}
use justdbd.Storage.Engine.{
  Engine, EngineMethod, Levels, or_empty, next_sequence, current_seconds, create_table,
}
use justdbd.Storage.FileName.{FileName}
use justdbd.Storage.Tables.{Tables}

-- one entry of the loop in `merge_sstables`: the highest sequence number is kept
merge_entry : Entry → KeyMap Entry → KeyMap Entry
merge_entry e entries = elim (lookup e.key entries) [
  | none ↦ insert e.key e entries
  | some existing ↦ if ltb existing.sequence e.sequence then insert e.key e entries else entries
]

merge_entries : List Entry → KeyMap Entry → KeyMap Entry
unfolding merge_entry
merge_entries [] entries = entries
merge_entries (e ∷ es) entries = merge_entries es (merge_entry e entries)

-- `into_values` and `filter`, in the order of the keys
live_values : KeyMap Entry → List Entry
live_values [] = []
live_values ((key, e) ∷ rest) =
    let later = live_values rest in if Record.is_deleted e then later else e ∷ later

-- `current_size` and `entry_size` are sums of lengths in memory, so their sum does not wrap
does_not_fit : ℕ → ℕ → Entry → List Entry → Bool
does_not_fit target_size current_size e [] = false
does_not_fit target_size current_size e (c ∷ cs) = ltb target_size (current_size + Record.size e)

module _ {f : F64} (t : Tables f) where
  -- the two loops of `merge_sstables` over tables and their entries
  merge_tables : List t.Table → KeyMap Entry → Result (KeyMap Entry)
  unfolding merge_entries
  merge_tables [] entries = ok entries
  merge_tables (table ∷ tables) entries =
      and_then (t.entries table) λ es. merge_tables tables (merge_entries es entries)

  pub merge_sstables : (tables1 tables2 : List t.Table) → Result (List Entry)
  unfolding merge_tables live_values
  merge_sstables tables1 tables2 =
      and_then (merge_tables (tables1 ++ tables2) []) λ entries. ok (live_values entries)

  create_sstable : Clock → ℕ → List Entry → EngineMethod t t.Table
  create_sstable now level entries = do
    timestamp ← current_seconds t now
    sequence ← next_sequence t
    create_table t (record { level = level; timestamp = timestamp; sequence = sequence }) entries

  -- the loop of `create_sstables_for_level`, and the table for the remaining entries
  fill_tables :
      Clock
      → (level target_size : ℕ) → List Entry
      → List Entry
      → ℕ
      → List t.Table
      → EngineMethod t (List t.Table)
  unfolding create_sstable does_not_fit
  fill_tables now level target_size [] [] current_size sstables = return sstables
  fill_tables now level target_size [] (c ∷ cs) current_size sstables = do
    table ← create_sstable now level (c ∷ cs)
    return (sstables ++ table ∷ [])
  fill_tables now level target_size (e ∷ es) current_entries current_size sstables =
      elim (does_not_fit target_size current_size e current_entries) [
        | true ↦ create_sstable now level current_entries >>= λ table.
            fill_tables now level target_size es (e ∷ []) (Record.size e) (sstables ++ table ∷ [])
        | false ↦
            fill_tables now level target_size es (current_entries ++ e ∷ [])
              (current_size + Record.size e) sstables
      ]

  -- the product of `usize` wraps
  pub target_size_of : ℕ → Engine f t → ℕ
  target_size_of level e =
      if level == 0 then e.config.l0_sstable_size else e.config.l0_sstable_size * 2 % 2 ^ 64

  pub create_sstables_for_level : Clock → ℕ → List Entry → EngineMethod t (List t.Table)
  unfolding fill_tables target_size_of
  create_sstables_for_level now level [] = return []
  create_sstables_for_level now level (e ∷ es) =
      λ engine. fill_tables now level (target_size_of level engine) (e ∷ es) [] 0 [] engine

  -- `remove_file` of each table
  remove_tables : List t.Table → t.Disk → t.Disk
  remove_tables [] disk = disk
  remove_tables (table ∷ tables) disk = remove_tables tables (t.remove table disk)

  -- the two assignments in `sstables`, and the removal of the old files
  replace_levels : ℕ → (current next merged : List t.Table) → EngineMethod t (Unit {0})
  unfolding remove_tables
  replace_levels level current next merged e = (
    ok tt,
    record e {
      sstables = set_slot (level + 1) merged (set_slot level [] e.sstables);
      disk = remove_tables (current ++ next) e.disk;
    },
  )

  -- the body of `compact_level`
  pub compact_level : Clock → ℕ → EngineMethod t (Unit {0})
  unfolding replace_levels
  compact_level now level e =
      let current = or_empty (slot level e.sstables) in
      let next = or_empty (slot (level + 1) e.sstables) in
      let work =
        (do
          merged ← (λ s. (merge_sstables current next, s))
          new_tables ← create_sstables_for_level now (level + 1) merged
          replace_levels level current next new_tables)
          e in
      elim current [ [] ↦ (ok tt, e) | _ ∷ _ ↦ work ]

  -- `compact_l0_to_l1` is the same code for the levels 0 and 1
  pub compact_l0_to_l1 : Clock → EngineMethod t (Unit {0})
  compact_l0_to_l1 now = compact_level now 0

  -- `sum` of `u64` wraps
  unfoldable pub data_sizes : List t.Table → ℕ
  data_sizes [] = 0
  data_sizes (table ∷ tables) = (t.data_size table + data_sizes tables) % 2 ^ 64

  pub level_needs_compaction : ℕ → Engine f t → Bool
  unfolding data_sizes
  level_needs_compaction level e = elim (slot level e.sstables) [
    | none ↦ false
    | some tables ↦ ltb (level_target_size e.config level) (data_sizes tables)
  ]

  -- the loop over the levels from `level` on, so many of them
  compact_levels : (n level : ℕ) → Clock → EngineMethod t (Unit {0})
  compact_levels zero level now e = (ok tt, e)
  compact_levels (suc n) level now e =
      (do
        (λ s. if level_needs_compaction level s then compact_level now level s else (ok tt, s))
        compact_levels n (level + 1) now)
        e

  -- The range `1..max_levels - 1`; the configuration is valid, so there is a level.
  pub run_compaction : Clock → EngineMethod t (Unit {0})
  unfolding compact_levels
  run_compaction now e =
      (do
        (λ s.
            if leb s.config.l0_compaction_threshold (length (or_empty (slot 0 s.sstables)))
            then compact_l0_to_l1 now s
            else (ok tt, s))
        (λ s. compact_levels (s.config.max_levels - 2) 1 now s))
        e

  -- One tick of the background task: `false` says that the loop ends. An error is printed.
  pub compaction_tick : Clock → Engine f t → Outcome StorageError Bool × Engine f t
  compaction_tick now e =
      if e.is_closed
      then (ok false, e)
      else (let (r, e') = run_compaction now e in
          (elim r [ ok _ ↦ ok true | err _ ↦ ok true | panic ↦ panic ], e'))
