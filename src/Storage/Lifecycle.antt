-- ===== src/Storage/Lifecycle.antt =====
-- src/storage.rs: `open` with `load_sstables`, `close`, and `stats`.
pub mod Opening
pub mod Closing
mod Tests
use justdbd.Common.{
  ℕ, zero, suc, ◌+◌, ◌%◌, ◌^◌, Bool, true, false, List, [], ◌∷◌, ◌++◌, Option, none, some, map, leb,
  ◌==◌, length, if◌then◌else◌,
}
use justdbd.Common.Float.{F64}
use justdbd.Common.Outcome.{Outcome, ok, err, panic, Method, return, ◌>>=◌, ◌>>◌, and_then}
use justdbd.Config.{Config, validate}
use justdbd.Error
use justdbd.Error.{StorageError, Result}
use justdbd.MemTable
use justdbd.MemTable.{MemTable, MemtableStats, Clock}
use justdbd.Storage.Compaction.{data_sizes}
use justdbd.NumberMap.{slot, set_slot}
use justdbd.Storage.Engine.{Engine, EngineMethod, Levels, or_empty, flush_memtable}
use justdbd.Storage.FileName.{parse_level_from_filename}
use justdbd.Storage.Tables.{Tables}

module _ {f : F64} (t : Tables f) where
  -- `sort_by_key` by the time of creation, which is stable
  insert_by_age : t.Table → List t.Table → List t.Table
  insert_by_age table [] = table ∷ []
  insert_by_age table (other ∷ rest) =
      let later = insert_by_age table rest in
      if leb (t.created_at table) (t.created_at other) then table ∷ other ∷ rest else other ∷ later

  sort_by_age : List t.Table → List t.Table
  unfolding insert_by_age
  sort_by_age [] = []
  sort_by_age (table ∷ rest) = insert_by_age table (sort_by_age rest)

  -- The loop over the files. A file with another name is passed over, and one that does not open is
  -- reported.
  load_files :
      List (List ℕ × Result t.Table) → Levels (List t.Table) → Result (Levels (List t.Table))
  load_files [] levels = ok levels
  load_files ((name, opened) ∷ rest) levels = elim (parse_level_from_filename name) [
    | none ↦ load_files rest levels
    | some level ↦ elim opened [
      | panic ↦ panic
      | err _ ↦ load_files rest levels
      | ok table ↦
          load_files rest (set_slot level (or_empty (slot level levels) ++ table ∷ []) levels)
    ]
  ]

  pub load_sstables : EngineMethod t (Unit {0})
  unfolding load_files sort_by_age
  load_sstables e =
      let loaded = and_then (t.files e.disk) λ files. load_files files [] in
      elim loaded [
        | panic ↦ (panic, e)
        | err error ↦ (err error, e)
        | ok levels ↦ (ok tt, record e { sstables = map (λ l. (l.0, sort_by_age l.1)) levels })
      ]

  -- the spawned task is one more handle
  start_background_compaction : EngineMethod t (Unit {0})
  start_background_compaction e = (ok tt, record e { background_tasks = e.background_tasks + 1 })

  pub open_engine : Clock → Config f → t.Disk → Result (Engine f t) × t.Disk
  unfolding load_sstables start_background_compaction
  open_engine now config disk = elim (validate config) [
    | panic ↦ (panic, disk)
    | err message ↦ (err (Error.config message), disk)
    | ok _ ↦
        (let (prepared, disk') = t.prepare disk in
          let built = and_then prepared λ _. MemTable.new config.memtable_size_threshold now in
          elim built [
            | panic ↦ (panic, disk')
            | err error ↦ (err error, disk')
            | ok memtable ↦
                (let fresh : Engine f t = record {
                  config = config;
                  memtable = memtable;
                  immutable_memtables = [];
                  sstables = [];
                  sequence_counter = 1;
                  is_closed = false;
                  background_tasks = 0;
                  disk = disk';
                } in
                  let (r, e) =
                    (do
                      load_sstables
                      (if config.enable_compaction then start_background_compaction else return tt))
                      fresh in
                  (and_then r λ _. ok e, e.disk))
          ])
  ]

  -- a flush at the end, whose error is printed
  flush_at_end : Clock → MemTable → EngineMethod t (Unit {0})
  flush_at_end now m e =
      let (r, e') = flush_memtable t now m e in
      (elim r [ ok _ ↦ ok tt | err _ ↦ ok tt | panic ↦ panic ], e')

  -- the loop over the drained immutable memtables
  flush_all : Clock → List MemTable → EngineMethod t (Unit {0})
  unfolding flush_at_end
  flush_all now [] = return tt
  flush_all now (m ∷ ms) = do flush_at_end now m; flush_all now ms

  pub close : Clock → EngineMethod t (Unit {0})
  unfolding flush_all flush_at_end
  close now e =
      if e.is_closed
      then (ok tt, e)
      else (let stopped = record e {
        is_closed = true;
        background_tasks = 0;
        immutable_memtables = [];
      } in
          (do
            flush_all now e.immutable_memtables
            (λ s.
                if s.memtable.count == 0
                then (ok tt, s)
                else flush_at_end now (MemTable.make_immutable s.memtable) s))
            stopped)

  pub record LevelStats : Type 0 where
    pub table_count : ℕ
    pub total_size : ℕ
    pub total_entries : ℕ

  pub record StorageStats : Type 0 where
    pub memtable_stats : MemtableStats
    pub immutable_memtable_count : ℕ
    pub sstable_stats : Levels LevelStats
    pub seqence_number : ℕ
    pub is_closed : Bool

  entry_counts : List t.Table → ℕ
  entry_counts [] = 0
  entry_counts (table ∷ tables) = (t.entry_count table + entry_counts tables) % 2 ^ 64

  level_stats : List t.Table → LevelStats
  unfolding entry_counts
  level_stats tables = record {
    table_count = length tables;
    total_size = data_sizes t tables;
    total_entries = entry_counts tables;
  }

  pub stats : Engine f t → StorageStats
  unfolding level_stats
  stats e = record {
    memtable_stats = MemTable.memory_usage e.memtable;
    immutable_memtable_count = length e.immutable_memtables;
    sstable_stats = map (λ l. (l.0, level_stats l.1)) e.sstables;
    seqence_number = e.sequence_counter;
    is_closed = e.is_closed;
  }
