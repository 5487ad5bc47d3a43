-- ===== src/Storage/Engine.antt =====
-- src/storage.rs: the state of the engine, its writes, the rotation of the memtable and the flush of
-- an immutable one. A method runs without interruption, and the readings of the clock during one call
-- are one reading: the microseconds since the epoch, or `none` for a clock that stands before it.
pub mod Rotation
pub mod Flush
pub mod Writes
pub mod Limits
mod Tests
use justdbd.Common.{
  ℕ, zero, suc, ◌+◌, ◌/◌, ◌%◌, ◌^◌, Bool, true, false, List, [], ◌∷◌, ◌++◌, Option, none, some, map,
  ltb, ◌==◌, length, if◌then◌else◌,
}
use justdbd.Common.Float.{F64}
use justdbd.Common.Outcome.{Outcome, ok, err, panic, Method, return, fail, ◌>>=◌, ◌>>◌}
use justdbd.Config.{Config}
use justdbd.Entry.Record
use justdbd.Entry.Record.{Entry}
use justdbd.Error.{StorageError, closed, invalid_key_size, invalid_value_size}
use justdbd.KeyMap.{values}
use justdbd.MemTable
use justdbd.MemTable.{MemTable, Clock}
use justdbd.NumberMap.{NumberMap, slot, set_slot}
use justdbd.Storage.FileName.{FileName}
use justdbd.Storage.Tables.{Tables}

-- `HashMap` from a level
abbrev pub Levels {ℓ} : Type ℓ → Type ℓ
Levels A = NumberMap A

-- `unwrap_or_default`, and what `entry(level).or_insert_with(Vec::new)` finds
abbrev pub or_empty {ℓ} : {A : Type ℓ} → Option (List A) → List A
or_empty none = []
or_empty (some ts) = ts

pub record Engine (f : F64) (t : Tables f) : Type 0 where
  pub config : Config f
  pub memtable : MemTable
  pub immutable_memtables : List MemTable
  pub sstables : Levels (List t.Table)
  pub sequence_counter : ℕ
  pub is_closed : Bool
  -- the handles of `background_tasks`
  pub background_tasks : ℕ
  pub disk : t.Disk

module _ {f : F64} (t : Tables f) where
  abbrev pub EngineMethod {ℓ} : Type ℓ → Type ℓ
  EngineMethod A = Method (Engine f t) StorageError A

  -- `fetch_add` wraps
  unfoldable pub next_sequence : EngineMethod ℕ
  next_sequence e =
      (ok e.sequence_counter, record e { sequence_counter = (e.sequence_counter + 1) % 2 ^ 64 })

  -- `as_secs`; `unwrap` panics on a clock before the epoch
  unfoldable pub current_seconds : Clock → EngineMethod ℕ
  current_seconds none e = (panic, e)
  current_seconds (some micros) e = (ok (micros / 10 ^ 6), e)

  -- `build_from_vec` and `SSTableReader::open`
  unfoldable pub create_table : FileName → List Entry → EngineMethod t.Table
  create_table name entries e =
      let (r, disk') = t.create e.config name entries e.disk in (r, record e { disk = disk' })

  push_table : ℕ → t.Table → EngineMethod (Unit {0})
  unfolding slot set_slot
  push_table level table e = (
    ok tt,
    record e {
      sstables = set_slot level (or_empty (slot level e.sstables) ++ table ∷ []) e.sstables;
    },
  )

  pub flush_memtable : Clock → MemTable → EngineMethod (Unit {0})
  unfolding current_seconds create_table push_table
  flush_memtable now m e =
      if m.count == 0
      then (ok tt, e)
      else (do
        timestamp ← current_seconds now
        table ←
            create_table
              (record { level = 0; timestamp = timestamp; sequence = m.sequence_counter })
              (values m.entries)
        push_table 0 table)
          e

  -- `immutable.remove(0)`, which panics on an empty list
  remove_oldest : EngineMethod MemTable
  remove_oldest e = elim e.immutable_memtables [
    | [] ↦ (panic, e)
    | oldest ∷ rest ↦ (ok oldest, record e { immutable_memtables = rest })
  ]

  -- The loop `while immutable.len() > max_memtables`. A round removes a memtable, so the number of
  -- them is fuel enough.
  flush_excess : ℕ → Clock → EngineMethod (Unit {0})
  unfolding remove_oldest flush_memtable
  flush_excess zero now e = (ok tt, e)
  flush_excess (suc n) now e =
      let round = (do oldest ← remove_oldest; flush_memtable now oldest; flush_excess n now) e in
      if ltb e.config.max_memtables (length e.immutable_memtables) then round else (ok tt, e)

  -- A new memtable takes the place of the old one, which becomes the newest immutable one.
  swap_memtable : Clock → EngineMethod (Unit {0})
  unfolding next_sequence
  swap_memtable now = do
    sequence ← next_sequence
    fresh ← (λ e. (MemTable.with_sequence e.config.memtable_size_threshold sequence now, e))
    (λ e. (
      ok tt,
      record e {
        memtable = fresh;
        immutable_memtables = e.immutable_memtables ++ MemTable.make_immutable e.memtable ∷ [];
      },
    ))

  pub rotate_memtable : Clock → EngineMethod (Unit {0})
  unfolding swap_memtable flush_excess
  rotate_memtable now = do
    swap_memtable now
    (λ e. flush_excess (length e.immutable_memtables) now e)

  unfoldable pub check_rotate_memtable : Clock → EngineMethod (Unit {0})
  check_rotate_memtable now e =
      if MemTable.should_flush e.memtable then rotate_memtable now e else (ok tt, e)

  -- a method of the current memtable
  on_memtable : MemTable.MemTableMethod (Unit {0}) → EngineMethod (Unit {0})
  on_memtable m e = let (r, memtable') = m e.memtable in (r, record e { memtable = memtable' })

  unfoldable pub put : Clock → List ℕ → List ℕ → EngineMethod (Unit {0})
  unfolding on_memtable
  put now key value e =
      if e.is_closed
      then (err closed, e)
      else if ltb Record.max_key_size (length key)
      then (err (invalid_key_size (length key) Record.max_key_size), e)
      else if ltb Record.max_value_size (length value)
      then (err (invalid_value_size (length value) Record.max_value_size), e)
      else (do check_rotate_memtable now; on_memtable (MemTable.put now key value)) e

  unfoldable pub delete : Clock → List ℕ → EngineMethod (Unit {0})
  unfolding on_memtable
  delete now key e =
      if e.is_closed
      then (err closed, e)
      else if ltb Record.max_key_size (length key)
      then (err (invalid_key_size (length key) Record.max_key_size), e)
      else (do check_rotate_memtable now; on_memtable (MemTable.delete now key)) e
