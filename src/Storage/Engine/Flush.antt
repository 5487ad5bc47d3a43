-- ===== src/Storage/Engine/Flush.antt =====
-- src/storage.rs: the flush of a memtable, and what a failed one leaves behind.
use justdbd.Common.{
  ℕ, suc, ◌+◌, ◌/◌, ◌^◌, ◌≡◌, ◌≢◌, refl, ap, ◌∙◌, true, false, List, [], ◌∷◌, ◌++◌, some, arith,
  ltb, ◌==◌, length, length-append, Bool-cases, inl, inr, if-false,
}
use justdbd.Common.Float.{F64}
use justdbd.Common.Outcome.{Outcome, ok, err, panic, resume}
use justdbd.Config.{Config}
use justdbd.Entry.Record.{Entry}
use justdbd.Error.{StorageError}
use justdbd.KeyMap.{values}
use justdbd.MemTable
use justdbd.MemTable.{MemTable, Clock}
use justdbd.MemTable.Contents.{fresh_memtable}
use justdbd.Storage.Engine.{
  Engine, next_sequence, current_seconds, create_table, push_table, flush_memtable, remove_oldest,
  flush_excess, swap_memtable, rotate_memtable,
}
use justdbd.Storage.Engine.Rotation.{rotated}
use justdbd.Storage.FileName.{FileName}
use justdbd.Storage.Tables.{Tables}

module _ {f : F64} (t : Tables f) where
  -- Only the tables and the files may differ.
  pub record Keeps (e e' : Engine f t) : Type 0 where
    pub memtable_kept : e'.memtable ≡ e.memtable
    pub immutable_kept : e'.immutable_memtables ≡ e.immutable_memtables
    pub closed_kept : e'.is_closed ≡ e.is_closed
    pub tasks_kept : e'.background_tasks ≡ e.background_tasks

  Keeps-same : (e : Engine f t) → Keeps e e
  Keeps-same e = record {
    memtable_kept = refl;
    immutable_kept = refl;
    closed_kept = refl;
    tasks_kept = refl;
  }

  -- No creation of a table panics.
  abbrev pub NeverPanics : Type 0
  NeverPanics =
      (c : Config f) (name : FileName) (es : List Entry) (d : t.Disk)
      → (t.create c name es d).0 ≢ panic

  -- The name of the file for a flushed memtable.
  abbrev pub flushed_name : ℕ → MemTable → FileName
  flushed_name now m = record { level = 0; timestamp = now / 10 ^ 6; sequence = m.sequence_counter }

  -- What the flush of a memtable with entries does with the outcome of the creation.
  flushed :
      Outcome StorageError t.Table
      → t.Disk
      → Engine f t
      → Outcome StorageError (Unit {0}) × Engine f t
  unfolding push_table
  flushed (ok table) disk e = push_table t 0 table (record e { disk = disk })
  flushed (err error) disk e = (err error, record e { disk = disk })
  flushed panic disk e = (panic, record e { disk = disk })

  flush_memtable-flushed :
      (now : ℕ) (m : MemTable) (e : Engine f t)
      → (m.count == 0) ≡ false
      → let (r, disk) = t.create e.config (flushed_name now m) (values m.entries) e.disk in
        flush_memtable t (some now) m e ≡ flushed r disk e
  unfolding flush_memtable current_seconds create_table flushed
  flush_memtable-flushed now m e h =
      if-false {b = m.count == 0} _ _ h
      ∙ go (t.create e.config (flushed_name now m) (values m.entries) e.disk)
    where
      go :
          (c : Outcome StorageError t.Table × t.Disk)
          → resume c.0 (push_table t 0) (record e { disk = c.1 }) ≡ flushed c.0 c.1 e
      go (ok table, disk) = refl
      go (err error, disk) = refl
      go (panic, disk) = refl

  flushed-Keeps :
      (r : Outcome StorageError t.Table) (disk : t.Disk) (e : Engine f t)
      → Keeps e (flushed r disk e).1
  unfolding flushed push_table
  flushed-Keeps (ok table) disk e = record {
    memtable_kept = refl;
    immutable_kept = refl;
    closed_kept = refl;
    tasks_kept = refl;
  }
  flushed-Keeps (err error) disk e = record {
    memtable_kept = refl;
    immutable_kept = refl;
    closed_kept = refl;
    tasks_kept = refl;
  }
  flushed-Keeps panic disk e = record {
    memtable_kept = refl;
    immutable_kept = refl;
    closed_kept = refl;
    tasks_kept = refl;
  }

  -- A flush changes at most the tables and the files,
  pub flush_memtable-Keeps :
      (now : ℕ) (m : MemTable) (e : Engine f t) → Keeps e (flush_memtable t (some now) m e).1
  flush_memtable-Keeps now m e = elim (Bool-cases (m.count == 0)) [
    | inl empty ↦ unfold flush_memtable in rw empty (Keeps-same e)
    | inr full ↦
        let (r, disk) = t.create e.config (flushed_name now m) (values m.entries) e.disk in
        rw (flush_memtable-flushed now m e full) (flushed-Keeps r disk e)
  ]

  flushed-ne-panic :
      (r : Outcome StorageError t.Table) (disk : t.Disk) (e : Engine f t)
      → r ≢ panic
      → (flushed r disk e).0 ≢ panic
  unfolding flushed push_table
  flushed-ne-panic (ok table) disk e h = λ p. cc
  flushed-ne-panic (err error) disk e h = λ p. cc
  flushed-ne-panic panic disk e h = absurd (h refl)

  -- and panics only where the creation of the table does.
  pub flush_memtable-ne-panic :
      (now : ℕ) (m : MemTable) (e : Engine f t)
      → NeverPanics
      → (flush_memtable t (some now) m e).0 ≢ panic
  flush_memtable-ne-panic now m e h = elim (Bool-cases (m.count == 0)) [
    | inl empty ↦ unfold flush_memtable in rw empty (λ p. cc)
    | inr full ↦
        let (r, disk) = t.create e.config (flushed_name now m) (values m.entries) e.disk in
        rw (flush_memtable-flushed now m e full)
          (flushed-ne-panic r disk e (h e.config (flushed_name now m) (values m.entries) e.disk))
  ]

  -- A flush whose table cannot be created ends in that error, and only the files may have changed.
  flush_memtable-err :
      (now : ℕ) (m : MemTable) (e : Engine f t) (error : StorageError)
      → m.count ≢ 0
      → (t.create e.config (flushed_name now m) (values m.entries) e.disk).0 ≡ err error
      → let disk' = (t.create e.config (flushed_name now m) (values m.entries) e.disk).1 in
        flush_memtable t (some now) m e ≡ (err error, record e { disk = disk' })
  unfolding flushed
  flush_memtable-err now m e error h failed =
      let full : (m.count == 0) ≡ false = ground arith in
      let disk' = (t.create e.config (flushed_name now m) (values m.entries) e.disk).1 in
      flush_memtable-flushed now m e full ∙ ap (λ r. flushed r disk' e) failed

  -- When the immutable memtables are at their limit, a rotation takes the oldest one, `oldest`, from
  -- the list and flushes it. If its table cannot be created, the rotation, with a clock behind the
  -- epoch, ends in that error; then the oldest memtable is gone from the list, and no table has come.
  pub rotate_memtable-loses :
      (now : ℕ) (oldest : MemTable) (rest : List MemTable) (e : Engine f t) (error : StorageError)
      → e.immutable_memtables ≡ oldest ∷ rest
      → length rest + 1 ≡ e.config.max_memtables
      → oldest.count ≢ 0
      → (t.create e.config (flushed_name now oldest) (values oldest.entries) e.disk).0 ≡ err error
      → let (r, e') = rotate_memtable t (some now) e in
        (r ≡ err error)
        × (e'.immutable_memtables ≡ rest ++ MemTable.make_immutable e.memtable ∷ [])
        × (e'.sstables ≡ e.sstables)
  unfolding rotate_memtable swap_memtable next_sequence flush_excess remove_oldest
  rotate_memtable-loses now oldest rest e error list limit full failed =
      let (m, fresh, blank, writable) =
        fresh_memtable e.config.memtable_size_threshold e.sequence_counter now in
      let old = MemTable.make_immutable e.memtable in
      let swapped = record (rotated t m e) { immutable_memtables = rest ++ old ∷ [] } in
      let size = length-append rest (old ∷ []) in
      let over : ltb e.config.max_memtables (suc (length (rest ++ old ∷ []))) ≡ true =
        ground (arith, size) in
      let run = flush_memtable-err now oldest swapped error full failed in
      rw (fresh, list, over, run) (refl, refl, refl)
