-- ===== src/Storage/Engine/Rotation.antt =====
-- src/storage.rs: the rotation of the memtable, while there is room for one more immutable one.
use justdbd.Common.{
  ℕ, zero, suc, ◌+◌, ◌%◌, ◌^◌, ◌≤◌, ◌<◌, ◌≡◌, refl, false, List, [], ◌∷◌, ◌++◌, none, some, ltb,
  length, length-append, arith,
}
use justdbd.Common.Float.{F64}
use justdbd.Common.Outcome.{ok}
use justdbd.MemTable
use justdbd.MemTable.{MemTable}
use justdbd.MemTable.Contents.{fresh_memtable}
use justdbd.Storage.Engine.{Engine, next_sequence, swap_memtable, flush_excess, rotate_memtable}
use justdbd.Storage.Tables.{Tables}

module _ {f : F64} (t : Tables f) where
  -- The state after a rotation that flushes nothing.
  abbrev pub rotated : MemTable → Engine f t → Engine f t
  rotated fresh e = record e {
    sequence_counter = (e.sequence_counter + 1) % 2 ^ 64;
    memtable = fresh;
    immutable_memtables = e.immutable_memtables ++ MemTable.make_immutable e.memtable ∷ [];
  }

  flush_excess-none :
      (n now : ℕ) (e : Engine f t)
      → length e.immutable_memtables ≤ e.config.max_memtables
      → flush_excess t n (some now) e ≡ (ok tt, e)
  unfolding flush_excess
  flush_excess-none zero now e h = refl
  flush_excess-none (suc n) now e h =
      let room : ltb e.config.max_memtables (length e.immutable_memtables) ≡ false = ground arith in
      rw room

  -- With room for one more immutable memtable, and a clock behind the epoch, a rotation succeeds: a
  -- fresh memtable takes the place of the old one, which becomes the last immutable one.
  pub rotate_memtable-rotated :
      (now : ℕ) (e : Engine f t)
      → length e.immutable_memtables < e.config.max_memtables
      → (m : MemTable) × (rotate_memtable t (some now) e ≡ (ok tt, rotated m e))
        × ((key : List ℕ) → MemTable.get key m ≡ none)
        × (m.immutable ≡ false)
  unfolding rotate_memtable swap_memtable next_sequence
  rotate_memtable-rotated now e h =
      let (m, fresh, blank, writable) =
        fresh_memtable e.config.memtable_size_threshold e.sequence_counter now in
      let old = MemTable.make_immutable e.memtable in
      let size = length-append e.immutable_memtables (old ∷ []) in
      (
        m,
        rw fresh (
            flush_excess-none (length (rotated m e).immutable_memtables) now (rotated m e)
              (omega (arith, size))),
        blank,
        writable,
      )
