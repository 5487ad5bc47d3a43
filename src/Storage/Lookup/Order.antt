-- ===== src/Storage/Lookup/Order.antt =====
-- src/storage.rs: `get` while no table has been flushed.
use justdbd.Common.{
  ℕ, zero, suc, ◌+◌, ◌≡◌, refl, ap, ◌∙◌, false, List, [], ◌∷◌, none, reverse, if-false, arith,
  Option-cases, inl, inr,
}
use justdbd.Common.Float.{F64}
use justdbd.Common.Outcome.{ok, and_then}
use justdbd.MemTable
use justdbd.MemTable.{MemTable}
use justdbd.NumberMap.{slot}
use justdbd.Storage.Engine.{Engine}
use justdbd.Storage.Lookup.{
  or_else, get_in_memtables, get_in_level, get_in_levels, get_entry, value_of, get,
}
use justdbd.Storage.Tables.{Tables}

module _ {f : F64} (t : Tables f) where
  get_in_levels-none : (n level : ℕ) (q : List ℕ) → get_in_levels t n level q [] ≡ ok none
  unfolding get_in_levels get_in_level slot
  get_in_levels-none zero level q = refl
  get_in_levels-none (suc n) level q = get_in_levels-none n (level + 1) q

  -- what is found in memory is found
  or_else-found :
      (q : List ℕ) (m : MemTable) (ms : List MemTable)
      → or_else (MemTable.get q m) (or_else (get_in_memtables q ms) (ok none))
        ≡ ok (get_in_memtables q (m ∷ ms))
  unfolding get_in_memtables
  or_else-found q m ms = elim (Option-cases (MemTable.get q m)) [
    | inr (e, hit) ↦ rw (hit, get_in_memtables)
    | inl miss ↦ elim (Option-cases (get_in_memtables q ms)) [
      | inl none_there ↦ ground (arith, miss, none_there)
      | inr (e, hit) ↦ ground (arith, miss, hit)
    ]
  ]

  -- Without tables an open engine reads the first of its memtables, the newest first, that has the key.
  pub get-memory :
      (q : List ℕ) (e : Engine f t)
      → e.is_closed ≡ false
      → e.sstables ≡ []
      → get t q e ≡ ok (value_of (get_in_memtables q (e.memtable ∷ reverse e.immutable_memtables)))
  unfolding get get_entry
  get-memory q e h none_flushed =
      let ms = reverse e.immutable_memtables in
      let levels : get_in_levels t e.config.max_levels 0 q e.sstables ≡ ok none =
        ap (get_in_levels t e.config.max_levels 0 q) none_flushed
        ∙ get_in_levels-none e.config.max_levels 0 q in
      if-false _ _ h
      ∙ ap
          (λ r.
            and_then (or_else (MemTable.get q e.memtable) (or_else (get_in_memtables q ms) r))
              λ found. ok (value_of found))
          levels
      ∙ ap (λ r. and_then r λ found. ok (value_of found)) (or_else-found q e.memtable ms)
