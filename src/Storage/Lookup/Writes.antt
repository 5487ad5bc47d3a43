-- ===== src/Storage/Lookup/Writes.antt =====
-- src/storage.rs: what `get` reads after a write.
use mathlib.Core.List.{reverse-append}
use justdbd.Common.{
  ℕ, ◌≤◌, ◌<◌, ◌≡◌, refl, sym, ap, ◌∙◌, Bool, true, false, List, [], ◌∷◌, Option, none, some,
  reverse, length, arith, Bool-cases, if-false, inl, inr, if◌then◌else◌,
}
use justdbd.Common.Float.{F64}
use justdbd.Common.Outcome.{ok, and_then}
use justdbd.Entry.{key_eq}
use justdbd.Entry.Record
use justdbd.Entry.Record.{Entry}
use justdbd.Error.{Result}
use justdbd.MemTable
use justdbd.MemTable.{MemTable}
use justdbd.MemTable.Contents.{
  entry_of, get-put, get-delete, put_succeeds, delete_succeeds, get-make_immutable,
}
use justdbd.Storage.Engine.{Engine, put, delete, check_rotate_memtable}
use justdbd.Storage.Engine.Writes.{put-run, delete-run}
use justdbd.Storage.Engine.Rotation.{rotated, rotate_memtable-rotated}
use justdbd.Storage.Lookup.{get_in_memtables, get_entry, or_else, value_of, get}
use justdbd.Storage.Tables.{Tables}

-- The engine is open, its memtable takes writes, and there is room for one more immutable one.
pub record IsReady {f : F64} (t : Tables f) (e : Engine f t) : Type 0 where
  pub not_closed : e.is_closed ≡ false
  pub writable : e.memtable.immutable ≡ false
  pub room : length e.immutable_memtables < e.config.max_memtables

-- A memtable that has become immutable is read as before.
or_else-immutable :
    (q : List ℕ) (m : MemTable) (ms : List MemTable) (later : Result (Option Entry))
    → or_else (get_in_memtables q (MemTable.make_immutable m ∷ ms)) later
      ≡ or_else (MemTable.get q m) (or_else (get_in_memtables q ms) later)
unfolding get_in_memtables
or_else-immutable q m ms later = ground (arith, get-make_immutable q m)

module _ {f : F64} (t : Tables f) where
  get_entry-rotated :
      (m : MemTable) (e : Engine f t) (q : List ℕ)
      → MemTable.get q m ≡ none
      → get_entry t q (rotated t m e) ≡ get_entry t q e
  unfolding get_entry
  get_entry-rotated m e q blank =
      let old = MemTable.make_immutable e.memtable in
      rw (blank, reverse-append e.immutable_memtables (old ∷ []))
        (or_else-immutable q e.memtable (reverse e.immutable_memtables) _)

  -- The state in which the memtable is written: `get` reads there what it read before.
  check_rotate-keeps :
      (now : ℕ) (e : Engine f t)
      → IsReady t e
      → (e' : Engine f t) × (check_rotate_memtable t (some now) e ≡ (ok tt, e'))
        × ((q : List ℕ) → get_entry t q e' ≡ get_entry t q e)
        × (e'.is_closed ≡ false)
        × (e'.memtable.immutable ≡ false)
  unfolding check_rotate_memtable
  check_rotate-keeps now e v = elim (Bool-cases (MemTable.should_flush e.memtable)) [
    | inr small ↦ (e, rw small, (λ q. refl), v.not_closed, v.writable)
    | inl full ↦
        let (m, run, blank, writable) = rotate_memtable-rotated t now e v.room in
        (
          rotated t m e,
          rw full run,
          (λ q. get_entry-rotated m e q (blank q)),
          v.not_closed,
          writable,
        )
  ]

  -- What `get` reads when the entry of one key has changed in the memtable.
  get_entry-memtable :
      (e : Engine f t) (m : MemTable) (q : List ℕ) (b : Bool) (new : Entry)
      → MemTable.get q m ≡ (if b then some new else MemTable.get q e.memtable)
      → get_entry t q (record e { memtable = m }) ≡ (if b then ok (some new) else get_entry t q e)
  unfolding get_entry
  get_entry-memtable e m q true new h = rw h
  get_entry-memtable e m q false new h = rw h

  get-entry :
      (e e' : Engine f t) (q : List ℕ) (b : Bool) (new : Entry)
      → e.is_closed ≡ false
      → e'.is_closed ≡ false
      → get_entry t q e' ≡ (if b then ok (some new) else get_entry t q e)
      → get t q e' ≡ (if b then ok new.value else get t q e)
  unfolding get value_of
  get-entry e e' q true new h h' r = if-false _ _ h' ∙ ap (λ o. and_then o λ x. ok (value_of x)) r
  get-entry e e' q false new h h' r =
      if-false _ _ h' ∙ ap (λ o. and_then o λ x. ok (value_of x)) r ∙ sym (if-false _ _ h)

  get-write :
      (e e' : Engine f t) (m : MemTable) (q : List ℕ) (b : Bool) (new : Entry)
      → e.is_closed ≡ false
      → e'.is_closed ≡ false
      → get_entry t q e' ≡ get_entry t q e
      → MemTable.get q m ≡ (if b then some new else MemTable.get q e'.memtable)
      → get t q (record e' { memtable = m }) ≡ (if b then ok new.value else get t q e)
  get-write e e' m q b new h h' kept r =
      get-entry e (record e' { memtable = m }) q b new h h'
        (get_entry-memtable e' m q b new r ∙ ap (λ o. if b then ok (some new) else o) kept)

  -- A `put` of a key and a value within their limits, on an engine that is open, whose memtable takes
  -- writes, with room for one more immutable memtable and a clock behind the epoch, succeeds, also
  -- when it rotates the memtable. Then `get` reads the value under the key, and what it read before
  -- under every other key.
  pub get-put_lem :
      (now : ℕ) (key value : List ℕ) (e : Engine f t)
      → IsReady t e
      → length key ≤ Record.max_key_size
      → length value ≤ Record.max_value_size
      → ((put t (some now) key value e).0 ≡ ok tt)
        × ((q : List ℕ)
            → get t q (put t (some now) key value e).1
              ≡ (if key_eq q key then ok (some value) else get t q e))
  get-put_lem now key value e v hk hv =
      let (e', run, kept, is_open, writable) = check_rotate-keeps now e v in
      let new = entry_of now key (some value) e'.memtable in
      rw (put-run t (some now) key e v.not_closed hk run value hv) (
        put_succeeds now key value e'.memtable writable,
        λ q.
            get-write e e' (MemTable.put (some now) key value e'.memtable).1 q (key_eq q key) new
              v.not_closed is_open (kept q) (get-put now key value q e'.memtable writable),
      )

  -- A `delete` of a key within its limit, on such an engine, succeeds. Then `get` reads nothing under
  -- the key, also when older memtables or tables have it, and what it read before under every other.
  pub get-delete_lem :
      (now : ℕ) (key : List ℕ) (e : Engine f t)
      → IsReady t e
      → length key ≤ Record.max_key_size
      → ((delete t (some now) key e).0 ≡ ok tt)
        × ((q : List ℕ)
            → get t q (delete t (some now) key e).1 ≡ (if key_eq q key then ok none else get t q e))
  get-delete_lem now key e v hk =
      let (e', run, kept, is_open, writable) = check_rotate-keeps now e v in
      let new = entry_of now key none e'.memtable in
      rw (delete-run t (some now) key e v.not_closed hk run) (
        delete_succeeds now key e'.memtable writable,
        λ q.
            get-write e e' (MemTable.delete (some now) key e'.memtable).1 q (key_eq q key) new
              v.not_closed is_open (kept q) (get-delete now key q e'.memtable writable),
      )
