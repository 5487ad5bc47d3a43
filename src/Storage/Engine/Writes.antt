-- ===== src/Storage/Engine/Writes.antt =====
-- src/storage.rs: what a write does to the engine, and what it refuses.
use justdbd.Common.{
  Option, none, ℕ, ◌≤◌, ◌<◌, ◌≡◌, ◌∙◌, true, false, List, some, ltb, length, arith, if-true,
  if-false,
}
use justdbd.Common.Float.{F64}
use justdbd.Common.Outcome.{ok, err, bind-ok}
use justdbd.Entry.Record
use justdbd.Error.{StorageError, closed, invalid_key_size, invalid_value_size}
use justdbd.MemTable
use justdbd.MemTable.{Clock}
use justdbd.Storage.Engine.{Engine, EngineMethod, check_rotate_memtable, on_memtable, put, delete}
use justdbd.Storage.Tables.{Tables}

module _ {f : F64} (t : Tables f) (now : Clock) (key : List ℕ) (e : Engine f t) where
  -- A write within the limits, on an open engine that need not rotate or has rotated.
  module _ {e' : Engine f t} (is_open : e.is_closed ≡ false)
      (short : length key ≤ Record.max_key_size)
      (run : check_rotate_memtable t now e ≡ (ok tt, e')) where
    pub put-run :
        (value : List ℕ)
        → length value ≤ Record.max_value_size
        → let (r, m) = MemTable.put now key value e'.memtable in
          put t now key value e ≡ (r, record e' { memtable = m })
    unfolding put on_memtable
    put-run value h =
        if-false _ _ is_open
        ∙ if-false {b = ltb Record.max_key_size (length key)} _ _ (ground arith)
        ∙ if-false {b = ltb Record.max_value_size (length value)} _ _ (ground arith)
        ∙ bind-ok (check_rotate_memtable t now) _ e run

    pub delete-run :
        let (r, m) = MemTable.delete now key e'.memtable in
        delete t now key e ≡ (r, record e' { memtable = m })
    unfolding delete on_memtable
    delete-run =
        if-false _ _ is_open
        ∙ if-false {b = ltb Record.max_key_size (length key)} _ _ (ground arith)
        ∙ bind-ok (check_rotate_memtable t now) _ e run

-- Why a write is refused: `some` value for a `put` and `none` for a `delete`. The tests are in the
-- order of the code.
module _ {f : F64} {t : Tables f} where
  pub data Refusal (e : Engine f t) (key : List ℕ) : Option (List ℕ) → StorageError → Type 0 where
    when_closed : {value : Option (List ℕ)} → e.is_closed ≡ true → Refusal e key value closed
    long_key :
        {value : Option (List ℕ)}
        → e.is_closed ≡ false
        → Record.max_key_size < length key
        → Refusal e key value (invalid_key_size (length key) Record.max_key_size)
    long_value :
        {v : List ℕ}
        → e.is_closed ≡ false
        → length key ≤ Record.max_key_size
        → Record.max_value_size < length v
        → Refusal e key (some v) (invalid_value_size (length v) Record.max_value_size)

  -- a `put` or a `delete`
  unfoldable pub write : Clock → List ℕ → Option (List ℕ) → EngineMethod t (Unit {0})
  write now key (some value) = put t now key value
  write now key none = delete t now key

  -- A write on a closed engine is refused, one on an open engine for a key above its limit, and one
  -- with a key within it for a value above its limit, each with the error that says so. The engine
  -- stays as it was.
  pub writes-refused :
      (now : Clock) (key : List ℕ) (value : Option (List ℕ)) (e : Engine f t) {error : StorageError}
      → Refusal e key value error
      → write now key value e ≡ (err error, e)
  unfolding put delete write
  writes-refused now key (some v) e (when_closed shut) = if-true _ _ shut
  writes-refused now key none e (when_closed shut) = if-true _ _ shut
  writes-refused now key (some v) e (long_key is_open long) =
      if-false _ _ is_open ∙ if-true {b = ltb Record.max_key_size (length key)} _ _ (ground arith)
  writes-refused now key none e (long_key is_open long) =
      if-false _ _ is_open ∙ if-true {b = ltb Record.max_key_size (length key)} _ _ (ground arith)
  writes-refused now key (some v) e (long_value is_open short long) =
      if-false _ _ is_open
      ∙ if-false {b = ltb Record.max_key_size (length key)} _ _ (ground arith)
      ∙ if-true {b = ltb Record.max_value_size (length v)} _ _ (ground arith)
