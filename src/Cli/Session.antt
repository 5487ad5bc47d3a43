-- ===== src/Cli/Session.antt =====
-- src/bin/cli.rs: what a command acts on. The lines printed so far stand beside the engine; a printed
-- value keeps its bytes, with how it is printed. Printing does not fail.
use justdbd.Common.{ℕ, zero, suc, ◌+◌, String, Bool, List, [], ◌∷◌, ◌++◌, none, some}
use justdbd.Common.Float.{F64}
use justdbd.Common.Outcome.{Outcome, ok, err, panic, Method}
use justdbd.Error.{StorageError, Result}
use justdbd.NumberMap.{slot}
use justdbd.Storage.Engine.{Engine, EngineMethod, Levels}
use justdbd.Storage.Lifecycle.{LevelStats, StorageStats, stats}
use justdbd.Storage.Tables.{Tables}

pub data Printed : Type 0 where
  line : String → Printed
  -- a text, which is UTF-8
  text : List ℕ → Printed
  -- `{value:?}`
  debug : List ℕ → Printed
  -- a key and a value, each through `from_utf8_lossy`
  pair : (key value : List ℕ) → Printed
  number : String → ℕ → Printed
  flag : String → Bool → Printed
  level : (level tables entries bytes : ℕ) → Printed
  progress : (done operations : ℕ) → Printed
  -- the bit pattern of an `i32`, printed as a signed number
  signed : String → ℕ → Printed
  -- without the end of the line
  prompt : Printed
  -- on the standard error: `Error: {e}`, and `Error {e}`
  error error_plain : StorageError → Printed
  unknown : List ℕ → Printed

-- A `Box<dyn Error>`: an error of the engine, or one of the terminal.
pub data CliError : Type 0 where
  storage : StorageError → CliError
  terminal : CliError

module _ {f : F64} (t : Tables f) where
  pub record Session : Type 0 where
    pub engine : Engine f t
    pub printed : List Printed

  abbrev pub SessionMethod {ℓ} : Type ℓ → Type ℓ
  SessionMethod A = Method Session CliError A

  unfoldable pub print : List Printed → SessionMethod (Unit {0})
  print lines s = (ok tt, record s { printed = s.printed ++ lines })

  -- a call that only reads the engine
  abbrev pub reading {ℓ} : {A : Type ℓ} → (Engine f t → Result A) → EngineMethod t A
  reading r e = (r e, e)

  -- what a match on the result prints: the answer, or the error
  report {ℓ} :
      {A : Type ℓ}
      → (StorageError → Printed)
      → (A → List Printed)
      → Outcome StorageError A
      → SessionMethod (Unit {0})
  unfolding print
  report failed show (ok a) s = print (show a) s
  report failed show (err e) s = print (failed e ∷ []) s
  report failed show panic s = (panic, s)

  unfoldable pub attempt {ℓ} :
      {A : Type ℓ}
      → (StorageError → Printed)
      → EngineMethod t A
      → (A → List Printed)
      → SessionMethod (Unit {0})
  unfolding report
  attempt failed m show s =
      let (r, e') = m s.engine in report failed show r (record s { engine = e' })

  -- `?`
  boxed {ℓ} : {A : Type ℓ} → Outcome StorageError A → Outcome CliError A
  boxed (ok a) = ok a
  boxed (err e) = err (storage e)
  boxed panic = panic

  unfoldable pub require {ℓ} : {A : Type ℓ} → EngineMethod t A → SessionMethod A
  unfolding boxed
  require m s = let (r, e') = m s.engine in (boxed r, record s { engine = e' })

  -- the loop over the levels from `n` on, so many of them
  level_lines : ℕ → ℕ → Levels (LevelStats t) → List Printed
  level_lines zero n levels = []
  level_lines (suc count) n levels =
      let later = level_lines count (n + 1) levels in
      elim (slot n levels) [
        | none ↦ later
        | some s ↦ level n s.table_count s.total_entries s.total_size ∷ later
      ]

  unfoldable pub stats_lines : StorageStats t → List Printed
  unfolding level_lines
  stats_lines s =
      line "Storage Engine Statistics"
      ∷ line "========================="
      ∷ number "Sequence number: " s.seqence_number
      ∷ flag "Closed: " s.is_closed
      ∷ line ""
      ∷ line "Memtable:"
      ∷ number "  Entries: " s.memtable_stats.entry_count
      ∷ number "  Size: " s.memtable_stats.approximate_size
      ∷ flag "  Immutable: " s.memtable_stats.is_immutable
      ∷ line ""
      ∷ number "Immutable memtables: " s.immutable_memtable_count
      ∷ line ""
      ∷ line "SStables:"
      ∷ level_lines 7 0 s.sstable_stats

  unfoldable pub print_stats : SessionMethod (Unit {0})
  print_stats s = print (stats_lines (stats t s.engine)) s
