-- ===== src/Cli/Main.antt =====
-- src/bin/cli.rs: the options, the commands, and `main`. The setting up of the log is left out. The lines
-- of the input and the random numbers are given from the start, and opening, a single command and closing
-- share one reading of the clock.
pub mod Refusals
mod Tests
use justdbd.Common.{ℕ, ◌*◌, ◌%◌, ◌^◌, Bool, List, [], ◌∷◌, Option, none, some, map, if◌then◌else◌}
use justdbd.Common.Float.{F64}
use justdbd.Common.Outcome.{Outcome, ok, err, panic, return, ◌>>=◌, ◌>>◌}
use justdbd.Cli.Benchmark.{Rng, Bench, run_benchmark}
use justdbd.Cli.Interactive.{pair_lines, run_intractive_mode}
use justdbd.Cli.Session.{
  Printed, line, text, debug, CliError, storage, Session, SessionMethod, print, reading, require,
  print_stats,
}
use justdbd.Cli.Text.{as_bytes}
use justdbd.Config
use justdbd.Config.{
  Config, CompressionType, uncompressed, lz4, with_memtable_size, with_compression,
}
use justdbd.MemTable.{Clock}
use justdbd.Serialization.Utf8.{is_utf8}
use justdbd.Storage.Engine.{Engine, put, delete}
use justdbd.Storage.Lifecycle.{open_engine, close}
use justdbd.Storage.Lookup.{get}
use justdbd.Storage.Scan.{scan}
use justdbd.Storage.Tables.{Tables}

pub data Commands : Type 0 where
  put_command : (key value : List ℕ) → Commands
  get_command delete_command : (key : List ℕ) → Commands
  scan_command : (start end : List ℕ) → Commands
  stats_command interactive_command : Commands
  benchmark_command : (operations key_size value_size read_percentage : ℕ) → Commands

pub record Options : Type 0 where
  pub no_compression : Bool
  -- in MiB
  pub memtable_size : ℕ
  pub command : Commands

-- The configuration; the products of `usize` wrap.
unfoldable pub config_of : {f : F64} → ℕ → Options → Config f
config_of cpus options =
    with_compression (if options.no_compression then uncompressed else lz4)
      (with_memtable_size (options.memtable_size * 1024 % 2 ^ 64 * 1024 % 2 ^ 64) (Config.new cpus))

found_lines : Option (List ℕ) → List Printed
found_lines none = line "(nil)" ∷ []
found_lines (some value) = (if is_utf8 value then text value else debug value) ∷ []

-- What happens outside the program: the clock, the lines of the input, with as many rounds of the
-- interactive loop as are watched, and the random numbers.
pub record World (rng : Rng) : Type 0 where
  pub now : Clock
  pub rounds : ℕ
  pub inputs : List (Clock × Option (List ℕ))
  pub random : rng.State

module _ {f : F64} (t : Tables f) (rng : Rng) where
  -- How a command ends; `none` says that the interactive loop has not ended.
  abbrev pub Result : Type 0
  Result = Option (Outcome CliError (Unit {0}) × Session t)

  put_once : Clock → (key value : List ℕ) → SessionMethod t (Unit {0})
  put_once now key value = do
    require t (put t now (as_bytes key) (as_bytes value))
    print t (line "OK" ∷ [])

  get_once : List ℕ → SessionMethod t (Unit {0})
  unfolding found_lines
  get_once key = do
    found ← require t (reading t (get t (as_bytes key)))
    print t (found_lines found)

  delete_once : Clock → List ℕ → SessionMethod t (Unit {0})
  delete_once now key = do require t (delete t now (as_bytes key)); print t (line "OK" ∷ [])

  scan_once : (start end : List ℕ) → SessionMethod t (Unit {0})
  scan_once start end = do
    results ← require t (reading t (scan t (as_bytes start) (as_bytes end)))
    print t (pair_lines results)

  -- the counters of a benchmark start at zero
  pub start_benchmark : rng.State → Session t → Bench t rng
  start_benchmark random s = record {
    session = s;
    random = random;
    read_ops = 0;
    write_ops = 0;
    read_hits = 0;
  }

  -- the match on the command
  pub execute : World rng → Commands → Session t → Result
  unfolding put_once get_once delete_once scan_once start_benchmark
  execute w (put_command key value) s = some (put_once w.now key value s)
  execute w (get_command key) s = some (get_once key s)
  execute w (delete_command key) s = some (delete_once w.now key s)
  execute w (scan_command start end) s = some (scan_once start end s)
  execute w stats_command s = some (print_stats t s)
  execute w interactive_command s = run_intractive_mode t w.rounds w.inputs s
  execute w (benchmark_command operations key_size value_size read_percentage) s =
      let (r, b) =
        run_benchmark t rng w.now operations key_size value_size read_percentage
          (start_benchmark w.random s) in
      some (r, b.session)

  -- `close` behind a command that has succeeded; after an error the program ends without it
  abbrev pub close_after :
      Clock → Outcome CliError (Unit {0}) × Session t → Outcome CliError (Unit {0}) × Session t
  close_after now (ok _, s) = require t (close t now) s
  close_after now (err e, s) = (err e, s)
  close_after now (panic, s) = (panic, s)

  -- How the program ends, what it has printed, and the files.
  pub main :
      ℕ
      → World rng
      → Options
      → t.Disk
      → Option (Outcome CliError (Unit {0}) × List Printed × t.Disk)
  unfolding execute
  main cpus w options disk =
      let (opened, disk') = open_engine t w.now (config_of cpus options) disk in
      elim opened [
        | panic ↦ some (panic, [], disk')
        | err e ↦ some (err (storage e), [], disk')
        | ok engine ↦ elim (execute w options.command (record { engine = engine; printed = [] })) [
          | none ↦ none
          | some ended ↦
              (let (r, s) = close_after w.now ended in some (r, s.printed, s.engine.disk))
        ]
      ]
