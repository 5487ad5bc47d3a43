-- ===== src/Cli/Benchmark.antt =====
-- src/bin/cli.rs: `run_benchmark`. The random numbers are a parameter; the readings of the clock for the
-- times that are printed, and the rates made of them, are left out, and its writes share one reading of
-- the clock. A counter is the bit pattern of an `i32`.
pub mod Counts
pub mod Few
mod Tests
use justdbd.Common.{
  ℕ, zero, suc, ◌+◌, ◌/◌, ◌%◌, ◌^◌, List, [], ◌∷◌, Option, none, some, ltb, ◌==◌, if◌then◌else◌,
}
use justdbd.Common.Float.{F64}
use justdbd.Common.Outcome.{Outcome, ok, err, panic, Method, return, ◌>>=◌, ◌>>◌}
use justdbd.Cli.Generate.{generate_key, generate_value}
use justdbd.Cli.Session.{
  Printed, line, number, signed, progress, CliError, Session, SessionMethod, print, reading,
  require, print_stats,
}
use justdbd.MemTable.{Clock}
use justdbd.Storage.Engine.{put}
use justdbd.Storage.Lookup.{get}
use justdbd.Storage.Tables.{Tables}

-- `rand::rng()`: a number below a bound that is not zero.
pub record Rng : Type 1 where
  pub State : Type 0
  pub below : ℕ → State → ℕ × State

module _ {f : F64} (t : Tables f) (rng : Rng) where
  pub record Bench : Type 0 where
    pub session : Session t
    pub random : rng.State
    pub read_ops : ℕ
    pub write_ops : ℕ
    pub read_hits : ℕ

  abbrev pub BenchMethod {ℓ} : Type ℓ → Type ℓ
  BenchMethod A = Method Bench CliError A

  abbrev pub on_session {ℓ} : {A : Type ℓ} → SessionMethod t A → BenchMethod A
  on_session m b = let (r, s) = m b.session in (r, record b { session = s })

  -- `random_range(0..bound)`, which panics on an empty range
  unfoldable pub random_range : ℕ → BenchMethod ℕ
  random_range bound b =
      if bound == 0
      then (panic, b)
      else let (n, state) = rng.below bound b.random in (ok n, record b { random = state })

  -- `engine.put` and `engine.get` with `?`
  unfoldable pub put_pair : Clock → (key value : List ℕ) → BenchMethod (Unit {0})
  put_pair now key value = on_session (require t (put t now key value))

  unfoldable pub get_value : List ℕ → BenchMethod (Option (List ℕ))
  get_value key = on_session (require t (reading t (get t key)))

  -- the loop over `0..populate_count`, from `i` on
  unfoldable pub populate : ℕ → ℕ → Clock → (key_size value_size : ℕ) → BenchMethod (Unit {0})
  populate zero i now key_size value_size = return tt
  populate (suc n) i now key_size value_size = do
    put_pair now (generate_key i key_size) (generate_value i value_size)
    populate n (i + 1) now key_size value_size

  unfoldable pub count_hit : Option (List ℕ) → BenchMethod (Unit {0})
  count_hit none b = (ok tt, b)
  count_hit (some _) b = (ok tt, record b { read_hits = (b.read_hits + 1) % 2 ^ 32 })

  unfoldable pub count_read : BenchMethod (Unit {0})
  count_read b = (ok tt, record b { read_ops = (b.read_ops + 1) % 2 ^ 32 })

  -- The line of a tenth of the operations; a remainder by zero panics.
  unfoldable pub show_progress : ℕ → ℕ → BenchMethod (Unit {0})
  show_progress i operations =
      if operations / 10 == 0
      then (λ b. (panic, b))
      else if (i + 1) % (operations / 10) == 0
      then on_session (print t (progress (i + 1) operations ∷ []))
      else return tt

  -- One operation. The write makes its value with `generate_key`, and is counted as a read.
  unfoldable pub operate :
      ℕ → ℕ → Clock → (key_size value_size read_percentage : ℕ) → BenchMethod (Unit {0})
  operate i populate_count now key_size value_size read_percentage = do
    percent ← random_range 100
    if ltb percent read_percentage
        then (do
          key_id ← random_range (populate_count + i)
          found ← get_value (generate_key key_id key_size)
          count_hit found
          count_read)
        else (do
          put_pair now (generate_key (populate_count + i) key_size)
              (generate_key (populate_count + i) value_size)
          count_read)

  -- the loop over `0..operations`, from `i` on, so many of them
  unfoldable pub run_operations :
      ℕ → ℕ → ℕ → Clock → (key_size value_size read_percentage : ℕ) → BenchMethod (Unit {0})
  run_operations zero i operations now key_size value_size read_percentage = return tt
  run_operations (suc n) i operations now key_size value_size read_percentage = do
    operate i (operations / 10) now key_size value_size read_percentage
    show_progress i operations
    run_operations n (i + 1) operations now key_size value_size read_percentage

  unfoldable pub heading : (operations key_size value_size read_percentage : ℕ) → List Printed
  heading operations key_size value_size read_percentage =
      line "Running benchmark..."
      ∷ number "Operations: " operations
      ∷ number "Key size: " key_size
      ∷ number "Value size: " value_size
      ∷ number "Read percentage: " read_percentage
      ∷ line ""
      ∷ number "pre-populating with entries: " (operations / 10)
      ∷ []

  -- the counters at the end
  unfoldable pub results : Bench → List Printed
  results b =
      line ""
      ∷ line "benchmark resutls"
      ∷ line "==================="
      ∷ signed "read operations: " b.read_ops
      ∷ signed "writes operations: " b.write_ops
      ∷ signed "read hits: " b.read_hits
      ∷ line ""
      ∷ []

  unfoldable pub run_benchmark :
      Clock → (operations key_size value_size read_percentage : ℕ) → BenchMethod (Unit {0})
  run_benchmark now operations key_size value_size read_percentage = do
    on_session (print t (heading operations key_size value_size read_percentage))
    populate (operations / 10) 0 now key_size value_size
    run_operations operations 0 operations now key_size value_size read_percentage
    (λ b. on_session (print t (results b)) b)
    on_session (print_stats t)
