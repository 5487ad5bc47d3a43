-- ===== src/Cli/Benchmark/Counts.antt =====
-- src/bin/cli.rs: what the counters of a benchmark say at its end.
use justdbd.Common.{
  ℕ, zero, suc, ◌+◌, ◌/◌, ◌%◌, ◌^◌, ◌<◌, ◌≡◌, refl, ap, sym, ◌∙◌, Bool, true, false, List, Option,
  none, some, arith, ltb, ◌==◌, Bool-cases, inl, inr, if◌then◌else◌,
}
use justdbd.Common.Float.{F64}
use justdbd.Common.Outcome.{Outcome, ok, panic, bind-eq_ok, return, ◌>>=◌}
use justdbd.Cli.Benchmark.{
  put_pair, get_value, Rng, Bench, BenchMethod, on_session, random_range, populate, count_hit,
  count_read, show_progress, operate, run_operations, heading, results, run_benchmark,
}
use justdbd.Cli.Session.{reading, require, SessionMethod, CliError, print, print_stats}
use justdbd.Cli.Generate.{generate_key, generate_value}
use justdbd.MemTable.{Clock}
use justdbd.Storage.Engine.{put}
use justdbd.Storage.Lookup.{get}
use justdbd.Storage.Tables.{Tables}

module _ {f : F64} (t : Tables f) (rng : Rng) where
  -- A method that, when it succeeds, has counted so many reads and no write.
  abbrev Adds {ℓ} : {A : Type ℓ} → ℕ → BenchMethod t rng A → Type ℓ
  Adds {A} k m =
      (b b' : Bench t rng) (a : A)
      → m b ≡ (ok a, b')
      → b.read_ops + k < 2 ^ 32
      → (b'.read_ops ≡ b.read_ops + k) × (b'.write_ops ≡ b.write_ops)

  Adds-bind {ℓ κ} :
      {A : Type ℓ} {B : Type κ} (j k : ℕ) (m : BenchMethod t rng A) (g : A → BenchMethod t rng B)
      → Adds j m
      → ((a : A) → Adds k (g a))
      → Adds (j + k) (m >>= g)
  Adds-bind j k m g first second b b' c run small =
      let (a, b1, run1, run2) = bind-eq_ok m g b run in
      let (reads, writes) = first b b1 a run1 (omega (arith, small)) in
      let (reads', writes') = second a b1 b' c run2 (omega (arith, small, reads)) in
      (omega (arith, reads, reads'), writes' ∙ writes)

  abbrev Keeps {ℓ} : {A : Type ℓ} → BenchMethod t rng A → Type 0
  Keeps m = (b : Bench t rng) → ((m b).1.read_ops ≡ b.read_ops) × ((m b).1.write_ops ≡ b.write_ops)

  Adds-Keeps {ℓ} : {A : Type ℓ} (m : BenchMethod t rng A) → Keeps m → Adds 0 m
  Adds-Keeps {A} m kept b b' a run small =
      let (reads, writes) = kept b in
      let reads' : (m b).1.read_ops ≡ b'.read_ops =
        ap (λ (x : Outcome CliError A × Bench t rng). x.1.read_ops) run in
      let writes' : (m b).1.write_ops ≡ b'.write_ops =
        ap (λ (x : Outcome CliError A × Bench t rng). x.1.write_ops) run in
      (omega (arith, reads, reads'), sym writes' ∙ writes)

  Adds-on_session {ℓ} : {A : Type ℓ} (m : SessionMethod t A) → Adds 0 (on_session t rng m)
  Adds-on_session m = Adds-Keeps (on_session t rng m) λ b. (refl, refl)

  Adds-put : (now : Clock) (key value : List ℕ) → Adds 0 (put_pair t rng now key value)
  unfolding put_pair
  Adds-put now key value = Adds-on_session (require t (put t now key value))

  Adds-get : (key : List ℕ) → Adds 0 (get_value t rng key)
  unfolding get_value
  Adds-get key = Adds-on_session (require t (reading t (get t key)))

  Adds-return : Adds {A = Unit {0}} 0 (return tt)
  Adds-return = Adds-Keeps (return tt) λ b. (refl, refl)

  Adds-if {ℓ} :
      {A : Type ℓ} (k : ℕ) (b : Bool) (m n : BenchMethod t rng A)
      → Adds k m
      → Adds k n
      → Adds k (if b then m else n)
  Adds-if k true m n first second = first
  Adds-if k false m n first second = second

  Adds-random : (bound : ℕ) → Adds 0 (random_range t rng bound)
  unfolding random_range
  Adds-random bound = Adds-Keeps (random_range t rng bound) λ b. elim (Bool-cases (bound == 0)) [
    | inl empty ↦ rw (random_range, empty) (refl, refl)
    | inr wide ↦ rw (random_range, wide) (refl, refl)
  ]

  Adds-hit : (found : Option (List ℕ)) → Adds 0 (count_hit t rng found)
  unfolding count_hit
  Adds-hit none = Adds-Keeps (count_hit t rng none) λ b. (refl, refl)
  Adds-hit (some v) = Adds-Keeps (count_hit t rng (some v)) λ b. (refl, refl)

  Adds-read : Adds 1 (count_read t rng)
  unfolding count_read
  Adds-read b b' a run small =
      let reads : (b.read_ops + 1) % 2 ^ 32 ≡ b'.read_ops =
        ap (λ (x : Outcome CliError (Unit {0}) × Bench t rng). x.1.read_ops) run in
      let writes : b.write_ops ≡ b'.write_ops =
        ap (λ (x : Outcome CliError (Unit {0}) × Bench t rng). x.1.write_ops) run in
      (omega (arith, reads, small), sym writes)

  Adds-populate :
      (n i : ℕ) (now : Clock) (key_size value_size : ℕ)
      → Adds 0 (populate t rng n i now key_size value_size)
  unfolding populate
  Adds-populate zero i now key_size value_size = Adds-return
  Adds-populate (suc n) i now key_size value_size =
      Adds-bind 0 0 (put_pair t rng now (generate_key i key_size) (generate_value i value_size)) _
        (Adds-put now _ _) λ _. Adds-populate n (i + 1) now key_size value_size

  Adds-progress : (i operations : ℕ) → Adds 0 (show_progress t rng i operations)
  unfolding show_progress
  Adds-progress i operations =
      Adds-if 0 (operations / 10 == 0) _ _ (Adds-Keeps (λ b. (panic, b)) λ b. (refl, refl))
        (Adds-if 0 ((i + 1) % (operations / 10) == 0) _ _ (Adds-on_session _) Adds-return)

  Adds-operate :
      (i populate_count : ℕ) (now : Clock) (key_size value_size read_percentage : ℕ)
      → Adds 1 (operate t rng i populate_count now key_size value_size read_percentage)
  unfolding operate
  Adds-operate i populate_count now key_size value_size read_percentage =
      Adds-bind 0 1 (random_range t rng 100) _ (Adds-random 100) λ percent.
        Adds-if 1 (ltb percent read_percentage) _ _
          (Adds-bind 0 1 (random_range t rng (populate_count + i)) _ (Adds-random _) λ key_id.
            Adds-bind 0 1 (get_value t rng (generate_key key_id key_size)) _
              (Adds-get (generate_key key_id key_size))
              λ found. Adds-bind 0 1 (count_hit t rng found) _ (Adds-hit found) λ _. Adds-read)
          (Adds-bind 0 1
            (put_pair t rng now (generate_key (populate_count + i) key_size)
              (generate_key (populate_count + i) value_size))
            _ (Adds-put now _ _) λ _. Adds-read)

  Adds-run :
      (n i operations : ℕ) (now : Clock) (key_size value_size read_percentage : ℕ)
      → Adds n (run_operations t rng n i operations now key_size value_size read_percentage)
  unfolding run_operations
  Adds-run zero i operations now key_size value_size read_percentage = Adds-return
  Adds-run (suc n) i operations now key_size value_size read_percentage =
      let count : 1 + (0 + n) ≡ suc n = omega arith in
      rw count at (
        Adds-bind 1 (0 + n)
          (operate t rng i (operations / 10) now key_size value_size read_percentage) _
          (Adds-operate i (operations / 10) now key_size value_size read_percentage)
          λ _.
            Adds-bind 0 n (show_progress t rng i operations) _ (Adds-progress i operations)
              λ _. Adds-run n (i + 1) operations now key_size value_size read_percentage)

  -- A benchmark that succeeds and whose counters start at zero has counted each of its operations as a
  -- read, fewer than 2 ^ 32 of them, and none as a write, whatever share of them were writes.
  pub run_benchmark-counts :
      (now : Clock) (operations key_size value_size read_percentage : ℕ) (b b' : Bench t rng)
      → b.read_ops ≡ 0
      → b.write_ops ≡ 0
      → operations < 2 ^ 32
      → run_benchmark t rng now operations key_size value_size read_percentage b ≡ (ok tt, b')
      → (b'.read_ops ≡ operations) × (b'.write_ops ≡ 0)
  unfolding run_benchmark
  run_benchmark-counts now operations key_size value_size read_percentage b b' reads writes small
        run =
      let count : 0 + (0 + (operations + (0 + 0))) ≡ operations = omega arith in
      let (reads', writes') =
        Adds-bind 0 (0 + (operations + (0 + 0)))
          (on_session t rng
            (print t (heading t rng operations key_size value_size read_percentage)))
          _ (Adds-on_session (print t _))
          (λ _.
            Adds-bind 0 (operations + (0 + 0))
              (populate t rng (operations / 10) 0 now key_size value_size) _
              (Adds-populate (operations / 10) 0 now key_size value_size)
              λ _.
                Adds-bind operations (0 + 0)
                  (run_operations t rng operations 0 operations now key_size value_size
                    read_percentage)
                  _ (Adds-run operations 0 operations now key_size value_size read_percentage)
                  λ _.
                    Adds-bind 0 0 _ _
                      (Adds-Keeps (λ b. on_session t rng (print t (results t rng b)) b)
                        λ b. (refl, refl))
                      λ _. Adds-on_session (print_stats t))
          b b' tt run (omega (arith, reads, small)) in
      (omega (arith, reads, reads'), writes' ∙ writes)
