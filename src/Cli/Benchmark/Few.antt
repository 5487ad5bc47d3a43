-- ===== src/Cli/Benchmark/Few.antt =====
-- src/bin/cli.rs: a benchmark of fewer than ten operations.
use justdbd.Common.{
  ℕ, zero, suc, ◌+◌, ◌%◌, ◌^◌, ◌/◌, ◌<◌, ◌≡◌, refl, ap, ◌∙◌, true, ltb, ◌==◌, arith, if-true,
  Bool-cases, ◌⊎◌, inl, inr,
}
use justdbd.Common.Float.{F64}
use justdbd.Common.Outcome.{ok, panic, bind-ok, bind-panic, ◌>>◌}
use justdbd.Cli.Benchmark.{
  Rng, Bench, BenchMethod, on_session, populate, random_range, put_pair, get_value, count_read,
  show_progress, operate, run_operations, heading, results, run_benchmark,
}
use justdbd.Cli.Generate.{generate_key}
use justdbd.Cli.Session.{print, print_stats, require}
use justdbd.MemTable.{Clock}
use justdbd.Storage.Engine.{put}
use justdbd.Storage.Tables.{Tables}

module _ {f : F64} (t : Tables f) (rng : Rng) where
  few-panic :
      (i operations : ℕ) (b : Bench t rng)
      → operations < 10
      → show_progress t rng i operations b ≡ (panic, b)
  unfolding show_progress
  few-panic i operations b h =
      let none : (operations / 10 == 0) ≡ true = ground (arith, h) in
      ap (λ (m : BenchMethod t rng (Unit {0})). m b) (if-true _ _ none)

  module _ (now : Clock) (key_size value_size read_percentage : ℕ) where
    -- The first write of a benchmark without a population succeeds.
    abbrev Writes : Bench t rng → Type 0
    Writes b =
        (put t now (generate_key 0 key_size) (generate_key 0 value_size) b.session.engine).0 ≡ ok tt

    -- The first operation, which reads from an empty range of keys, or writes.
    operate-first :
        (b : Bench t rng)
        → Writes b
        → ((b' : Bench t rng) × (operate t rng 0 0 now key_size value_size read_percentage b
              ≡ (panic, b')))
          ⊎ ((b' : Bench t rng) × (operate t rng 0 0 now key_size value_size read_percentage b
                ≡ (ok tt, b')))
    unfolding operate random_range put_pair get_value count_read require
    operate-first b h = elim (Bool-cases (ltb (rng.below 100 b.random).0 read_percentage)) [
      | inl reads ↦ inl (record b { random = (rng.below 100 b.random).1 }, rw reads refl)
      | inr writes ↦ inr (
        record b {
          random = (rng.below 100 b.random).1;
          session = record b.session {
            engine =
                (put t now (generate_key 0 key_size) (generate_key 0 value_size)
                  b.session.engine).1;
          };
          read_ops = (b.read_ops + 1) % 2 ^ 32;
        },
        rw (writes, h) refl,
      )
    ]

    run_operations-few :
        (n : ℕ) (b : Bench t rng)
        → suc n < 10
        → Writes b
        → (b' : Bench t rng) × (run_operations t rng
              (suc n)
              0
              (suc n)
              now
              key_size
              value_size
              read_percentage
              b
            ≡ (panic, b'))
    unfolding run_operations
    run_operations-few n b few h =
        let none : suc n / 10 ≡ 0 = omega (arith, few) in
        let shown = show_progress t rng 0 (suc n) in
        let rest = run_operations t rng n 1 (suc n) now key_size value_size read_percentage in
        let first = operate t rng 0 0 now key_size value_size read_percentage in
        rw none (elim (operate-first b h) [
          | inl (b', run) ↦ (b', bind-panic first (λ _. shown >> rest) b run)
          | inr (b', run) ↦ (
            b',
            bind-ok first (λ _. shown >> rest) b run
                ∙ bind-panic shown (λ _. rest) b' (few-panic 0 (suc n) b' few),
          )
        ])

    -- A benchmark of one to nine operations panics, whatever the random numbers, on every engine on
    -- which the write of its first operation would succeed.
    pub run_benchmark-few :
        (operations : ℕ) (b : Bench t rng)
        → 0 < operations
        → operations < 10
        → (put t now (generate_key 0 key_size) (generate_key 0 value_size) b.session.engine).0
          ≡ ok tt
        → (run_benchmark t rng now operations key_size value_size read_percentage b).0 ≡ panic
    unfolding run_benchmark populate print
    run_benchmark-few zero b some few h = absurd (omega (arith, some))
    run_benchmark-few (suc n) b some few h =
        let none : suc n / 10 ≡ 0 = omega (arith, few) in
        let start =
          (on_session t rng (print t (heading t rng (suc n) key_size value_size read_percentage))
            b).1 in
        let (b', run) = run_operations-few n start few h in
        let ending =
          (λ b. on_session t rng (print t (results t rng b)) b)
          >> on_session t rng (print_stats t) in
        let operations =
          run_operations t rng (suc n) 0 (suc n) now key_size value_size read_percentage in
        rw none (ap (λ r. r.0) (bind-panic operations (λ _. ending) start run))
