-- ===== src/Cli/Main/Refusals.antt =====
-- src/bin/cli.rs: a size of the memtable that the engine does not open with.
use justdbd.Common.{ℕ, ◌*◌, ◌%◌, ◌^◌, ◌≡◌, refl, true, [], some, ◌==◌, arith, if-true}
use justdbd.Common.Float.{F64}
use justdbd.Common.Outcome.{err}
use justdbd.Cli.Benchmark.{Rng}
use justdbd.Cli.Main.{Options, World, config_of, main}
use justdbd.Cli.Session.{storage}
use justdbd.Config.{validate, with_memtable_size, with_compression}
use justdbd.Error.{config}
use justdbd.Storage.Lifecycle.Opening.{open_engine-refused}
use justdbd.Storage.Tables.{Tables}

module _ {f : F64} (t : Tables f) (rng : Rng) where
  -- With a memtable of a multiple of 2 ^ 44 MiB, zero among them, the number of bytes wraps to zero:
  -- whatever the command, the program ends with the error of the configuration, prints nothing, and
  -- leaves the files as they were.
  pub main-refuses :
      (cpus : ℕ) (w : World rng) (options : Options) (disk : t.Disk)
      → options.memtable_size % 2 ^ 44 ≡ 0
      → main t rng cpus w options disk
        ≡ some (err (storage (config "memtable_size_threshold must be greater than 0")), [], disk)
  unfolding main config_of validate with_memtable_size with_compression
  main-refuses cpus w options disk h =
      let wrapped : (options.memtable_size * 1024 % 2 ^ 64 * 1024 % 2 ^ 64 == 0) ≡ true =
        ground (arith, h) in
      let refused : validate (config_of {f = f} cpus options)
          ≡ err "memtable_size_threshold must be greater than 0" =
        if-true _ _ wrapped in
      let opened = open_engine-refused t w.now (config_of cpus options) disk _ refused in
      rw (main, opened) (rw opened refl)
