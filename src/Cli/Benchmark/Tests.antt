-- ===== src/Cli/Benchmark/Tests.antt =====
-- src/bin/cli.rs: examples of benchmarks.
use justdbd.Common.{◌≡◌, refl, [], ◌∷◌, some, arith}
use justdbd.Common.Outcome.{ok, panic}
use justdbd.Cli.Benchmark.{
  Rng, Bench, run_benchmark, run_operations, populate, operate, random_range, put_pair, get_value,
  count_hit, count_read, show_progress,
}
use justdbd.Cli.Benchmark.Counts.{run_benchmark-counts}
use justdbd.Cli.Benchmark.Few.{run_benchmark-few}
use justdbd.Cli.Generate.{generate_key, generate_value, extend_value, resize}
use justdbd.Cli.Session.{print, require, print_stats}
use justdbd.Entry.{compare_keys}
use justdbd.Entry.Record
use justdbd.KeyMap.{lookup, insert}
use justdbd.MemTable
use justdbd.Storage.Engine.{put, check_rotate_memtable}
use justdbd.Storage.FileName.{padded}
use justdbd.Storage.Sample.{samples, engine, holding}

-- The least number, every time.
abbrev least : Rng
least = record { State = Unit {0}; below = λ bound s. (0, s) }

abbrev start : Bench samples least
start = record {
  session = record {
    engine = engine (holding (Record.new (b'z' ∷ []) (some []) 1 9)) [] [] 4;
    printed = [];
  };
  random = tt;
  read_ops = 0;
  write_ops = 0;
  read_hits = 0;
}

first_write :
    (put samples (some 5) (generate_key 0 3) (generate_key 0 0) start.session.engine).0 ≡ ok tt
unfolding put check_rotate_memtable MemTable.put MemTable.write MemTable.should_flush generate_key
    resize padded generate_value extend_value lookup compare_keys insert
first_write = refl

run_benchmark-few_example : (run_benchmark samples least (some 5) 4 3 0 0 start).0 ≡ panic
run_benchmark-few_example =
    run_benchmark-few samples least (some 5) 3 0 0 4 start (omega arith) (omega arith) first_write

-- Ten operations, which all write.
abbrev finished : Bench samples least
finished = (run_benchmark samples least (some 5) 10 2 2 0 start).1

succeeds : run_benchmark samples least (some 5) 10 2 2 0 start ≡ (ok tt, finished)
unfolding run_benchmark run_operations populate operate random_range put_pair get_value count_hit
    count_read show_progress print require put check_rotate_memtable MemTable.put MemTable.write
    MemTable.should_flush generate_key resize padded generate_value extend_value lookup compare_keys
    insert print_stats
succeeds = refl

run_benchmark-counts_example : (finished.read_ops ≡ 10) × (finished.write_ops ≡ 0)
run_benchmark-counts_example =
    run_benchmark-counts samples least (some 5) 10 2 2 0 start finished refl refl (omega arith)
      succeeds
