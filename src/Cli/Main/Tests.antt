-- ===== src/Cli/Main/Tests.antt =====
-- src/bin/cli.rs: an example of a program that does not start.
use justdbd.Common.{◌≡◌, refl, [], ◌∷◌, some, false}
use justdbd.Common.Outcome.{err}
use justdbd.Cli.Benchmark.{Rng}
use justdbd.Cli.Main.{Options, get_command, World, main}
use justdbd.Cli.Main.Refusals.{main-refuses}
use justdbd.Cli.Session.{storage}
use justdbd.Error.{config}
use justdbd.Storage.Sample.{samples, SampleDisk}

-- The least number, every time.
abbrev least : Rng
least = record { State = Unit {0}; below = λ bound s. (0, s) }

abbrev world : World least
world = record { now = some 5; rounds = 0; inputs = []; random = tt }

abbrev options : Options
options = record { no_compression = false; memtable_size = 0; command = get_command (b'a' ∷ []) }

abbrev disk : SampleDisk
disk = record { room = 2; kept = [] }

no_memtable :
    main samples least 4 world options disk
    ≡ some (err (storage (config "memtable_size_threshold must be greater than 0")), [], disk)
no_memtable = main-refuses samples least 4 world options disk refl
