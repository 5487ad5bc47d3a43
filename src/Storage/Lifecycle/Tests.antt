-- ===== src/Storage/Lifecycle/Tests.antt =====
-- src/storage.rs: examples of opening and closing.
use justdbd.Common.{ℕ, suc, zero, ◌≡◌, refl, ◌≢◌, List, [], ◌∷◌, Option, none, some, true, false}
use justdbd.Common.Outcome.{ok, err, panic}
use justdbd.Common.Whole.{whole}
use justdbd.Config
use justdbd.Config.{Config, validate}
use justdbd.Entry.Record
use justdbd.Entry.Record.{Entry}
use justdbd.Error.{closed, config}
use justdbd.MemTable
use justdbd.MemTable.{MemTable, Clock}
use justdbd.Storage.Compaction.{data_sizes}
use justdbd.NumberMap.{slot, set_slot}
use justdbd.Storage.Engine.{Engine}
use justdbd.Storage.Engine.Flush.{NeverPanics}
use justdbd.Storage.Engine.Writes.{write}
use justdbd.Storage.FileName.{FileName, format, parse_level_from_filename}
use justdbd.Storage.Lifecycle.{
  open_engine, load_sstables, load_files, sort_by_age, insert_by_age, start_background_compaction,
  close, stats, level_stats, entry_counts,
}
use justdbd.Storage.Lifecycle.Closing.{close-refuses}
use justdbd.Storage.Sample.{Sample, SampleDisk, samples, settings, holding, engine, create_in}

abbrev stored : Entry
stored = Record.new (b'a' ∷ []) none 1 1

-- A full disk: the flush of `close` fails, and its error is printed.
abbrev running : Engine whole samples
running = engine (holding stored) (holding stored ∷ []) [] 0

create_in-ne-panic :
    (n : ℕ) (name : FileName) (es : List Entry) (d : SampleDisk) → (create_in n name es d).0 ≢ panic
unfolding create_in
create_in-ne-panic zero name es d p = cc
create_in-ne-panic (suc n) name es d p = cc

samples-NeverPanics : NeverPanics samples
samples-NeverPanics c name es d = create_in-ne-panic d.room name es d

close-refuses_example :
    let (r, e') = close samples (some 5) running in
    (r ≡ ok tt)
    × (e'.is_closed ≡ true)
    × (e'.background_tasks ≡ 0)
    × (e'.immutable_memtables ≡ [])
    × ((clock : Clock) (key : List ℕ) (value : Option (List ℕ))
        → write clock key value e' ≡ (err closed, e'))
    × ((clock : Clock) → close samples clock e' ≡ (ok tt, e'))
close-refuses_example = close-refuses samples 5 running samples-NeverPanics refl

abbrev table_of : ℕ → ℕ → Sample
table_of level timestamp = record {
  name = record { level = level; timestamp = timestamp; sequence = 1 };
  content = stored ∷ [];
}

-- What the files of a directory make of the levels: the oldest table of a level stands first.
loaded :
    (load_sstables samples (record (running) {
      disk = record { room = 0; kept = table_of 0 8 ∷ table_of 1 3 ∷ table_of 0 7 ∷ [] };
    })).1.sstables
    ≡ (0, table_of 0 7 ∷ table_of 0 8 ∷ []) ∷ (1, table_of 1 3 ∷ []) ∷ []
unfolding load_sstables load_files sort_by_age insert_by_age set_slot slot format
    parse_level_from_filename
loaded = refl

abbrev empty : SampleDisk
empty = record { room = 2; kept = [] }

abbrev blank : MemTable
blank = record {
  entries = [];
  size = 0;
  count = 0;
  created_at = 5;
  sequence_counter = 0;
  max_size = settings.memtable_size_threshold;
  immutable = false;
}

opened :
    ((open_engine samples (some 5) (record settings { l0_sstable_size = 0 }) empty).0
      ≡ err (config "l0_sstable_size must be greater than 0"))
    × ((open_engine samples (some 5) settings empty).0
        ≡ ok (record (engine blank [] [] 2) { sequence_counter = 1 }))
unfolding open_engine load_sstables load_files start_background_compaction validate Config.new
    MemTable.new
opened = (refl, refl)

counted :
    (stats samples
      (engine (holding stored) [] ((0, table_of 0 7 ∷ table_of 0 8 ∷ []) ∷ []) 0)).sstable_stats
    ≡ (0, record { table_count = 2; total_size = 2; total_entries = 2 }) ∷ []
unfolding stats level_stats entry_counts data_sizes
counted = refl
