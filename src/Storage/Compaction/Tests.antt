-- ===== src/Storage/Compaction/Tests.antt =====
-- src/storage.rs: examples of a merge, of the division into tables and of a compaction.
use justdbd.Common.{ℕ, ◌≡◌, refl, List, [], ◌∷◌, some, true, All}
use justdbd.Common.Outcome.{ok}
use justdbd.Common.Whole.{whole}
use justdbd.Config
use justdbd.Config.{level_target_size}
use justdbd.Entry.{compare_keys}
use justdbd.Entry.Record
use justdbd.Entry.Record.{Entry}
use justdbd.KeyMap.{lookup, insert}
use justdbd.Storage.Compaction.{
  merge_sstables, create_sstable, create_sstables_for_level, target_size_of, remove_tables,
  replace_levels, compact_level, compact_l0_to_l1, data_sizes, level_needs_compaction,
  compact_levels, run_compaction, compaction_tick, fill_tables,
}
use justdbd.Storage.Compaction.Merge.{
  merge_sstables-newest, IsAscending, find, live, newest, gather,
}
use justdbd.Storage.Compaction.Split.{create_sstables_for_level-parts, create_all, concat, Fits}
use justdbd.NumberMap.{slot, set_slot}
use justdbd.Storage.Engine.{Engine, current_seconds, create_table, next_sequence}
use justdbd.Storage.Sample.{Sample, samples, holding, engine, create_in}

abbrev a : List ℕ
a = b'a' ∷ []

abbrev b : List ℕ
b = b'b' ∷ []

abbrev old : Entry
old = Record.new a (some a) 1 1

abbrev other : Entry
other = Record.new b (some b) 1 2

abbrev young : Entry
young = Record.new a (some b) 2 3

abbrev table_of : ℕ → List Entry → Sample
table_of level es = record {
  name = record { level = level; timestamp = 1; sequence = 1 };
  content = es;
}

abbrev upper : List Sample
upper = table_of 0 (old ∷ other ∷ []) ∷ []

abbrev lower : List Sample
lower = table_of 1 (young ∷ []) ∷ []

merge_sstables-newest_example :
    (merged : List Entry) × (merge_sstables samples upper lower ≡ ok merged)
    × IsAscending merged
    × ((q : List ℕ) → find q merged ≡ live (newest q (old ∷ other ∷ young ∷ [])))
unfolding gather
merge_sstables-newest_example =
    merge_sstables-newest samples upper lower {es = old ∷ other ∷ young ∷ []} refl

-- A target of one byte, and a disk with room for two tables.
abbrev small : Engine whole samples
small = record (engine (holding old) [] ((0, upper) ∷ (1, lower) ∷ []) 2) {
  config = record (Config.new 4) {
    l0_sstable_size = 1;
    l0_compaction_threshold = 1;
    max_levels = 3;
  };
}

create_sstables_for_level-parts_example :
    (parts : List (List Entry)) × (create_sstables_for_level samples
        (some 5)
        0
        (young ∷ other ∷ [])
        small
      ≡ create_all samples (some 5) 0 parts [] small)
    × (concat parts ≡ young ∷ other ∷ [])
    × All (Fits (target_size_of samples 0 small)) parts
create_sstables_for_level-parts_example =
    create_sstables_for_level-parts samples (some 5) 0 (young ∷ other ∷ []) small

-- Level 0 is merged into level 1, whose two tables have one entry each.
compaction :
    let (r, e) = compaction_tick samples (some 5000000) small in
    (r ≡ ok true)
    × (e.sstables
        ≡ (0, [])
          ∷ (
            1,
            record {
              name = record { level = 1; timestamp = 5; sequence = 9 };
              content = young ∷ [];
            }
                ∷ record {
                  name = record { level = 1; timestamp = 5; sequence = 10 };
                  content = other ∷ [];
                }
                ∷ [],
          )
          ∷ [])
unfolding compaction_tick run_compaction compact_levels level_needs_compaction data_sizes
    compact_l0_to_l1 compact_level replace_levels remove_tables create_sstable
    create_sstables_for_level fill_tables merge_sstables slot set_slot lookup insert compare_keys
    create_in level_target_size Config.new Record.is_deleted current_seconds create_table
    next_sequence
compaction = (refl, refl)
