-- ===== src/Storage/Lookup/Tests.antt =====
-- src/storage.rs: examples of reads, in memory and in tables.
use justdbd.Common.{ℕ, ◌≡◌, refl, List, [], ◌∷◌, none, some, arith, if◌then◌else◌}
use justdbd.Common.Outcome.{ok}
use justdbd.Common.Whole.{whole}
use justdbd.Config
use justdbd.Entry.{key_eq, compare_keys}
use justdbd.Entry.Record
use justdbd.Entry.Record.{Entry}
use justdbd.KeyMap.{lookup}
use justdbd.MemTable
use justdbd.MemTable.{MemTable}
use justdbd.NumberMap.{slot}
use justdbd.Storage.Engine.{Engine, put, delete}
use justdbd.Storage.Lookup.{
  get, get_in_table, get_in_tables, find_sstable_for_key, get_in_level, get_in_levels, get_entry,
}
use justdbd.Storage.Lookup.Writes.{IsReady, get-put_lem, get-delete_lem}
use justdbd.Storage.Sample.{Sample, samples, holding, engine, find_entry, first_key, last_key}

abbrev a : List ℕ
a = b'a' ∷ []

abbrev b : List ℕ
b = b'b' ∷ []

abbrev stored : Entry
stored = Record.new a (some b) 7 1

abbrev table_of : ℕ → Entry → Sample
table_of level e = record {
  name = record { level = level; timestamp = 1; sequence = 1 };
  content = e ∷ [];
}

-- The key `a` stands in the memtable, and a tombstone of it in a table.
abbrev running : Engine whole samples
running = engine (holding stored) [] ((0, table_of 0 (Record.new a none 3 0) ∷ []) ∷ []) 4

running-IsReady : IsReady samples running
running-IsReady = record { not_closed = refl; writable = refl; room = omega arith }

get-put_lem_example :
    ((put samples (some 5) b a running).0 ≡ ok tt)
    × ((q : List ℕ)
        → get samples q (put samples (some 5) b a running).1
          ≡ (if key_eq q b then ok (some a) else get samples q running))
get-put_lem_example = get-put_lem samples 5 b a running running-IsReady (omega arith) (omega arith)

get-delete_lem_example :
    ((delete samples (some 5) a running).0 ≡ ok tt)
    × ((q : List ℕ)
        → get samples q (delete samples (some 5) a running).1
          ≡ (if key_eq q a then ok none else get samples q running))
get-delete_lem_example = get-delete_lem samples 5 a running running-IsReady (omega arith)

-- The newest table of level 0 is read first, and a deeper level only behind it.
abbrev tables_only : Engine whole samples
tables_only =
    engine (holding (Record.new (b'z' ∷ []) (some []) 1 9)) []
      ((1, table_of 1 (Record.new b (some b) 2 0) ∷ [])
        ∷ (0, table_of 0 (Record.new a none 3 1) ∷ table_of 0 (Record.new a (some a) 4 2) ∷ [])
        ∷ [])
      0

newest_table : (get samples a tables_only ≡ ok (some a)) × (get samples b tables_only ≡ ok (some b))
unfolding Config.new MemTable.get lookup compare_keys get get_entry get_in_levels get_in_level
    get_in_tables get_in_table find_sstable_for_key find_entry first_key last_key slot
newest_table = (refl, refl)
