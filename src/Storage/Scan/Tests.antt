-- ===== src/Storage/Scan/Tests.antt =====
-- src/storage.rs: examples of scans.
use justdbd.Common.{ℕ, ◌≡◌, refl, List, [], ◌∷◌, Option, none, some, arith, true, if◌then◌else◌}
use justdbd.Common.Outcome.{ok}
use justdbd.Common.Whole.{whole}
use justdbd.Config
use justdbd.Entry.{compare_keys}
use justdbd.Entry.Record
use justdbd.Entry.Record.{Entry}
use justdbd.KeyMap.{KeyMap, lookup, keep, insert}
use justdbd.KeyMap.Laws.{IsSorted}
use justdbd.MemTable
use justdbd.MemTable.{MemTable}
use justdbd.NumberMap.{slot}
use justdbd.Storage.Engine.{Engine}
use justdbd.Storage.Lookup.{get}
use justdbd.Storage.Scan.{scan, collect_levels, collect_level, collect_tables, keyed_entries}
use justdbd.Storage.Scan.Agreement.{scan-get, nonempty}
use justdbd.Storage.Scan.Memory.{IsAged, in_range}
use justdbd.Storage.Sample.{samples, holding, engine}

abbrev a : List ℕ
a = b'a' ∷ []

abbrev b : List ℕ
b = b'b' ∷ []

abbrev older : MemTable
older = record (holding (Record.new a (some a) 7 1)) { immutable = true }

abbrev newer : MemTable
newer = holding (Record.new b (some b) 8 2)

abbrev in_memory : Engine whole samples
in_memory = engine newer (older ∷ []) [] 0

holding-sequence :
    (q : List ℕ) (x e : Entry) → MemTable.get q (holding x) ≡ some e → e.sequence ≡ x.sequence
unfolding MemTable.get lookup
holding-sequence q x e h = ground arith

older-IsAged :
    (q : List ℕ) (o : Option Entry)
    → ((e : Entry) → o ≡ some e → e.sequence ≡ 2)
    → IsAged q o (older ∷ [])
unfolding IsAged MemTable.get
older-IsAged q none h = tt
older-IsAged q (some e) h = (
  λ x there. ground (arith, h e refl, holding-sequence q (Record.new a (some a) 7 1) x there),
  tt,
)

in_memory-IsAged : (q : List ℕ) → IsAged q none (newer ∷ older ∷ [])
unfolding IsAged
in_memory-IsAged q =
    older-IsAged q (MemTable.get q newer) (holding-sequence q (Record.new b (some b) 8 2))

scan-get_example :
    (results : KeyMap (List ℕ)) × (scan samples a (b'c' ∷ []) in_memory ≡ ok results)
    × IsSorted results
    × ((q : List ℕ)
        → (v : Option (List ℕ)) × (get samples q in_memory ≡ ok v)
          × (lookup q results ≡ (if in_range a (b'c' ∷ []) q then nonempty v else none)))
unfolding compare_keys
scan-get_example =
    scan-get samples a (b'c' ∷ []) in_memory refl refl refl ((tt, tt), ((tt, tt), tt))
      in_memory-IsAged

-- An entry of a table is taken unless a newer one is there.
with_table : ℕ → Engine whole samples
with_table n =
    engine newer []
      ((
        0,
        record {
          name = record { level = 0; timestamp = 1; sequence = 1 };
          content = Record.new a (some a) 3 1 ∷ Record.new b (some a) 3 n ∷ [];
        }
            ∷ [],
      )
        ∷ [])
      0

tables_scanned :
    (scan samples a (b'c' ∷ []) (with_table 1) ≡ ok ((a, a) ∷ (b, b) ∷ []))
    × (scan samples a (b'c' ∷ []) (with_table 5) ≡ ok ((a, a) ∷ (b, a) ∷ []))
unfolding Config.new scan MemTable.range_iter compare_keys with_table collect_levels collect_level
    collect_tables keyed_entries slot lookup keep insert
tables_scanned = (refl, refl)
