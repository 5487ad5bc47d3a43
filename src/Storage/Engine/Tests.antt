-- ===== src/Storage/Engine/Tests.antt =====
-- src/storage.rs: examples of a write and of a rotation whose flush fails.
use justdbd.Common.{ℕ, ◌≡◌, ◌↔◌, ◌⊎◌, refl, List, [], ◌∷◌, none, some, arith}
use justdbd.Common.Outcome.{ok, err}
use justdbd.Common.Whole.{whole}
use justdbd.Entry.Record
use justdbd.Entry.Record.{Entry}
use justdbd.Error.{StorageError, io, other}
use justdbd.MemTable
use justdbd.MemTable.{MemTable}
use justdbd.Storage.Engine.{Engine, rotate_memtable, flush_memtable}
use justdbd.Storage.Engine.Flush.{rotate_memtable-loses}
use justdbd.Storage.Engine.Limits.{IsAccepted, write_iff}
use justdbd.Storage.Engine.Writes.{Refusal, write}
use justdbd.Storage.Sample.{samples, holding, engine, create_in}

abbrev a : List ℕ
a = b'a' ∷ []

abbrev first : MemTable
first = holding (Record.new a (some a) 7 1)

abbrev second : MemTable
second = holding (Record.new a none 8 2)

abbrev third : MemTable
third = holding (Record.new a (some []) 9 3)

-- Both places of the immutable memtables are taken, and the disk is full.
abbrev crowded : Engine whole samples
crowded = engine third (first ∷ second ∷ []) [] 0

rotate_memtable-loses_example :
    let (r, e') = rotate_memtable samples (some 5) crowded in
    (r ≡ err (io other))
    × (e'.immutable_memtables ≡ second ∷ MemTable.make_immutable third ∷ [])
    × (e'.sstables ≡ [])
unfolding create_in
rotate_memtable-loses_example =
    rotate_memtable-loses samples 5 first (second ∷ []) crowded (io other) refl refl (λ p. cc) refl

-- An engine whose immutable memtable leaves room for another.
abbrev roomy : Engine whole samples
roomy = engine third (first ∷ []) [] 0

write_iff_example :
    (((write {t = samples} (some 5) a (some a) roomy).0 ≡ ok tt)
      ↔ IsAccepted {t = samples} roomy a (some a))
    × (((write {t = samples} (some 5) a (some a) roomy).0 ≡ ok tt)
        ⊎ ((error : StorageError) × Refusal {t = samples} roomy a (some a) error
            × (write {t = samples} (some 5) a (some a) roomy ≡ (err error, roomy))))
write_iff_example = write_iff {t = samples} 5 a (some a) roomy refl (omega arith)

-- With room on the disk the oldest memtable becomes a table of level 0.
rotation_flushes :
    ((rotate_memtable samples (some 5) (engine third (first ∷ second ∷ []) [] 1)).1
    ).immutable_memtables
    ≡ second ∷ MemTable.make_immutable third ∷ []
unfolding rotate_memtable flush_memtable create_in MemTable.with_sequence MemTable.make_immutable
rotation_flushes = refl
