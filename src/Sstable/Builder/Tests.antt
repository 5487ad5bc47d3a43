-- ===== src/Sstable/Builder/Tests.antt =====
-- src/sstable.rs: examples of tables that are built.
use justdbd.Common.{◌≡◌, refl, [], ◌∷◌, none, some}
use justdbd.Common.Outcome.{ok, panic}
use justdbd.Common.Whole.{whole}
use justdbd.Config.{uncompressed}
use justdbd.Entry.{compare_keys}
use justdbd.Entry.Record
use justdbd.Entry.Record.{Entry}
use justdbd.Sstable.Sample.{plain, no_hashes}
use justdbd.Sstable.Builder.{SstableBuilder, build, build_from_vec, new, sort_by_key, insert_by_key}

abbrev a : Entry
a = Record.new (b'a' ∷ []) none 1 1

abbrev b : Entry
b = Record.new (b'b' ∷ []) none 1 2

abbrev builder : SstableBuilder whole
builder = record {
  compression = uncompressed;
  compression_level = 1;
  bloom_false_positive_rate = 1;
}

sorted : sort_by_key (b ∷ a ∷ []) ≡ a ∷ b ∷ []
unfolding sort_by_key insert_by_key compare_keys
sorted = refl

no_clock : build_from_vec plain no_hashes (ok tt) none (b ∷ a ∷ []) builder ≡ panic
unfolding build_from_vec build new
no_clock = refl

built :
    build_from_vec plain no_hashes (ok tt) (some 5) [] builder
    ≡ build plain no_hashes (ok tt) (some 5) [] builder
unfolding build_from_vec sort_by_key
built = refl
