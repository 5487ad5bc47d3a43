-- ===== src/Sstable/Builder.antt =====
-- src/sstable.rs: `SSTableWriter::new` and `SSTableBuilder`.
mod Tests
use justdbd.Common.{ℕ, ◌%◌, ◌^◌, Bool, List, [], ◌∷◌, Option, none, some, length, if◌then◌else◌}
use justdbd.Common.Float.{F64}
use justdbd.Common.Outcome.{Outcome, ok, err, panic, ◌>>=◌, ◌>>◌, and_then}
use justdbd.Bloom
use justdbd.Bloom.{Hashes}
use justdbd.Config.{CompressionType}
use justdbd.Entry.{key_le}
use justdbd.Entry.Record.{Entry}
use justdbd.Error.{Result}
use justdbd.MemTable.{Clock}
use justdbd.Sstable.Codec.{Codec}
use justdbd.Sstable.Writer.{SstableWriter, TableMeta, add_all, finish}

-- `sort_by` by key, which is stable
insert_by_key : Entry → List Entry → List Entry
insert_by_key e [] = e ∷ []
insert_by_key e (x ∷ xs) =
    let later = insert_by_key e xs in if key_le e.key x.key then e ∷ x ∷ xs else x ∷ later

sort_by_key : List Entry → List Entry
unfolding insert_by_key
sort_by_key [] = []
sort_by_key (e ∷ es) = insert_by_key e (sort_by_key es)

pub record SstableBuilder (f : F64) : Type 0 where
  pub compression : CompressionType
  pub compression_level : ℕ
  pub bloom_false_positive_rate : f.Carrier

module _ {f : F64} (codec : Codec) (hashes : Hashes) where
  -- `SSTableWriter::new`: what opening the file answers, and the reading of the clock, on which
  -- `unwrap` panics when it stands before the epoch
  unfoldable pub new : Result (Unit {0}) → Clock → ℕ → SstableBuilder f → Result SstableWriter
  new opened now expected_entries b = and_then opened λ _. elim now [
    | none ↦ panic
    | some micros ↦ ok (record {
      content = [];
      position = 0;
      current_block = [];
      current_block_entries = 0;
      index = [];
      bloom_filter = Bloom.new f expected_entries b.bloom_false_positive_rate;
      compression = b.compression;
      compression_level = b.compression_level;
      entry_count = 0;
      min_key = none;
      max_key = none;
      created_at = micros % 2 ^ 64;
    })
  ]

  -- the writer at the end is dropped, and its file is what stays
  pub build :
      Result (Unit {0}) → Clock → List Entry → SstableBuilder f → Result (TableMeta × List ℕ)
  unfolding new
  build opened now entries b = and_then (new opened now (length entries) b) λ w.
      let (r, w') = (do add_all codec hashes entries; finish codec) w in
      and_then r λ meta. ok (meta, w'.content)

  pub build_from_vec :
      Result (Unit {0}) → Clock → List Entry → SstableBuilder f → Result (TableMeta × List ℕ)
  unfolding build sort_by_key
  build_from_vec opened now entries b = build opened now (sort_by_key entries) b
