-- ===== src/Sstable/Reader/Iterator/Tests.antt =====
-- src/sstable.rs: an example of an iterator over two blocks, the second of which is cut off.
use justdbd.Common.{
  ℕ, ◌≡◌, refl, sym, ◌∙◌, [], ◌∷◌, ◌++◌, none, some, get_elem?, replicate, All-get_elem?,
}
use justdbd.Common.Outcome.{err}
use justdbd.Config.{uncompressed}
use justdbd.Error.{corruption}
use justdbd.NumberMap.{slot}
use justdbd.Sstable.Index.{IndexEntry}
use justdbd.Sstable.Reader.{SstableReader, mapped, load_block}
use justdbd.Sstable.Reader.Cache.{HasPlaces, IsCoherent}
use justdbd.Sstable.Reader.Iterator.{iter, next}
use justdbd.Sstable.Reader.Iterator.Blocks.{Yields, all_entries, iter-Yields}
use justdbd.Sstable.Sample.{plain}

abbrev first : IndexEntry
first = record { key = b'a' ∷ []; offset = 0; size = 30 }

abbrev second : IndexEntry
second = record { key = b'b' ∷ []; offset = 30; size = 30 }

-- The checksum, the number of entries, and a deletion marker of the key `a`.
abbrev reading : SstableReader
reading = record {
  source = mapped (
      26 ∷ 0 ∷ 0 ∷ 0 ∷ 1 ∷ 0 ∷ 0 ∷ 0 ∷ 1 ∷ 0 ∷ 0 ∷ 0 ∷ b'a' ∷ 0 ∷ 7 ∷ replicate 7 0
      ++ 9 ∷ replicate 7 0);
  meta = record {
    entry_count = 2;
    data_size = 30;
    index_size = 0;
    bloom_offset = 0;
    bloom_size = 0;
    compression = uncompressed;
    created_at = 0;
    version = 1;
  };
  min_key = first.key;
  max_key = second.key;
  index = first ∷ second ∷ [];
  bloom_filter = none;
  block_cache = [];
}

sizes : (i : ℕ) (e : IndexEntry) → get_elem? reading.index i ≡ some e → e.size ≡ 30
sizes i e p = All-get_elem? (λ (x : IndexEntry). x.size ≡ 30) i reading.index (refl, (refl, tt)) p

reading-HasPlaces : HasPlaces reading.index
reading-HasPlaces i j e e' p q same = sizes i e p ∙ sym (sizes j e' q)

reading-IsCoherent : IsCoherent plain reading []
unfolding slot
reading-IsCoherent i e block there hit = cc

iter-Yields_example :
    Yields plain
      (next plain (iter reading))
      (all_entries plain reading reading.index).0
      (all_entries plain reading reading.index).1
iter-Yields_example = iter-Yields plain reading reading-HasPlaces reading-IsCoherent

-- A file that ends before its first block.
cut_off :
    all_entries plain (record (reading) { source = mapped [] }) reading.index
    ≡ ([], err (corruption "read beyond file bounds"))
unfolding all_entries load_block
cut_off = refl
