-- ===== src/Sstable/Reader/Tests.antt =====
-- src/sstable.rs: examples of reads through the cache.
use justdbd.Common.{ℕ, suc, zero, ◌≡◌, refl, sym, ap, ◌∙◌, List, [], ◌∷◌, none}
use mathlib.Core.Option.{some-injective}
use justdbd.Common.Outcome.{ok, err, panic}
use justdbd.Config.{lz4}
use justdbd.Error.{decompression}
use justdbd.NumberMap.{NumberMap, slot}
use justdbd.Sstable.Footer.{SstableMeta}
use justdbd.Sstable.Index.{IndexEntry, find_block_for_key}
use justdbd.Sstable.Reader.{
  SstableReader, mapped, reopened, range, range_blocks, get, open_reader, file_size, load_metadata,
}
use justdbd.Sstable.Reader.Cache.{HasPlaces, IsCoherent, with_cache, get_uncached, get-uncached}
use justdbd.Sstable.Sample.{plain, no_hashes, first_place}

abbrev any_meta : SstableMeta
any_meta = record {
  entry_count = 0;
  data_size = 0;
  index_size = 0;
  bloom_offset = 0;
  bloom_size = 0;
  compression = lz4;
  created_at = 0;
  version = 1;
}

-- A frame with a checksum of four and an empty block of four bytes.
abbrev place : IndexEntry
place = record (first_place) { size = 8 }

abbrev reading : SstableReader
reading = record {
  source = mapped (4 ∷ 0 ∷ 0 ∷ 0 ∷ 0 ∷ 0 ∷ 0 ∷ 0 ∷ []);
  meta = any_meta;
  min_key = first_place.key;
  max_key = first_place.key;
  index = place ∷ [];
  bloom_filter = none;
  block_cache = [];
}

reading-HasPlaces : HasPlaces reading.index
reading-HasPlaces zero zero e e' p q same = ap (λ x. x.size) (some-injective _ _ (sym p ∙ q))
reading-HasPlaces zero (suc j) e e' p q same = cc
reading-HasPlaces (suc i) j e e' p q same = cc

reading-IsCoherent : IsCoherent plain reading []
unfolding slot
reading-IsCoherent i e block at hit = cc

get-uncached_example :
    (cache : NumberMap (List ℕ)) × (get plain no_hashes (b'b' ∷ []) reading
      ≡ (get_uncached plain reading no_hashes (b'b' ∷ []), with_cache plain reading cache))
    × IsCoherent plain reading cache
get-uncached_example =
    get-uncached plain reading no_hashes (b'b' ∷ []) reading-HasPlaces reading-IsCoherent

-- The loop of a range runs to the length of its end, past an index that has no entry.
range_past_index : (range plain (b'a' ∷ []) (b'b' ∷ []) (record (reading) { index = [] })).0 ≡ panic
unfolding range range_blocks find_block_for_key
range_past_index = refl

-- A file that cannot be measured is not opened.
unmeasured :
    open_reader (ok (reopened (err (decompression "no length")) (λ offset size. panic)))
    ≡ err (decompression "no length")
unfolding open_reader load_metadata file_size
unmeasured = refl
