-- ===== src/Sstable/File/Get.antt =====
-- src/sstable.rs: `get` on a table finds what was added to it.
use justdbd.Common.{
  ℕ, ◌+◌, ◌^◌, ◌<◌, ◌≡◌, sym, ap, subst, ◌∙◌, List, [], ◌++◌, Option, none, some, arith, length,
  append-nil, length-append, All,
}
use justdbd.Common.Float.{F64}
use justdbd.Common.Outcome.{ok}
use justdbd.Bloom.{Hashes}
use justdbd.Entry.Record.{Entry}
use justdbd.Sstable.Block.Layout.{IsStorable}
use justdbd.Sstable.Index.{IndexEntry, find_block_for_key}
use justdbd.Sstable.Index.Search.{not_behind, find_block_for_key-last_block}
use justdbd.Sstable.File.Find.{
  Locates, last_of, last_block-Locates, last_block-last_of, Placed-IsAscending,
}
use justdbd.Sstable.Block.RoundTrip.{find, search_in_block-block_of, layouts, block_of}
use justdbd.Sstable.Builder.{SstableBuilder, new}
use justdbd.Sstable.Codec.{Codec}
use justdbd.Sstable.File.Placed.{concat, IsBlock, Placed-HasPlaces}
use justdbd.Sstable.Reader.{SstableReader, mapped, get}
use justdbd.Sstable.Reader.Cache.{
  HasPlaces, IsCoherent, get_uncached, get-uncached, get_uncached-no_block, get_uncached-block,
}
use justdbd.Sstable.Writer.{SstableWriter}
use justdbd.Sstable.Writer.Adding.{IsRestoring, Holds, InOrder}
use justdbd.Sstable.Writer.Runs.{IsAppending}
use justdbd.Sstable.File.Sorted.{AreSorted, InOrder-all}
use justdbd.Sstable.File.Table.{
  write_entries, parts-IsBlock, no_cache-IsCoherent, write_entries-Holds,
}

module _ {f : F64} (codec : Codec) (hashes : Hashes) (b : SstableBuilder f) (h : IsAppending codec)
    (v : IsRestoring codec b.compression) where
  -- What `get` finds, when the index names this block, or none.
  found-get :
      (key : List ℕ) (w : SstableWriter) (es : List Entry) (parts : List (List Entry))
      (places : List IndexEntry) (after : List ℕ) (r : SstableReader) (o : Option ℕ)
      → r.source ≡ mapped (w.content ++ after)
      → r.index ≡ places
      → r.meta.compression ≡ b.compression
      → r.bloom_filter ≡ none
      → length (w.content ++ after) < 2 ^ 63
      → find_block_for_key r.index key ≡ ok o
      → Locates codec b.compression w.content key places parts o
      → get_uncached codec r hashes key ≡ ok (find key (concat parts))
  unfolding Locates
  found-get key w es parts places after r none source there same unfiltered short named missing =
      get_uncached-no_block codec r hashes key unfiltered named ∙ ap (λ x. ok x) (sym missing)
  found-get key w es parts places after r (some i) source there same unfiltered short named
        (place, part, at, reads, block, alike) =
      get_uncached-block codec r hashes key i place (block_of part) unfiltered named (rw there at)
        (reads after r source same short)
      ∙ search_in_block-block_of part block.storable block.few block.small key
      ∙ ap (λ x. ok x) alike

  Holds-get :
      (w : SstableWriter) (es : List Entry) (parts : List (List Entry)) (after : List ℕ)
      (r : SstableReader) (key : List ℕ)
      → Holds codec b.compression h v w parts []
      → concat parts ≡ es
      → AreSorted es
      → All IsStorable es
      → length es < 2 ^ 32
      → length (layouts es) + 4 < 2 ^ 63
      → r.source ≡ mapped (w.content ++ after)
      → r.index ≡ w.index
      → r.meta.compression ≡ b.compression
      → r.bloom_filter ≡ none
      → r.block_cache ≡ []
      → length (w.content ++ after) < 2 ^ 63
      → (get codec hashes key r).0 ≡ ok (find key es)
  Holds-get w es parts after r key d all ordered storable few small source index same unfiltered
        cold short =
      let (at, placed) = d.placed (omega (arith, short, length-append w.content after)) in
      let there : r.index ≡ d.places = index ∙ d.index ∙ append-nil d.places in
      let blocks : All IsBlock parts =
        parts-IsBlock parts (rw all storable) (rw all few) (rw all small) in
      let sorted : AreSorted (concat parts) = rw all ordered in
      let places : HasPlaces r.index = rw there (
        Placed-HasPlaces codec b.compression w.content 0 d.places parts (length w.content)
          placed) in
      let coherent : IsCoherent codec r r.block_cache =
        subst (IsCoherent codec r) (sym cold) (no_cache-IsCoherent codec r) in
      let named : find_block_for_key r.index key ≡ ok (last_of (not_behind key d.places)) =
        ap (λ l. find_block_for_key l key) there
        ∙ find_block_for_key-last_block d.places key (
            Placed-IsAscending codec b.compression w.content 0 d.places parts (length w.content)
              placed sorted)
        ∙ ap (λ x. ok x) (last_block-last_of key d.places) in
      let (_, run, _) = get-uncached codec r hashes key places coherent in
      ap (λ x. x.0) run
      ∙ found-get key w es parts d.places after r (last_of (not_behind key d.places)) source there
          same unfiltered short named
          (last_block-Locates codec b.compression w.content key 0 d.places parts (length w.content)
            placed blocks sorted)
      ∙ ap (λ l. ok (find key l)) all

  -- If every write to the file succeeds, what the compressor makes of a block is decompressed to it
  -- again, and the checksums fit 32 bits, then a new writer takes any entries with ascending keys that
  -- fit the format, fewer than 2 ^ 32 of them with less than 2 ^ 63 - 4 bytes, and their last block is
  -- flushed. A reader without cached blocks and without a filter that maps the file that this leaves,
  -- shorter than 2 ^ 63 bytes with whatever follows, with the writer's index and the same compression,
  -- then finds by `get` under any key the entry that was added under it, with its value, time and
  -- sequence number, and finds nothing under a key that was not added.
  pub write_entries-get :
      (micros expected : ℕ) (w : SstableWriter) (es : List Entry) (after : List ℕ)
      (r : SstableReader) (key : List ℕ)
      → new codec hashes (ok tt) (some micros) expected b ≡ ok w
      → InOrder none es
      → All IsStorable es
      → length es < 2 ^ 32
      → length (layouts es) + 4 < 2 ^ 63
      → r.source ≡ mapped ((write_entries codec hashes es w).1.content ++ after)
      → r.index ≡ (write_entries codec hashes es w).1.index
      → r.meta.compression ≡ b.compression
      → r.bloom_filter ≡ none
      → r.block_cache ≡ []
      → length ((write_entries codec hashes es w).1.content ++ after) < 2 ^ 63
      → ((write_entries codec hashes es w).0 ≡ ok tt)
        × ((get codec hashes key r).0 ≡ ok (find key es))
  write_entries-get micros expected w es after r key made ordered storable few small source index
        same unfiltered cold short =
      let (w2, parts, run, holds, all) =
        write_entries-Holds codec hashes b h v micros expected w es made ordered storable few in
      let end : (write_entries codec hashes es w).1 ≡ w2 = ap (λ x. x.1) run in
      (
        ap (λ x. x.0) run,
        Holds-get w2 es parts after r key holds all (InOrder-all es ordered) storable few small
            (source ∙ ap (λ (x : SstableWriter). mapped (x.content ++ after)) end)
            (index ∙ ap (λ (x : SstableWriter). x.index) end) same unfiltered cold
            (subst (λ (x : SstableWriter). length (x.content ++ after) < 2 ^ 63) end short),
      )
