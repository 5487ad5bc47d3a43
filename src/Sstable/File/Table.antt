-- ===== src/Sstable/File/Table.antt =====
-- src/sstable.rs: the entries that are read from a table are those that were added to it.
use justdbd.Common.{
  ℕ, ◌+◌, ◌^◌, ◌<◌, ◌≡◌, refl, sym, ap, subst, ◌∙◌, List, [], ◌∷◌, ◌++◌, none, some, arith, length,
  append-nil, length-append, All,
}
use justdbd.Common.Bytes.{le_bytes}
use justdbd.Common.Float.{F64}
use justdbd.Common.Outcome.{ok, bind-ok, ok-injective, ◌>>◌}
use justdbd.Bloom.{Hashes}
use justdbd.Bloom.Membership.{new-IsBlank}
use justdbd.Entry.Record.{Entry}
use justdbd.Serialization.Writer
use justdbd.Serialization.Writer.{write_u32}
use justdbd.NumberMap.{slot}
use justdbd.Sstable.Block.{block_data}
use justdbd.Sstable.Block.Layout.{IsStorable}
use justdbd.Sstable.Block.RoundTrip.{layouts, layouts-append, block_of}
use justdbd.Sstable.Builder.{SstableBuilder, new}
use justdbd.Sstable.Codec.{Codec}
use justdbd.Sstable.File.Placed.{concat, IsBlock, Placed, Placed-HasPlaces, all_entries-Placed}
use justdbd.Sstable.Reader.{SstableReader, mapped}
use justdbd.Sstable.Reader.Cache.{HasPlaces, IsCoherent}
use justdbd.Sstable.Reader.Iterator.{iter, next}
use justdbd.Sstable.Reader.Iterator.Blocks.{Yields, all_entries, iter-Yields}
use justdbd.Sstable.Writer.{SstableWriter, WriterMethod, add_all, flush_current_block}
use justdbd.Sstable.Writer.Adding.{IsRestoring, Holds, InOrder}
use justdbd.Sstable.Writer.Adding.Entries.{Has, add_all-Has, flush-Has}
use justdbd.Sstable.Writer.Runs.{IsAppending}
use justdbd.Sstable.File.Sorted.{All-split}

length-block_of : (es : List Entry) → length (block_of es) ≡ 4 + length (layouts es)
unfolding block_data write_u32 Writer.finish le_bytes
length-block_of es = omega arith

-- The parts of entries that fit the format are blocks that fit it.
pub parts-IsBlock :
    (parts : List (List Entry))
    → All IsStorable (concat parts)
    → length (concat parts) < 2 ^ 32
    → length (layouts (concat parts)) + 4 < 2 ^ 63
    → All IsBlock parts
unfolding concat
parts-IsBlock [] storable few small = tt
parts-IsBlock (p ∷ ps) storable few small =
    let (first, rest) = All-split IsStorable p (concat ps) storable in
    let count = length-append p (concat ps) in
    let size =
      ap length (layouts-append p (concat ps)) ∙ length-append (layouts p) (layouts (concat ps)) in
    (
      record {
        storable = first;
        few = omega (arith, few, count);
        small = omega (arith, small, size, length-block_of p);
      },
      parts-IsBlock ps rest (omega (arith, few, count)) (omega (arith, small, size)),
    )

pub no_cache-IsCoherent : (codec : Codec) (r : SstableReader) → IsCoherent codec r []
unfolding slot
no_cache-IsCoherent codec r i e block there hit = cc

-- The entries are added, and the open block is flushed, as `build` and `finish` do.
abbrev pub write_entries : Codec → Hashes → List Entry → WriterMethod (Unit {0})
write_entries codec hashes es = do add_all codec hashes es; flush_current_block codec

module _ {f : F64} (codec : Codec) (hashes : Hashes) (b : SstableBuilder f) (h : IsAppending codec)
    (v : IsRestoring codec b.compression) where
  new-Has :
      (micros expected : ℕ) (w : SstableWriter)
      → new codec hashes (ok tt) (some micros) expected b ≡ ok w
      → Has codec b.compression h v w [] × (w.max_key ≡ none)
  unfolding new concat layouts Placed
  new-Has micros expected w made =
      subst (λ (x : SstableWriter). Has codec b.compression h v x [] × (x.max_key ≡ none))
        (ok-injective _ w made)
        (
          record {
            parts = [];
            open_part = [];
            holds = record {
              places = [];
              same = refl;
              sized = (new-IsBlank f expected b.bloom_false_positive_rate).sized;
              block = refl;
              count = refl;
              index = refl;
              placed = λ small. (refl, refl);
            };
            all = refl;
          },
          refl,
        )

  -- What a reader finds in a file with the parts.
  Holds-Yields :
      (w : SstableWriter) (es : List Entry) (parts : List (List Entry)) (after : List ℕ)
      (r : SstableReader)
      → Holds codec b.compression h v w parts []
      → concat parts ≡ es
      → All IsStorable es
      → length es < 2 ^ 32
      → length (layouts es) + 4 < 2 ^ 63
      → r.source ≡ mapped (w.content ++ after)
      → r.index ≡ w.index
      → r.meta.compression ≡ b.compression
      → r.block_cache ≡ []
      → length (w.content ++ after) < 2 ^ 63
      → Yields codec (next codec (iter r)) es (ok none)
  Holds-Yields w es parts after r d all storable few small source index same cold short =
      let (at, placed) = d.placed (omega (arith, short, length-append w.content after)) in
      let there : r.index ≡ d.places = index ∙ d.index ∙ append-nil d.places in
      let blocks : All IsBlock parts =
        parts-IsBlock parts (rw all storable) (rw all few) (rw all small) in
      let read : all_entries codec r r.index ≡ (es, ok none) =
        ap (all_entries codec r) there
        ∙ all_entries-Placed codec b.compression w.content after 0 d.places parts (length w.content)
            r placed blocks source same short
        ∙ ap (λ l. (l, ok none)) all in
      let places : HasPlaces r.index = rw there (
        Placed-HasPlaces codec b.compression w.content 0 d.places parts (length w.content)
          placed) in
      let coherent : IsCoherent codec r r.block_cache =
        subst (IsCoherent codec r) (sym cold) (no_cache-IsCoherent codec r) in
      subst (λ x. Yields codec (next codec (iter r)) x.0 x.1) read
        (iter-Yields codec r places coherent)

  -- A new writer takes the entries, and its blocks then have them.
  pub write_entries-Holds :
      (micros expected : ℕ) (w : SstableWriter) (es : List Entry)
      → new codec hashes (ok tt) (some micros) expected b ≡ ok w
      → InOrder none es
      → All IsStorable es
      → length es < 2 ^ 32
      → (w' : SstableWriter) × (parts : List (List Entry)) × (write_entries codec hashes es w
          ≡ (ok tt, w'))
        × Holds codec b.compression h v w' parts []
        × (concat parts ≡ es)
  write_entries-Holds micros expected w es made ordered storable few =
      let (blank, no_key) = new-Has micros expected w made in
      let (w1, run, had) =
        add_all-Has codec b.compression h v hashes es [] w blank (rw no_key ordered) storable
          (omega (arith, few)) in
      let (w2, run', (parts, holds, all), _) = flush-Has codec b.compression h v w1 es had in
      (
        w2,
        parts,
        bind-ok (add_all codec hashes es) (λ _. flush_current_block codec) w run ∙ run',
        holds,
        all,
      )

  -- If every write to the file succeeds, what the compressor makes of a block is decompressed to it
  -- again, and the checksums fit 32 bits, then a new writer takes any entries with ascending keys that
  -- fit the format, fewer than 2 ^ 32 of them with less than 2 ^ 63 - 4 bytes, and their last block is
  -- flushed. A reader without cached blocks that maps the file that this leaves, shorter than 2 ^ 63
  -- bytes with whatever follows, with the writer's index and the same compression, then iterates over
  -- exactly these entries, in their order, and comes to the end.
  pub write_entries-iter :
      (micros expected : ℕ) (w : SstableWriter) (es : List Entry) (after : List ℕ)
      (r : SstableReader)
      → new codec hashes (ok tt) (some micros) expected b ≡ ok w
      → InOrder none es
      → All IsStorable es
      → length es < 2 ^ 32
      → length (layouts es) + 4 < 2 ^ 63
      → r.source ≡ mapped ((write_entries codec hashes es w).1.content ++ after)
      → r.index ≡ (write_entries codec hashes es w).1.index
      → r.meta.compression ≡ b.compression
      → r.block_cache ≡ []
      → length ((write_entries codec hashes es w).1.content ++ after) < 2 ^ 63
      → ((write_entries codec hashes es w).0 ≡ ok tt)
        × Yields codec (next codec (iter r)) es (ok none)
  write_entries-iter micros expected w es after r made ordered storable few small source index same
        cold short =
      let (w2, parts, run, holds, all) =
        write_entries-Holds micros expected w es made ordered storable few in
      let end : (write_entries codec hashes es w).1 ≡ w2 = ap (λ x. x.1) run in
      (
        ap (λ x. x.0) run,
        Holds-Yields w2 es parts after r holds all storable few small
            (source ∙ ap (λ (x : SstableWriter). mapped (x.content ++ after)) end)
            (index ∙ ap (λ (x : SstableWriter). x.index) end) same cold
            (subst (λ (x : SstableWriter). length (x.content ++ after) < 2 ^ 63) end short),
      )
