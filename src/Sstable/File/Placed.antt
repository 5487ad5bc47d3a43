-- ===== src/Sstable/File/Placed.antt =====
-- src/sstable.rs: the blocks of a file, one behind the other, and the entries of the index that lead to
-- them.
use mathlib.Core.Option.{some-injective}
use justdbd.Common.{
  ℕ, zero, suc, ◌+◌, ◌^◌, ◌≤◌, ◌<◌, ◌≡◌, refl, sym, ap, ◌∙◌, List, [], ◌∷◌, ◌++◌, append_assoc,
  none, some, arith, length, get_elem?, All,
}
use justdbd.Common.Outcome.{ok}
use justdbd.Config.{CompressionType}
use justdbd.Entry.Record.{Entry}
use justdbd.Sstable.Block.Layout.{IsStorable}
use justdbd.Sstable.Block.RoundTrip.{block_of, parse_block-block_of}
use justdbd.Sstable.Codec.{Codec}
use justdbd.Sstable.Index.{IndexEntry}
use justdbd.Sstable.Reader.{SstableReader, mapped, load_block}
use justdbd.Sstable.Reader.Cache.{HasPlaces}
use justdbd.Sstable.Reader.Iterator.Blocks.{all_entries}

-- The lists one behind the other.
unfoldable pub concat : List (List Entry) → List Entry
concat [] = []
concat (part ∷ parts) = part ++ concat parts

-- The entries of a part fit the format, and so does its block.
pub record IsBlock (part : List Entry) : Type 0 where
  pub storable : All IsStorable part
  pub few : length part < 2 ^ 32
  pub small : length (block_of part) < 2 ^ 63

module _ (codec : Codec) (c : CompressionType) where
  -- Every reader of the file, mapped, with the same compression and whatever follows, finds the block
  -- of the entries through the entry of the index.
  abbrev pub Reads : List ℕ → IndexEntry → List Entry → Type 0
  Reads content place part =
      (after : List ℕ) (r : SstableReader)
      → r.source ≡ mapped (content ++ after)
      → r.meta.compression ≡ c
      → length (content ++ after) < 2 ^ 63
      → load_block codec place r ≡ ok (block_of part)

  -- The part has an entry, and the place has the key of the first.
  abbrev pub Begins : IndexEntry → List Entry → Type 0
  Begins place [] = ⊥
  Begins place (e ∷ es) = place.key ≡ e.key

  -- From a start to an end, the places lie one behind the other, none of them is empty, and each leads
  -- to its part.
  unfoldable pub Placed : List ℕ → ℕ → List IndexEntry → List (List Entry) → ℕ → Type 0
  Placed content start [] [] end = start ≡ end
  Placed content start [] (part ∷ parts) end = ⊥
  Placed content start (place ∷ places) [] end = ⊥
  Placed content start (place ∷ places) (part ∷ parts) end =
      (place.offset ≡ start)
      × (0 < place.size)
      × Reads content place part
      × Begins place part
      × Placed content (start + place.size) places parts end

  Reads-append :
      (content more : List ℕ) (place : IndexEntry) (part : List Entry)
      → Reads content place part
      → Reads (content ++ more) place part
  Reads-append content more place part h after r source same small =
      let whole = append_assoc content more after in
      h (more ++ after) r (source ∙ ap (λ l. mapped l) whole) same (rw whole at small)

  -- A block behind the others.
  pub Placed-snoc :
      (content more : List ℕ) (start : ℕ) (places : List IndexEntry) (parts : List (List Entry))
      (end : ℕ) (place : IndexEntry) (part : List Entry)
      → Placed content start places parts end
      → place.offset ≡ end
      → 0 < place.size
      → Reads (content ++ more) place part
      → Begins place part
      → Placed
          (content ++ more)
          start
          (places ++ place ∷ [])
          (parts ++ part ∷ [])
          (end + place.size)
  unfolding Placed
  Placed-snoc content more start [] [] end place part h at wide reads begins =
      (at ∙ sym h, wide, reads, begins, ap (λ n. n + place.size) h)
  Placed-snoc content more start [] (p ∷ ps) end place part h at wide reads begins = absurd h
  Placed-snoc content more start (q ∷ qs) [] end place part h at wide reads begins = absurd h
  Placed-snoc content more start (q ∷ qs) (p ∷ ps) end place part (here, full, old, first, rest) at
        wide reads begins =
      (
        here,
        full,
        Reads-append content more q p old,
        first,
        Placed-snoc content more (start + q.size) qs ps end place part rest at wide reads begins,
      )

  Placed-from :
      (content : List ℕ) (start : ℕ) (places : List IndexEntry) (parts : List (List Entry))
      (end i : ℕ) (place : IndexEntry)
      → Placed content start places parts end
      → get_elem? places i ≡ some place
      → start ≤ place.offset
  unfolding Placed
  Placed-from content start [] parts end i place h at = cc
  Placed-from content start (q ∷ qs) [] end i place h at = absurd h
  Placed-from content start (q ∷ qs) (p ∷ ps) end zero place h at =
      let same : q.offset ≡ place.offset = ap (λ x. x.offset) (some-injective _ _ at) in
      omega (arith, same, h.0)
  Placed-from content start (q ∷ qs) (p ∷ ps) end (suc i) place h at =
      omega (arith, Placed-from content (start + q.size) qs ps end i place h.4 at)

  -- Two entries of the index at one place are one.
  pub Placed-HasPlaces :
      (content : List ℕ) (start : ℕ) (places : List IndexEntry) (parts : List (List Entry))
      (end : ℕ)
      → Placed content start places parts end
      → HasPlaces places
  unfolding Placed
  Placed-HasPlaces content start [] parts end h i j e e' at at' same = cc
  Placed-HasPlaces content start (q ∷ qs) [] end h i j e e' at at' same = absurd h
  Placed-HasPlaces content start (q ∷ qs) (p ∷ ps) end h zero zero e e' at at' same =
      ap (λ x. x.size) (some-injective _ _ (sym at ∙ at'))
  Placed-HasPlaces content start (q ∷ qs) (p ∷ ps) end h zero (suc j) e e' at at' same =
      let first : q.offset ≡ e.offset = ap (λ x. x.offset) (some-injective _ _ at) in
      absurd (
        omega (
          arith,
          first,
          same,
          h.0,
          h.1,
          Placed-from content (start + q.size) qs ps end j e' h.4 at',
        ))
  Placed-HasPlaces content start (q ∷ qs) (p ∷ ps) end h (suc i) zero e e' at at' same =
      let first : q.offset ≡ e'.offset = ap (λ x. x.offset) (some-injective _ _ at') in
      absurd (
        omega
          (arith, first, same, h.0, h.1, Placed-from content (start + q.size) qs ps end i e h.4 at))
  Placed-HasPlaces content start (q ∷ qs) (p ∷ ps) end h (suc i) (suc j) e e' at at' same =
      Placed-HasPlaces content (start + q.size) qs ps end h.4 i j e e' at at' same

  -- The blocks of the file have the entries of the parts, in their order.
  pub all_entries-Placed :
      (content after : List ℕ) (start : ℕ) (places : List IndexEntry) (parts : List (List Entry))
      (end : ℕ) (r : SstableReader)
      → Placed content start places parts end
      → All IsBlock parts
      → r.source ≡ mapped (content ++ after)
      → r.meta.compression ≡ c
      → length (content ++ after) < 2 ^ 63
      → all_entries codec r places ≡ (concat parts, ok none)
  unfolding Placed all_entries concat
  all_entries-Placed content after start [] [] end r h fits source same small = refl
  all_entries-Placed content after start [] (p ∷ ps) end r h fits source same small = absurd h
  all_entries-Placed content after start (q ∷ qs) [] end r h fits source same small = absurd h
  all_entries-Placed content after start (q ∷ qs) (p ∷ ps) end r h fits source same small =
      let loaded = h.2 after r source same small in
      let parsed = parse_block-block_of p fits.0.storable fits.0.few fits.0.small in
      let rest =
        all_entries-Placed content after (start + q.size) qs ps end r h.4 fits.1 source same
          small in
      rw (all_entries, loaded, parsed, rest) refl
