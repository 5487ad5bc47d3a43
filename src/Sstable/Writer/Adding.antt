-- ===== src/Sstable/Writer/Adding.antt =====
-- src/sstable.rs: a writer that has entries in its blocks, and the flush of the open block.
pub mod Entries
use justdbd.Common.{
  ℕ, ◌+◌, ◌%◌, ◌^◌, ◌<◌, ◌≡◌, refl, sym, ap, subst, ◌∙◌, false, ◌&&◌, List, [], ◌∷◌, ◌++◌,
  append_assoc, append-nil, Option, some, ltb, ◌==◌, arith, length, length-append, All, Bool-cases,
  inl, inr, if-true, if-false, if◌then◌else◌,
}
use justdbd.Common.Bytes.{le_bytes, length-le_bytes}
use justdbd.Common.Outcome.{ok, bind-ok, resume}
use justdbd.Bloom.{Hashes}
use justdbd.Bloom.Membership.{add-counts}
use justdbd.Config.{CompressionType}
use justdbd.Entry.Record.{Entry}
use justdbd.Sstable.Block.{entry_data, block_data}
use justdbd.Sstable.Block.Layout.{
  IsStorable, key_layout, value_layout, stamp_layout, layout, entry_data-layout,
}
use justdbd.Sstable.Block.RoundTrip.{layouts, block_of, layouts-append}
use justdbd.Sstable.Codec.{Codec}
use justdbd.Sstable.File.Placed.{concat, Placed, Placed-snoc, Reads}
use justdbd.Sstable.Index.{IndexEntry}
use justdbd.Sstable.Reader.{mapped, decompress}
use justdbd.Sstable.Reader.Frame.{frame, length-frame, load_block-frame}
use justdbd.Sstable.Writer.{
  SstableWriter, block_size, compress_block, flush_current_block, flush_if_full, append_entry,
  add_to_filter, note_keys, is_out_of_order, add, add_all, set_last_size,
}
use justdbd.Sstable.Writer.Runs.{
  IsAppending, framed, flush_current_block-framed, set_last_size-append,
}

-- The keys ascend, from above a greatest one.
unfoldable pub InOrder : Option (List ℕ) → List Entry → Type 0
InOrder greatest [] = Unit
InOrder greatest (e ∷ es) = (is_out_of_order e.key greatest ≡ false) × InOrder (some e.key) es

-- What is compressed is decompressed to what it was, and a checksum fits its four bytes.
pub record IsRestoring (codec : Codec) (c : CompressionType) : Type 0 where
  pub packed : SstableWriter → List ℕ → List ℕ
  pub compresses :
      (w : SstableWriter) (bytes : List ℕ)
      → w.compression ≡ c
      → compress_block codec bytes w ≡ ok (packed w bytes)
  pub restores :
      (w : SstableWriter) (bytes : List ℕ)
      → w.compression ≡ c
      → decompress codec c (packed w bytes) ≡ ok bytes
  pub sums : (bytes : List ℕ) → codec.crc32 bytes < 2 ^ 32

-- The entry of the index for the open block, if it has an entry.
abbrev pub pending : List Entry → ℕ → List IndexEntry
pending [] position = []
pending (e ∷ es) position = record { key = e.key; offset = position; size = 0 } ∷ []

module _ (codec : Codec) (c : CompressionType) (h : IsAppending codec)
    (v : IsRestoring codec c) where
  -- The parts have become blocks of the file, and the open block has the other entries.
  pub record Holds (w : SstableWriter) (parts : List (List Entry)) (open_part : List Entry)
      : Type 0 where
    pub places : List IndexEntry
    pub same : w.compression ≡ c
    pub sized : 0 < w.bloom_filter.bit_count
    pub block : w.current_block ≡ layouts open_part
    pub count : w.current_block_entries ≡ length open_part
    pub index : w.index ≡ places ++ pending open_part w.position
    pub placed :
        length w.content < 2 ^ 63
        → (w.position ≡ length w.content)
          × Placed codec c w.content 0 places parts (length w.content)

  layouts-positive : (e : Entry) (es : List Entry) → 0 < length (layouts (e ∷ es))
  unfolding layouts layout
  layouts-positive e es =
      let fields = value_layout e.value ++ stamp_layout e in
      omega (
        arith,
        length-append (key_layout e.key ++ fields) (layouts es),
        length-append (key_layout e.key) fields,
        length-append (le_bytes 4 (length e.key)) e.key,
        length-le_bytes 4 (length e.key),
      )

  -- The place and the block of a part that is flushed.
  module _ (w : SstableWriter) (parts : List (List Entry)) (e : Entry) (es : List Entry)
      (d : Holds w parts (e ∷ es)) where
    abbrev bytes : List ℕ
    bytes = block_data w.current_block_entries w.current_block

    abbrev compressed : List ℕ
    compressed = v.packed w bytes

    abbrev place : IndexEntry
    place = record { key = e.key; offset = w.position; size = (length compressed + 4) % 2 ^ 64 }

    place-Reads :
        length (w.content ++ frame codec compressed) < 2 ^ 63
        → w.position ≡ length w.content
        → Reads codec c (w.content ++ frame codec compressed) place (e ∷ es)
    place-Reads small at after r source same short =
        let whole = append_assoc w.content (frame codec compressed) after in
        let all : bytes ≡ block_of (e ∷ es) = rw (d.count, d.block) refl in
        let wide : length ((w.content ++ frame codec compressed) ++ after) < 2 ^ 64 =
          omega (arith, short) in
        load_block-frame codec compressed w.content after place r
          (source ∙ ap (λ l. mapped l) whole) (rw whole at wide) at
          (omega (
            arith,
            small,
            length-frame codec compressed,
            length-append w.content (frame codec compressed),
          ))
          (v.sums compressed)
        ∙ ap (λ k. decompress codec k compressed) same
        ∙ v.restores w bytes d.same
        ∙ ap (λ b. ok b) all

    place-Placed :
        length (w.content ++ frame codec compressed) < 2 ^ 63
        → w.position ≡ length w.content
        → Placed codec c w.content 0 d.places parts (length w.content)
        → Placed codec c
            (w.content ++ frame codec compressed)
            0
            (d.places ++ place ∷ [])
            (parts ++ (e ∷ es) ∷ [])
            (length (w.content ++ frame codec compressed))
    place-Placed small at old =
        let frame_length = length-frame codec compressed in
        let total = length-append w.content (frame codec compressed) in
        let end : length w.content + place.size ≡ length (w.content ++ frame codec compressed) =
          omega (arith, small, frame_length, total) in
        subst
          (Placed codec c (w.content ++ frame codec compressed) 0 (d.places ++ place ∷ [])
            (parts ++ (e ∷ es) ∷ []))
          end
          (Placed-snoc codec c w.content (frame codec compressed) 0 d.places parts
            (length w.content) place (e ∷ es) old at (omega (arith, small, frame_length, total))
            (place-Reads small at) refl)

    abbrev flushed : SstableWriter
    flushed = framed codec h compressed w

    flushed-Placed :
        length flushed.content < 2 ^ 63
        → (flushed.position ≡ length flushed.content)
          × Placed codec c flushed.content 0
              (d.places ++ place ∷ [])
              (parts ++ (e ∷ es) ∷ [])
              (length flushed.content)
    flushed-Placed small =
        let sum = le_bytes 4 (codec.crc32 compressed) in
        let whole : flushed.content ≡ w.content ++ frame codec compressed =
          append_assoc w.content sum compressed in
        let short = rw whole at small in
        let (at, old) =
          d.placed (omega (arith, short, length-append w.content (frame codec compressed))) in
        (
          omega (
            arith,
            at,
            small,
            length-append (w.content ++ sum) compressed,
            length-append w.content sum,
          ),
          rw whole (place-Placed short at old),
        )

    pub flush-Holds :
        (w' : SstableWriter) × (flush_current_block codec w ≡ (ok tt, w'))
        × Holds w' (parts ++ (e ∷ es) ∷ []) []
        × (w'.max_key ≡ w.max_key)
    flush-Holds = (
      flushed,
      flush_current_block-framed codec h w compressed (rw d.block (layouts-positive e es))
          (v.compresses w bytes d.same),
      record {
        places = d.places ++ place ∷ [];
        same = d.same;
        sized = d.sized;
        block = unfold layouts in refl;
        count = refl;
        index =
            ap (set_last_size place.size) d.index
            ∙ set_last_size-append place.size d.places _
            ∙ sym (append-nil (d.places ++ place ∷ []));
        placed = flushed-Placed;
      },
      refl,
    )
