-- ===== src/Sstable/Reader/Frame.antt =====
-- src/sstable.rs: a block is read back from its frame, the checksum and the compressed bytes.
use justdbd.Common.{
  ℕ, ◌+◌, ◌^◌, ◌<◌, ◌≡◌, refl, sym, ap, ◌∙◌, not, List, ◌++◌, arith, ltb, ◌==◌, length, take, drop,
  length-append, take-append, drop-append, if-false,
}
use justdbd.Common.Bytes.{le_bytes, from_le, length-le_bytes, from_le-le_bytes}
use justdbd.Common.Outcome.{and_then}
use justdbd.Config.{CompressionType}
use justdbd.Sstable.Codec.{Codec}
use justdbd.Sstable.Index.{IndexEntry}
use justdbd.Sstable.Reader.{SstableReader, mapped, read_at, decompress, decode_block, load_block}
use justdbd.Sstable.Reader.Layout.{read_at-slice}

module _ (codec : Codec) (compressed : List ℕ) where
  abbrev pub frame : List ℕ
  frame = le_bytes 4 (codec.crc32 compressed) ++ compressed

  pub length-frame : length frame ≡ 4 + length compressed
  length-frame =
      length-append (le_bytes 4 (codec.crc32 compressed)) compressed
      ∙ ap (λ n. n + length compressed) (length-le_bytes 4 (codec.crc32 compressed))

  -- The checksum of a frame is right.
  decode_block-frame :
      (c : CompressionType)
      → codec.crc32 compressed < 2 ^ 32
      → decode_block codec c frame ≡ decompress codec c compressed
  unfolding decode_block
  decode_block-frame c small =
      let sum = le_bytes 4 (codec.crc32 compressed) in
      let four : length sum ≡ 4 = length-le_bytes 4 (codec.crc32 compressed) in
      let stored : take 4 frame ≡ sum =
        ap (λ n. take n frame) (sym four) ∙ take-append sum compressed in
      let packed : drop 4 frame ≡ compressed =
        ap (λ n. drop n frame) (sym four) ∙ drop-append sum compressed in
      let read : from_le (take 4 frame) ≡ codec.crc32 compressed =
        ap from_le stored ∙ from_le-le_bytes 4 (codec.crc32 compressed) (omega (arith, small)) in
      if-false {b = ltb (length frame) 4} _ _ (ground (arith, length-frame))
      ∙ rw (read, packed)
          (if-false {b = not (codec.crc32 compressed == codec.crc32 compressed)} _ _ (ground arith))

  -- The block of an index entry whose place and size are those of a frame of the file.
  pub load_block-frame :
      (before after : List ℕ) (e : IndexEntry) (r : SstableReader)
      → r.source ≡ mapped (before ++ (frame ++ after))
      → length (before ++ (frame ++ after)) < 2 ^ 64
      → e.offset ≡ length before
      → e.size ≡ length frame
      → codec.crc32 compressed < 2 ^ 32
      → load_block codec e r ≡ decompress codec r.meta.compression compressed
  unfolding load_block
  load_block-frame before after e r file short at wide small =
      ap (λ s. and_then (read_at e.offset e.size s) (decode_block codec r.meta.compression)) file
      ∙ ap (λ l. and_then l (decode_block codec r.meta.compression))
          (read_at-slice (before ++ (frame ++ after)) before frame after e.offset e.size refl short
            at wide)
      ∙ decode_block-frame r.meta.compression small
