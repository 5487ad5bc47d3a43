-- ===== src/Sstable/File/Blocks.antt =====
-- src/sstable.rs: a block that the writer flushes is found by the reader.
use justdbd.Common.{
  ℕ, ◌+◌, ◌%◌, ◌^◌, ◌<◌, ◌≡◌, ap, ◌∙◌, List, [], ◌∷◌, ◌++◌, arith, length, append_assoc,
  length-append,
}
use justdbd.Common.Bytes.{le_bytes, length-le_bytes}
use justdbd.Common.Outcome.{ok}
use justdbd.Sstable.Block.{block_data}
use justdbd.Sstable.Codec.{Codec}
use justdbd.Sstable.Index.{IndexEntry}
use justdbd.Sstable.Reader.{SstableReader, mapped, decompress, load_block}
use justdbd.Sstable.Reader.Frame.{frame, length-frame, load_block-frame}
use justdbd.Sstable.Writer.{SstableWriter, set_last_size, compress_block, flush_current_block}
use justdbd.Sstable.Writer.Runs.{
  IsAppending, framed, flush_current_block-framed, set_last_size-append,
}

-- The bytes of the open block, as they are compressed.
abbrev pub open_block : SstableWriter → List ℕ
open_block w = block_data w.current_block_entries w.current_block

-- A writer whose open block can be flushed: its entry is the last of the index, the position is the
-- length of the file, and what the block is compressed to is decompressed to it again.
pub record IsFlushable (codec : Codec) (w : SstableWriter) (earlier : List IndexEntry)
    (e : IndexEntry) (compressed : List ℕ) : Type 0 where
  pub started : 0 < length w.current_block
  pub indexed : w.index ≡ earlier ++ e ∷ []
  pub at_end : e.offset ≡ w.position
  pub placed : w.position ≡ length w.content
  pub compresses : compress_block codec (open_block w) w ≡ ok compressed
  pub restores : decompress codec w.compression compressed ≡ ok (open_block w)
  pub sum_fits : codec.crc32 compressed < 2 ^ 32
  pub short : length w.content + (4 + length compressed) < 2 ^ 63

module _ (codec : Codec) (h : IsAppending codec) where
  -- If every write to the file succeeds, and what the compressor makes of the open block is
  -- decompressed to it again, then the flush of the block succeeds and leaves a position that is the
  -- length of the file. The last entry of the index then has the size of the block in the file, and
  -- through it every reader of the file, mapped, with the same compression and whatever follows, reads
  -- the bytes of the block.
  pub load_block-flush_current_block :
      (w : SstableWriter) (earlier : List IndexEntry) (e : IndexEntry) (compressed after : List ℕ)
      (r : SstableReader)
      → IsFlushable codec w earlier e compressed
      → r.source ≡ mapped ((w.content ++ frame codec compressed) ++ after)
      → r.meta.compression ≡ w.compression
      → length ((w.content ++ frame codec compressed) ++ after) < 2 ^ 64
      → (w' : SstableWriter) × (last : IndexEntry) × (flush_current_block codec w ≡ (ok tt, w'))
        × (w'.content ≡ w.content ++ frame codec compressed)
        × (w'.position ≡ length w'.content)
        × (w'.index ≡ earlier ++ last ∷ [])
        × (load_block codec last r ≡ ok (open_block w))
  load_block-flush_current_block w earlier e compressed after r v file same total =
      let sum = le_bytes 4 (codec.crc32 compressed) in
      let size : length (frame codec compressed) ≡ 4 + length compressed =
        length-frame codec compressed in
      let four : length sum ≡ 4 = length-le_bytes 4 (codec.crc32 compressed) in
      let last = record e { size = (length compressed + 4) % 2 ^ 64 } in
      let w' = framed codec h compressed w in
      let whole = append_assoc w.content (frame codec compressed) after in
      (
        w',
        last,
        flush_current_block-framed codec h w compressed v.started v.compresses,
        append_assoc w.content sum compressed,
        omega (
          arith,
          four,
          v.placed,
          v.short,
          length-append (w.content ++ sum) compressed,
          length-append w.content sum,
        ),
        ap (set_last_size _) v.indexed ∙ set_last_size-append _ earlier e,
        load_block-frame codec compressed w.content after last r (file ∙ ap (λ l. mapped l) whole)
              (rw whole at total) (v.at_end ∙ v.placed) (omega (arith, size, v.short)) v.sum_fits
            ∙ ap (λ c. decompress codec c compressed) same
            ∙ v.restores,
      )
