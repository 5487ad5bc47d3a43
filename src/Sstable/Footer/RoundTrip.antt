-- ===== src/Sstable/Footer/RoundTrip.antt =====
-- src/sstable.rs: a footer that is written has 64 bytes and is read back.
use justdbd.Common.{
  ℕ, ◌+◌, ◌^◌, ◌<◌, ◌≡◌, refl, ap, ◌∙◌, List, [], ◌∷◌, ◌++◌, append_assoc, arith, length,
  length-append, replicate,
}
use justdbd.Common.Bytes.{le_bytes}
use justdbd.Common.Outcome.{ok}
use justdbd.Config.{CompressionType, uncompressed, lz4, zstd}
use justdbd.Serialization.Reader.{read_u8, read_u32, read_u64}
use justdbd.Serialization.Reader.Consumes.{
  Consumes, Consumes-bind, Consumes-bind_last, Consumes-return, Consumes-new, read_u8-Consumes,
  read_u32-Consumes, read_u64-Consumes,
}
use justdbd.Serialization.Writer.{write_u8, write_u32, write_u64, finish}
use justdbd.Sstable.Footer.{
  SstableMeta, sstable_magic, sstable_version, footer_size, compression_type, serialize_counts,
  serialize_footer, write_footer, read_compression, check_format, footer_reader, load_metadata,
}

-- The numbers fit 64 bits.
pub record IsStorable (meta : SstableMeta) : Type 0 where
  pub entry_count_fits : meta.entry_count < 2 ^ 64
  pub data_size_fits : meta.data_size < 2 ^ 64
  pub index_size_fits : meta.index_size < 2 ^ 64
  pub bloom_offset_fits : meta.bloom_offset < 2 ^ 64
  pub bloom_size_fits : meta.bloom_size < 2 ^ 64
  pub created_at_fits : meta.created_at < 2 ^ 64

-- The layout of the format, and of the footer.
abbrev format_layout : List ℕ
format_layout = le_bytes 4 sstable_version ++ le_bytes 4 sstable_magic

layout : SstableMeta → List ℕ
layout meta =
    le_bytes 8 meta.entry_count
    ++ (le_bytes 8 meta.data_size
        ++ (le_bytes 8 meta.index_size
            ++ (le_bytes 8 meta.bloom_offset
                ++ (le_bytes 8 meta.bloom_size
                    ++ (le_bytes 8 meta.created_at
                        ++ (compression_type meta.compression ∷ [] ++ format_layout))))))

serialize_footer-layout : (meta : SstableMeta) → serialize_footer meta ≡ layout meta
unfolding serialize_footer serialize_counts layout write_u8 write_u32 write_u64 finish
serialize_footer-layout meta = simp append_assoc

length-layout : (meta : SstableMeta) → length (layout meta) ≡ 57
unfolding layout le_bytes
length-layout meta = refl

read_compression-Consumes :
    (c : CompressionType) → Consumes (read_compression (compression_type c)) [] c
unfolding read_compression compression_type
read_compression-Consumes uncompressed = Consumes-return uncompressed
read_compression-Consumes lz4 = Consumes-return lz4
read_compression-Consumes zstd = Consumes-return zstd

-- The version that is read is the one that is written.
abbrev pub versioned : SstableMeta → SstableMeta
versioned meta = record meta { version = sstable_version }

check_format-Consumes :
    (meta : SstableMeta)
    → Consumes (check_format sstable_magic (versioned meta)) [] (versioned meta)
unfolding check_format
check_format-Consumes meta = Consumes-return (versioned meta)

footer_reader-Consumes :
    (meta : SstableMeta) → IsStorable meta → Consumes footer_reader (layout meta) (versioned meta)
unfolding footer_reader layout
footer_reader-Consumes meta v =
    Consumes-bind read_u64 _ (le_bytes 8 meta.entry_count) _
      (read_u64-Consumes meta.entry_count v.entry_count_fits)
      (Consumes-bind read_u64 _ (le_bytes 8 meta.data_size) _
        (read_u64-Consumes meta.data_size v.data_size_fits)
        (Consumes-bind read_u64 _ (le_bytes 8 meta.index_size) _
          (read_u64-Consumes meta.index_size v.index_size_fits)
          (Consumes-bind read_u64 _ (le_bytes 8 meta.bloom_offset) _
            (read_u64-Consumes meta.bloom_offset v.bloom_offset_fits)
            (Consumes-bind read_u64 _ (le_bytes 8 meta.bloom_size) _
              (read_u64-Consumes meta.bloom_size v.bloom_size_fits)
              (Consumes-bind read_u64 _ (le_bytes 8 meta.created_at) _
                (read_u64-Consumes meta.created_at v.created_at_fits)
                (Consumes-bind read_u8 _ (compression_type meta.compression ∷ []) format_layout
                  (read_u8-Consumes (compression_type meta.compression))
                  (Consumes-bind (read_compression (compression_type meta.compression)) _ []
                    format_layout (read_compression-Consumes meta.compression)
                    (Consumes-bind read_u32 _ (le_bytes 4 sstable_version)
                      (le_bytes 4 sstable_magic) (read_u32-Consumes sstable_version (omega arith))
                      (Consumes-bind_last read_u32 _ (le_bytes 4 sstable_magic)
                        (read_u32-Consumes sstable_magic (omega arith))
                        (check_format-Consumes meta))))))))))

-- A footer whose numbers fit 64 bits is written without an error, has 64 bytes, and is read
-- back with the version of the format.
pub load_metadata-write_footer :
    (meta : SstableMeta)
    → IsStorable meta
    → (out : List ℕ) × (write_footer meta ≡ ok out)
      × (length out ≡ footer_size)
      × (load_metadata out ≡ ok (versioned meta))
unfolding load_metadata write_footer
load_metadata-write_footer meta v =
    let padding = replicate 7 0 in
    let size : length (layout meta ++ padding) ≡ 64 =
      length-append (layout meta) padding ∙ ap (λ n. n + 7) (length-layout meta) in
    (
      layout meta ++ padding,
      rw (serialize_footer-layout meta, length-layout meta),
      size,
      ap (λ r. r.0)
          (Consumes-new footer_reader (layout meta) padding (footer_reader-Consumes meta v)
            (omega (arith, size))),
    )
