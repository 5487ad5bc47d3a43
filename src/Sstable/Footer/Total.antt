-- ===== src/Sstable/Footer/Total.antt =====
-- src/sstable.rs: what `load_metadata` accepts, and that no footer makes it panic.
use justdbd.Common.{ℕ, ◌≡◌, ◌≢◌, subst, ◌^◌, ◌<◌, List, not, arith, ◌==◌, All, length}
use justdbd.Common.Bytes.{Byte}
use justdbd.Common.Outcome.{ok, panic}
use justdbd.Config.{CompressionType, uncompressed, lz4, zstd}
use justdbd.Serialization.Reader.{new, read_u8, read_u32, read_u64}
use justdbd.Serialization.Reader.Safe.{
  Ends, Safe, Safe-bind, Safe-return, Safe-if, Safe-fail, Safe-new-ne-panic,
}
use justdbd.Serialization.Reader.Total.{read_u8-Safe, read_u32-Safe, read_u64-Safe}
use justdbd.Sstable.Footer.{
  SstableMeta, sstable_magic, sstable_version, read_compression, check_format, footer_reader,
  load_metadata,
}

abbrev AnyCompression : CompressionType → Type 0
AnyCompression c = Unit

-- The version is the one that the reader supports.
abbrev IsCurrent : SstableMeta → Type 0
IsCurrent meta = meta.version ≡ sstable_version

read_compression-Safe : (byte : ℕ) → Safe AnyCompression (read_compression byte)
unfolding read_compression
read_compression-Safe byte =
    Safe-if (byte == 0) _ _ (λ _. Safe-return uncompressed tt)
      λ _.
        Safe-if (byte == 1) _ _ (λ _. Safe-return lz4 tt)
          λ _. Safe-if (byte == 2) _ _ (λ _. Safe-return zstd tt) λ _. Safe-fail _

check_format-Safe : (magic : ℕ) (meta : SstableMeta) → Safe IsCurrent (check_format magic meta)
unfolding check_format
check_format-Safe magic meta =
    Safe-if (not (magic == sstable_magic)) _ _ (λ _. Safe-fail _)
      λ _.
        Safe-if (not (meta.version == sstable_version)) _ _ (λ _. Safe-fail _)
          λ h. Safe-return meta (ground arith)

footer_reader-Safe : Safe IsCurrent footer_reader
unfolding footer_reader
footer_reader-Safe = Safe-bind read_u64 _ read_u64-Safe λ entry_count _.
    Safe-bind read_u64 _ read_u64-Safe λ data_size _.
      Safe-bind read_u64 _ read_u64-Safe λ index_size _.
        Safe-bind read_u64 _ read_u64-Safe λ bloom_offset _.
          Safe-bind read_u64 _ read_u64-Safe λ bloom_size _.
            Safe-bind read_u64 _ read_u64-Safe λ created_at _.
              Safe-bind read_u8 _ read_u8-Safe λ compression_byte _.
                Safe-bind (read_compression compression_byte) _
                  (read_compression-Safe compression_byte)
                  λ compression _. Safe-bind read_u32 _ read_u32-Safe λ version _.
                    Safe-bind read_u32 _ read_u32-Safe λ magic _. check_format-Safe magic _

module _ (footer_data : List ℕ) (bytes : All Byte footer_data)
    (small : length footer_data < 2 ^ 63) where
  accepted : {meta : SstableMeta} → load_metadata footer_data ≡ ok meta → IsCurrent meta
  unfolding load_metadata
  accepted h = subst (Ends IsCurrent) h (
      footer_reader-Safe.ends (new footer_data)
        (record { inside = omega arith; small = small; bytes = bytes }))

-- No sequence of fewer than 2 ^ 63 bytes makes `load_metadata` panic, and what it accepts has the
-- supported version.
pub load_metadata-ne-panic :
    (footer_data : List ℕ)
    → All Byte footer_data
    → length footer_data < 2 ^ 63
    → (load_metadata footer_data ≢ panic)
      × ((meta : SstableMeta)
          → load_metadata footer_data ≡ ok meta
          → meta.version ≡ sstable_version)
unfolding load_metadata
load_metadata-ne-panic footer_data h small = (
  Safe-new-ne-panic footer_reader footer_reader-Safe footer_data h small,
  λ meta e. accepted footer_data h small e,
)
