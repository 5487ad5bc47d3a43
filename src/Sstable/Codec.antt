-- ===== src/Sstable/Codec.antt =====
-- What src/sstable.rs uses of other packages: the checksum of `crc32fast`, the compressors of
-- `lz4_flex` and `zstd`, and the file that `BufWriter<File>` writes. The feature `compression` is on,
-- as it is by default. An error of a compressor is the text that the source makes of it.
use justdbd.Common.{ℕ, String, List}
use justdbd.Common.Outcome.{Outcome}
use justdbd.Error.{Result}

pub record Codec : Type 0 where
  pub crc32 : List ℕ → ℕ
  pub lz4_compress : List ℕ → List ℕ
  pub lz4_decompress : List ℕ → Outcome String (List ℕ)
  pub zstd_compress : List ℕ → (level : ℕ) → Outcome String (List ℕ)
  pub zstd_decompress : List ℕ → (capacity : ℕ) → Outcome String (List ℕ)
  -- `write_all` of bytes behind the content of the file
  pub write_all : (bytes content : List ℕ) → Result (Unit {0}) × List ℕ
  -- `flush`, `into_inner` and `sync_all`
  pub sync_all : List ℕ → Result (Unit {0})
