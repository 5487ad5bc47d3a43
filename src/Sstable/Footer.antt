-- ===== src/Sstable/Footer.antt =====
-- src/sstable.rs: the last 64 bytes of a file, with its counts, places and format, written by
-- `write_footer` and read by `load_metadata`.
pub mod RoundTrip
pub mod Total
mod Tests
use justdbd.Common.{
  ℕ, zero, suc, ◌-◌, ◌^◌, Bool, not, List, ◌++◌, ltb, ◌==◌, length, replicate, if◌then◌else◌,
}
use justdbd.Common.Outcome.{ok, err, Outcome, return, fail, ◌>>=◌}
use justdbd.Config.{CompressionType, uncompressed, lz4, zstd}
use justdbd.Error.{Result, corruption}
use justdbd.Serialization.Reader
use justdbd.Serialization.Reader.{Reader, read_u8, read_u32, read_u64}
use justdbd.Serialization.Writer
use justdbd.Serialization.Writer.{Serializer, write_u8, write_u32, write_u64, finish}

abbrev pub sstable_magic : ℕ
sstable_magic = 0x53533454

abbrev pub sstable_version : ℕ
sstable_version = 1

abbrev pub footer_size : ℕ
footer_size = 64

-- `SStableMeta`, without the two keys, which the footer does not hold
pub record SstableMeta : Type 0 where
  pub entry_count : ℕ
  pub data_size : ℕ
  pub index_size : ℕ
  pub bloom_offset : ℕ
  pub bloom_size : ℕ
  pub compression : CompressionType
  pub created_at : ℕ
  pub version : ℕ

compression_type : CompressionType → ℕ
compression_type uncompressed = 0
compression_type lz4 = 1
compression_type zstd = 2

serialize_counts : SstableMeta → Serializer → Serializer
serialize_counts meta s = write_u64 meta.created_at (
    write_u64 meta.bloom_size (
      write_u64 meta.bloom_offset
        (write_u64 meta.index_size (write_u64 meta.data_size (write_u64 meta.entry_count s)))))

-- the writer has no version of its own: it writes the constant
serialize_footer : SstableMeta → List ℕ
unfolding serialize_counts compression_type
serialize_footer meta = finish (
    write_u32 sstable_magic (
      write_u32 sstable_version
        (write_u8 (compression_type meta.compression) (serialize_counts meta Writer.new))))

-- The bytes that are written to the file. The message of the error, which holds the two sizes, is
-- shortened.
pub write_footer : SstableMeta → Result (List ℕ)
unfolding serialize_footer
write_footer meta =
    let footer_data = serialize_footer meta in
    if ltb footer_size (length footer_data)
    then err (corruption "Footer too large")
    else ok (footer_data ++ replicate (footer_size - length footer_data) 0)

read_compression : ℕ → Reader CompressionType
read_compression byte =
    if byte == 0
    then return uncompressed
    else if byte == 1
    then return lz4
    else if byte == 2
    then return zstd
    else fail (corruption "invalid compression type")

-- the tests at the end of `load_metadata`
check_format : ℕ → SstableMeta → Reader SstableMeta
check_format magic meta =
    if not (magic == sstable_magic)
    then fail (corruption "invalid sstable magic number")
    else if not (meta.version == sstable_version)
    then fail (corruption "unsupported sstable version")
    else return meta

footer_reader : Reader SstableMeta
unfolding read_compression check_format
footer_reader = do
  entry_count ← read_u64
  data_size ← read_u64
  index_size ← read_u64
  bloom_offset ← read_u64
  bloom_size ← read_u64
  created_at ← read_u64
  compression_byte ← read_u8
  compression ← read_compression compression_byte
  version ← read_u32
  magic ← read_u32
  check_format magic (record {
    entry_count = entry_count;
    data_size = data_size;
    index_size = index_size;
    bloom_offset = bloom_offset;
    bloom_size = bloom_size;
    compression = compression;
    created_at = created_at;
    version = version;
  })

-- `load_metadata` on the footer that it has read from the end of the file
pub load_metadata : List ℕ → Result SstableMeta
unfolding footer_reader
load_metadata footer_data = (footer_reader (Reader.new footer_data)).0
