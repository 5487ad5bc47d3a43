-- ===== src/Sstable/Sample.antt =====
-- Codecs, hashes and a writer for the examples. The file takes every write.
use justdbd.Common.{◌%◌, [], ◌∷◌, ◌++◌, some, length}
use justdbd.Common.Outcome.{ok}
use justdbd.Bloom.{Hashes, BloomFilter}
use justdbd.Config.{uncompressed}
use justdbd.Sstable.Codec.{Codec}
use justdbd.Sstable.Index.{IndexEntry}
use justdbd.Sstable.Writer.{SstableWriter}

abbrev pub plain : Codec
plain = record {
  crc32 = λ bytes. length bytes % 256;
  lz4_compress = λ bytes. bytes;
  lz4_decompress = λ bytes. ok bytes;
  zstd_compress = λ bytes level. ok bytes;
  zstd_decompress = λ bytes capacity. ok bytes;
  write_all = λ bytes content. (ok tt, content ++ bytes);
  sync_all = λ content. ok tt;
}

abbrev pub no_hashes : Hashes
no_hashes = record { default_bytes = λ bytes. 0; default_usize = λ n. 0; blake3 = λ bytes. [] }

abbrev pub eight_bits : BloomFilter
eight_bits = record { bits = 0 ∷ []; bit_count = 8; hash_count = 1; element_count = 0 }

abbrev pub first_place : IndexEntry
first_place = record { key = b'a' ∷ []; offset = 0; size = 0 }

-- A writer with a block of two bytes.
abbrev pub writer : SstableWriter
writer = record {
  content = [];
  position = 0;
  current_block = 7 ∷ 8 ∷ [];
  current_block_entries = 1;
  index = first_place ∷ [];
  bloom_filter = eight_bits;
  compression = uncompressed;
  compression_level = 1;
  entry_count = 1;
  min_key = some (b'a' ∷ []);
  max_key = some (b'a' ∷ []);
  created_at = 5;
}

-- The same with no block.
abbrev pub blank_writer : SstableWriter
blank_writer = record (writer) { current_block = []; current_block_entries = 0; index = [] }
