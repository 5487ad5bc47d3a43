-- ===== src/Sstable/Reader.antt =====
-- src/sstable.rs: `SSTableReader`. A file is mapped, and then it is its bytes, or it is opened anew for
-- each read, and then what it answers is a parameter. The line breaks in two messages are left out.
pub mod Cache
pub mod Layout
pub mod Frame
pub mod Iterator
mod Tests
use justdbd.Common.{
  ℕ, String, zero, suc, ◌+◌, ◌-◌, ◌*◌, ◌%◌, ◌^◌, Bool, true, false, not, List, [], ◌∷◌, ◌++◌,
  Option, none, some, ltb, leb, ◌==◌, length, take, drop, get_elem?, if◌then◌else◌,
}
use justdbd.Common.Bytes.{from_le}
use justdbd.Common.Outcome.{Outcome, ok, err, panic, Method, return, ◌>>=◌, ◌>>◌, and_then}
use justdbd.Bloom
use justdbd.Bloom.{Hashes, BloomFilter}
use justdbd.Config.{CompressionType, uncompressed, lz4, zstd}
use justdbd.Entry.{key_le}
use justdbd.Entry.Record.{Entry}
use justdbd.Error.{StorageError, Result, corruption, checksum_mismatch, decompression}
use justdbd.NumberMap.{NumberMap, slot, set_slot}
use justdbd.Sstable.Block.{search_in_block, get_entries_in_range_from_block}
use justdbd.Sstable.Codec.{Codec}
use justdbd.Sstable.Footer
use justdbd.Sstable.Footer.{SstableMeta, footer_size}
use justdbd.Sstable.Index
use justdbd.Sstable.Index.{IndexEntry, find_block_for_key}
use justdbd.Sstable.Writer.{block_size}

pub data Source : Type 0 where
  mapped : List ℕ → Source
  -- the length, and what a read of so many bytes from a place answers
  reopened : Result ℕ → ((offset size : ℕ) → Result (List ℕ)) → Source

pub record SstableReader : Type 0 where
  pub source : Source
  pub meta : SstableMeta
  pub min_key : List ℕ
  pub max_key : List ℕ
  pub index : List IndexEntry
  pub bloom_filter : Option BloomFilter
  pub block_cache : NumberMap (List ℕ)

abbrev pub ReaderMethod : Type 0 → Type 0
ReaderMethod A = Method SstableReader StorageError A

file_size : Source → Result ℕ
file_size (mapped bytes) = ok (length bytes)
file_size (reopened size read) = size

-- The sum wraps, and a slice whose start lies behind its end panics.
pub read_at : ℕ → ℕ → Source → Result (List ℕ)
read_at offset size (mapped bytes) =
    let end = (offset + size) % 2 ^ 64 in
    if ltb (length bytes) end
    then err (corruption "read beyond file bounds")
    else if ltb end offset
    then panic
    else ok (take (end - offset) (drop offset bytes))
read_at offset size (reopened n read) = read offset size

load_metadata : Source → Result SstableMeta
unfolding file_size read_at
load_metadata source = and_then (file_size source) λ size.
    if ltb size footer_size
    then err (corruption "File too small to contain footer")
    else and_then (read_at (size - footer_size) footer_size source) Footer.load_metadata

load_index : SstableMeta → Source → Result (List IndexEntry)
unfolding read_at
load_index meta source =
    and_then (read_at ((meta.bloom_offset + meta.bloom_size) % 2 ^ 64) meta.index_size source)
      Index.load_index

load_bloom_filter : SstableMeta → Source → Result (Option BloomFilter)
unfolding read_at
load_bloom_filter meta source =
    if meta.bloom_size == 0
    then ok none
    else and_then (read_at meta.bloom_offset meta.bloom_size source)
        λ bloom_data. and_then (Bloom.from_bytes bloom_data) λ filter. ok (some filter)

-- the key of the first entry of the index, and that of the last
pub first_index_key : List IndexEntry → List ℕ
first_index_key [] = []
first_index_key (e ∷ es) = e.key

pub last_index_key : List IndexEntry → List ℕ
last_index_key [] = []
last_index_key (e ∷ []) = e.key
last_index_key (e ∷ f ∷ es) = last_index_key (f ∷ es)

-- `open`, from what opening or mapping the file answers
pub open_reader : Result Source → Result SstableReader
unfolding load_metadata load_index load_bloom_filter first_index_key last_index_key
open_reader opened = and_then opened λ source. and_then (load_metadata source) λ meta.
    and_then (load_index meta source) λ index.
      and_then (load_bloom_filter meta source) λ bloom_filter. ok (record {
        source = source;
        meta = meta;
        min_key = first_index_key index;
        max_key = last_index_key index;
        index = index;
        bloom_filter = bloom_filter;
        block_cache = [];
      })

-- a cache of more than a hundred blocks is emptied
cache_block : ℕ → List ℕ → NumberMap (List ℕ) → NumberMap (List ℕ)
cache_block offset block cache =
    let filled = set_slot offset block cache in if ltb 100 (length filled) then [] else filled

-- `unwrap_or(0)`
abbrev start_of : Option ℕ → ℕ
start_of none = 0
start_of (some i) = i

module _ (codec : Codec) where
  -- an error of a decompressor
  decompressed : Outcome String (List ℕ) → Result (List ℕ)
  decompressed (ok bytes) = ok bytes
  decompressed (err text) = err (decompression text)
  decompressed panic = panic

  unfoldable pub decompress : CompressionType → List ℕ → Result (List ℕ)
  unfolding decompressed
  decompress uncompressed bytes = ok bytes
  decompress lz4 bytes = decompressed (codec.lz4_decompress bytes)
  decompress zstd bytes = decompressed (codec.zstd_decompress bytes (block_size * 4))

  -- the checksum and the compression of a block that has been read
  pub decode_block : CompressionType → List ℕ → Result (List ℕ)
  unfolding decompress
  decode_block compression block_with_checksum =
      if ltb (length block_with_checksum) 4
      then err (corruption "block too small to contain checksum")
      else let stored = from_le (take 4 block_with_checksum) in
        let compressed_data = drop 4 block_with_checksum in
        let computed = codec.crc32 compressed_data in
        if not (stored == computed)
        then err (checksum_mismatch stored computed)
        else decompress compression compressed_data

  -- `read_block` without the cache
  pub load_block : IndexEntry → SstableReader → Result (List ℕ)
  unfolding decode_block read_at
  load_block e r = and_then (read_at e.offset e.size r.source) (decode_block r.meta.compression)

  -- what has been read is put into the cache
  fill_cache : IndexEntry → Result (List ℕ) → ReaderMethod (List ℕ)
  unfolding cache_block
  fill_cache e (ok block) r =
      (ok block, record r { block_cache = cache_block e.offset block r.block_cache })
  fill_cache e (err error) r = (err error, r)
  fill_cache e panic r = (panic, r)

  pub read_block : IndexEntry → ReaderMethod (List ℕ)
  unfolding load_block fill_cache
  read_block e r = elim (slot e.offset r.block_cache) [
    | some block ↦ (ok block, r)
    | none ↦ fill_cache e (load_block e r) r
  ]

  -- the block with a number: an index out of bounds panics
  read_numbered : ℕ → ReaderMethod (List ℕ)
  unfolding read_block
  read_numbered i r = elim (get_elem? r.index i) [ none ↦ (panic, r) | some e ↦ read_block e r ]

  -- the loop of `range` over so many blocks from `i` on
  range_blocks : (n i : ℕ) (start end : List ℕ) → List Entry → ReaderMethod (List Entry)
  unfolding read_block
  range_blocks zero i start end results r = (ok results, r)
  range_blocks (suc n) i start end results r = elim (get_elem? r.index i) [
    | none ↦ (panic, r)
    | some e ↦
        let rest =
          (do
            block ← read_block e
            entries ← (λ s. (get_entries_in_range_from_block block start end, s))
            range_blocks n (i + 1) start end (results ++ entries))
            r in
        if key_le end e.key then (ok results, r) else rest
  ]

  -- The loop runs to the length of the key `end`, as it is written.
  pub range : (start end : List ℕ) → ReaderMethod (List Entry)
  unfolding range_blocks
  range start end = do
    found ← (λ r. (find_block_for_key r.index start, r))
    range_blocks (length end - start_of found) (start_of found) start end []

  -- the search in the block that the index names
  search_found : List ℕ → Option ℕ → ReaderMethod (Option Entry)
  unfolding read_numbered
  search_found key none = return none
  search_found key (some i) = do block ← read_numbered i; (λ s. (search_in_block block key, s))

  -- the part of `get` behind the filter
  search_index : List ℕ → ReaderMethod (Option Entry)
  unfolding search_found
  search_index key = do found ← (λ r. (find_block_for_key r.index key, r)); search_found key found

  module _ (hashes : Hashes) where
    pub might_contain : List ℕ → SstableReader → Result Bool
    might_contain key r = elim r.bloom_filter [
      | none ↦ ok true
      | some bloom ↦ Bloom.might_contain hashes key bloom
    ]

    pub get : List ℕ → ReaderMethod (Option Entry)
    unfolding might_contain search_index
    get key = do
      maybe ← (λ r. (might_contain key r, r))
      if maybe then search_index key else return none
