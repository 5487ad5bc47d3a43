-- ===== src/Sstable/Writer.antt =====
-- src/sstable.rs: `SSTableWriter`. The file is the list of the bytes written to it.
pub mod Runs
pub mod Keys
pub mod Order
pub mod Adding
mod Tests
use justdbd.Common.{
  ℕ, zero, suc, ◌+◌, ◌%◌, ◌^◌, Bool, true, false, ◌&&◌, List, [], ◌∷◌, ◌++◌, Option, none, some,
  ltb, ◌==◌, length, if◌then◌else◌,
}
use justdbd.Common.Bytes.{le_bytes}
use justdbd.Common.Float.{F64}
use justdbd.Common.Outcome.{Outcome, ok, err, panic, Method, resume, return, ◌>>=◌, ◌>>◌, and_then}
use justdbd.Bloom
use justdbd.Bloom.{Hashes, BloomFilter}
use justdbd.Config.{CompressionType, uncompressed, lz4, zstd}
use justdbd.Entry.{key_le}
use justdbd.Entry.Record.{Entry}
use justdbd.Error.{StorageError, Result, invalid_operation, compression}
use justdbd.MemTable.{Clock}
use justdbd.Sstable.Block.{entry_data, block_data}
use justdbd.Sstable.Codec.{Codec}
use justdbd.Sstable.Footer.{SstableMeta, sstable_version, write_footer}
use justdbd.Sstable.Index.{IndexEntry, serialize_index}

abbrev pub block_size : ℕ
block_size = 4096

pub record SstableWriter : Type 0 where
  pub content : List ℕ
  pub position : ℕ
  pub current_block : List ℕ
  pub current_block_entries : ℕ
  pub index : List IndexEntry
  pub bloom_filter : BloomFilter
  pub compression : CompressionType
  pub compression_level : ℕ
  pub entry_count : ℕ
  pub min_key : Option (List ℕ)
  pub max_key : Option (List ℕ)
  pub created_at : ℕ

abbrev pub WriterMethod : Type 0 → Type 0
WriterMethod A = Method SstableWriter StorageError A

-- `SStableMeta` with the two keys, as `finish` returns it
pub record TableMeta : Type 0 where
  pub footer : SstableMeta
  pub least_key : List ℕ
  pub greatest_key : List ℕ

-- `entry.key <= *max_key`
unfoldable pub is_out_of_order : List ℕ → Option (List ℕ) → Bool
is_out_of_order key none = false
is_out_of_order key (some max_key) = key_le key max_key

unfoldable pub note_keys : List ℕ → WriterMethod (Unit {0})
note_keys key w = (
  ok tt,
  record w {
    min_key = elim w.min_key [ none ↦ some key | some min_key ↦ some min_key ];
    max_key = some key;
  },
)

-- the first entry of a block is recorded in the index, with a size that the flush updates
unfoldable pub append_entry : Entry → WriterMethod (Unit {0})
append_entry e w = (
  ok tt,
  record w {
    index =
        if w.current_block_entries == 0
        then w.index ++ record { key = e.key; offset = w.position; size = 0 } ∷ []
        else w.index;
    current_block = w.current_block ++ entry_data e;
    current_block_entries = (w.current_block_entries + 1) % 2 ^ 64;
    entry_count = (w.entry_count + 1) % 2 ^ 64;
  },
)

-- `index.last_mut()`
pub set_last_size : ℕ → List IndexEntry → List IndexEntry
set_last_size size [] = []
set_last_size size (e ∷ []) = record e { size = size } ∷ []
set_last_size size (e ∷ f ∷ rest) = e ∷ set_last_size size (f ∷ rest)

-- the footer that `finish` writes
abbrev pub meta_of :
    (data_size index_size bloom_offset bloom_size : ℕ) → SstableWriter → SstableMeta
meta_of data_size index_size bloom_offset bloom_size w = record {
  entry_count = w.entry_count;
  data_size = data_size;
  index_size = index_size;
  bloom_offset = bloom_offset;
  bloom_size = bloom_size;
  compression = w.compression;
  created_at = w.created_at;
  version = sstable_version;
}

module _ (codec : Codec) where
  -- `write_all` and the new position
  write_bytes : List ℕ → WriterMethod (Unit {0})
  write_bytes bytes w =
      let (r, content') = codec.write_all bytes w.content in
      resume r (λ _ s. (ok tt, record s { position = (s.position + length bytes) % 2 ^ 64 }))
        (record w { content = content' })

  unfoldable pub compress_block : List ℕ → SstableWriter → Result (List ℕ)
  compress_block bytes w = elim w.compression [
    | uncompressed ↦ ok bytes
    | lz4 ↦ ok (codec.lz4_compress bytes)
    | zstd ↦ elim (codec.zstd_compress bytes w.compression_level) [
      | ok compressed ↦ ok compressed
      | err text ↦ err (compression text)
      | panic ↦ panic
    ]
  ]

  -- the update of the index and the reset of the block
  close_block : ℕ → WriterMethod (Unit {0})
  unfolding set_last_size
  close_block data_size w = (
    ok tt,
    record w {
      index = set_last_size ((data_size + 4) % 2 ^ 64) w.index;
      current_block = [];
      current_block_entries = 0;
    },
  )

  unfoldable pub flush_current_block : WriterMethod (Unit {0})
  unfolding compress_block write_bytes close_block
  flush_current_block w =
      let work =
        (do
          compressed ←
              (λ s. (compress_block (block_data s.current_block_entries s.current_block) s, s))
          write_bytes (le_bytes 4 (codec.crc32 compressed))
          write_bytes compressed
          close_block (length compressed))
          w in
      elim w.current_block [ [] ↦ (ok tt, w) | _ ∷ _ ↦ work ]

  -- the flush in `add`, when the new entry does not fit the block
  unfoldable pub flush_if_full : ℕ → WriterMethod (Unit {0})
  unfolding flush_current_block
  flush_if_full size w =
      if ltb block_size (length w.current_block + size) && ltb 0 w.current_block_entries
      then flush_current_block w
      else (ok tt, w)

  -- The footer is written without a new position.
  write_end : List ℕ → WriterMethod (Unit {0})
  write_end bytes w =
      let (r, content') = codec.write_all bytes w.content in (r, record w { content = content' })

  -- the parts of `finish` behind the last block
  pub write_tail : ℕ → WriterMethod TableMeta
  unfolding write_end write_bytes
  write_tail data_size w =
      let bloom_data = Bloom.to_bytes w.bloom_filter in
      let index_data = serialize_index w.index in
      let meta = meta_of data_size (length index_data) data_size (length bloom_data) w in
      (do
        write_bytes bloom_data
        write_bytes index_data
        footer ← (λ s. (write_footer meta, s))
        write_end footer
        (λ s. (codec.sync_all s.content, s))
        return (record {
          footer = meta;
          least_key = elim w.min_key [ none ↦ [] | some key ↦ key ];
          greatest_key = elim w.max_key [ none ↦ [] | some key ↦ key ];
        }))
        w

  pub finish : WriterMethod TableMeta
  unfolding flush_current_block write_tail
  finish = do flush_current_block; (λ w. write_tail w.position w)

  module _ (hashes : Hashes) where
    -- `bloom_filter.add`
    unfoldable pub add_to_filter : List ℕ → WriterMethod (Unit {0})
    add_to_filter key w =
        resume (Bloom.add hashes key w.bloom_filter)
          (λ filter s. (ok tt, record s { bloom_filter = filter })) w

    unfoldable pub add : Entry → WriterMethod (Unit {0})
    unfolding is_out_of_order note_keys add_to_filter flush_if_full append_entry
    add e w =
        if is_out_of_order e.key w.max_key
        then (err (invalid_operation "keys must be added in sorted order"), w)
        else (do
          note_keys e.key
          add_to_filter e.key
          flush_if_full (length (entry_data e))
          append_entry e)
            w

    -- the loop of `build` and of `build_from_vec`
    unfoldable pub add_all : List Entry → WriterMethod (Unit {0})
    unfolding add
    add_all [] = return tt
    add_all (e ∷ es) = do add e; add_all es
