-- ===== src/Sstable/Writer/Runs.antt =====
-- src/sstable.rs: what the writer appends to a file whose writes succeed.
use justdbd.Common.{
  append_assoc, ℕ, ◌+◌, ◌<◌, ◌%◌, ◌^◌, ◌≡◌, refl, ap, ◌∙◌, List, [], ◌∷◌, ◌++◌, none, some, arith,
  length,
}
use justdbd.Common.Bytes.{le_bytes}
use justdbd.Common.Outcome.{ok, bind-ok}
use justdbd.Bloom
use justdbd.Sstable.Block.{block_data}
use justdbd.Sstable.Codec.{Codec}
use justdbd.Sstable.Footer.{SstableMeta, write_footer}
use justdbd.Sstable.Index.{IndexEntry, serialize_index}
use justdbd.Sstable.Writer.{
  SstableWriter, TableMeta, write_bytes, write_end, write_tail, meta_of, compress_block,
  close_block, set_last_size, flush_current_block, finish,
}

-- Every write appends its bytes, and the file can be synchronized.
pub record IsAppending (codec : Codec) : Type 0 where
  pub accepts : (bytes content : List ℕ) → (codec.write_all bytes content).0 ≡ ok tt
  pub appends : (bytes content : List ℕ) → (codec.write_all bytes content).1 ≡ content ++ bytes
  pub syncs : (content : List ℕ) → codec.sync_all content ≡ ok tt

pub set_last_size-append :
    (size : ℕ) (earlier : List IndexEntry) (e : IndexEntry)
    → set_last_size size (earlier ++ e ∷ []) ≡ earlier ++ record e { size = size } ∷ []
unfolding set_last_size
set_last_size-append size [] e = refl
set_last_size-append size (x ∷ []) e = refl
set_last_size-append size (x ∷ y ∷ xs) e = ap (λ l. x ∷ l) (set_last_size-append size (y ∷ xs) e)

-- The footer of a file whose blocks have so many bytes.
abbrev pub tail_meta : ℕ → SstableWriter → SstableMeta
tail_meta data_size w =
    meta_of data_size (length (serialize_index w.index)) data_size
      (length (Bloom.to_bytes w.bloom_filter)) w

module _ (codec : Codec) (h : IsAppending codec) where
  -- The writer behind a write.
  abbrev pub wrote : List ℕ → SstableWriter → SstableWriter
  wrote bytes w = record w {
    content = w.content ++ bytes;
    position = (w.position + length bytes) % 2 ^ 64;
  }

  write_bytes-wrote :
      (bytes : List ℕ) (w : SstableWriter) → write_bytes codec bytes w ≡ (ok tt, wrote bytes w)
  unfolding write_bytes
  write_bytes-wrote bytes w = rw (write_bytes, h.accepts bytes w.content, h.appends bytes w.content)

  write_end-run :
      (bytes : List ℕ) (w : SstableWriter)
      → write_end codec bytes w ≡ (ok tt, record w { content = w.content ++ bytes })
  unfolding write_end
  write_end-run bytes w = rw (write_end, h.accepts bytes w.content, h.appends bytes w.content)

  pub write_tail-run :
      (data_size : ℕ) (w : SstableWriter) (footer : List ℕ)
      → write_footer (tail_meta data_size w) ≡ ok footer
      → (table : TableMeta) × (w' : SstableWriter) × (write_tail codec data_size w ≡ (ok table, w'))
        × (table.footer ≡ tail_meta data_size w)
        × (w'.content
            ≡ ((w.content ++ Bloom.to_bytes w.bloom_filter) ++ serialize_index w.index) ++ footer)
  unfolding write_tail
  write_tail-run data_size w footer made =
      let w1 = wrote (Bloom.to_bytes w.bloom_filter) w in
      let w2 = wrote (serialize_index w.index) w1 in
      let w3 = record w2 { content = w2.content ++ footer } in
      (
        record {
          footer = tail_meta data_size w;
          least_key = elim w.min_key [ none ↦ [] | some key ↦ key ];
          greatest_key = elim w.max_key [ none ↦ [] | some key ↦ key ];
        },
        w3,
        bind-ok (write_bytes codec (Bloom.to_bytes w.bloom_filter)) _ w (write_bytes-wrote _ w)
            ∙ bind-ok (write_bytes codec (serialize_index w.index)) _ w1 (write_bytes-wrote _ w1)
            ∙ bind-ok (λ s. (write_footer (tail_meta data_size w), s)) _ w2 (ap (λ r. (r, w2)) made)
            ∙ bind-ok (write_end codec footer) _ w2 (write_end-run footer w2)
            ∙ bind-ok (λ s. (codec.sync_all s.content, s)) _ w3
                (ap (λ r. (r, w3)) (h.syncs w3.content)),
        refl,
        refl,
      )

  -- A block that is not empty becomes a frame: the checksum and the compressed block.
  abbrev pub framed : List ℕ → SstableWriter → SstableWriter
  framed compressed w =
      let w2 = wrote compressed (wrote (le_bytes 4 (codec.crc32 compressed)) w) in
      record w2 {
        index = set_last_size ((length compressed + 4) % 2 ^ 64) w.index;
        current_block = [];
        current_block_entries = 0;
      }

  flush_cases :
      {A : Type 0} (block : List ℕ) (a b : A)
      → 0 < length block
      → elim block as (λ x. A) [ [] ↦ a | c ∷ cs ↦ b ] ≡ b
  flush_cases [] a b h = absurd (omega arith)
  flush_cases (c ∷ cs) a b h = refl

  pub flush_current_block-framed :
      (w : SstableWriter) (compressed : List ℕ)
      → 0 < length w.current_block
      → compress_block codec (block_data w.current_block_entries w.current_block) w ≡ ok compressed
      → flush_current_block codec w ≡ (ok tt, framed compressed w)
  unfolding flush_current_block
  flush_current_block-framed w compressed full packed =
      let sum = le_bytes 4 (codec.crc32 compressed) in
      flush_cases w.current_block _ _ full
      ∙ rw
          (packed, write_bytes-wrote sum w, write_bytes-wrote compressed (wrote sum w), close_block)

  -- `finish` flushes the last block and appends the filter, the index and the footer.
  pub finish-run :
      (w w1 : SstableWriter) (footer : List ℕ)
      → flush_current_block codec w ≡ (ok tt, w1)
      → write_footer (tail_meta w1.position w1) ≡ ok footer
      → (table : TableMeta) × (w' : SstableWriter) × (finish codec w ≡ (ok table, w'))
        × (table.footer ≡ tail_meta w1.position w1)
        × (w'.content
            ≡ w1.content
              ++ (Bloom.to_bytes w1.bloom_filter ++ (serialize_index w1.index ++ footer)))
  unfolding finish
  finish-run w w1 footer flushed made =
      let (table, w', run, same, content) = write_tail-run w1.position w1 footer made in
      (
        table,
        w',
        bind-ok (flush_current_block codec) (λ _. (λ s. write_tail codec s.position s)) w flushed
            ∙ run,
        same,
        content
            ∙ append_assoc (w1.content ++ Bloom.to_bytes w1.bloom_filter) (serialize_index w1.index)
                footer
            ∙ append_assoc w1.content (Bloom.to_bytes w1.bloom_filter)
                (serialize_index w1.index ++ footer),
      )
