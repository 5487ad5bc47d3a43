-- ===== src/Sstable/Reader/Layout.antt =====
-- src/sstable.rs: what `open` finds in a file that is mapped, from the parts that the file is made of.
use justdbd.Common.{
  ℕ, ◌+◌, ◌-◌, ◌%◌, ◌^◌, ◌<◌, ◌≡◌, refl, sym, ap, ◌∙◌, false, List, [], ◌++◌, some, arith, ltb,
  ◌==◌, length, drop, append_assoc, append-nil, length-append, take-append, drop-append, if-false,
}
use justdbd.Common.Outcome.{ok, and_then, and_then-and_then}
use justdbd.Bloom
use justdbd.Sstable.Footer
use justdbd.Sstable.Footer.{SstableMeta, footer_size}
use justdbd.Sstable.Index
use justdbd.Sstable.Index.{IndexEntry}
use justdbd.Sstable.Reader.{
  mapped, read_at, load_metadata, load_index, load_bloom_filter, first_index_key, last_index_key,
  open_reader,
}

-- A read of a part of a mapped file that lies behind `before`.
pub read_at-slice :
    (all before bytes after : List ℕ) (offset size : ℕ)
    → all ≡ before ++ (bytes ++ after)
    → length all < 2 ^ 64
    → offset ≡ length before
    → size ≡ length bytes
    → read_at offset size (mapped all) ≡ ok bytes
unfolding read_at
read_at-slice all before bytes after offset size whole small at wide =
    let total : length all ≡ length before + (length bytes + length after) =
      ap length whole
      ∙ length-append before (bytes ++ after)
      ∙ ap (λ n. length before + n) (length-append bytes after) in
    let end : (offset + size) % 2 ^ 64 ≡ length before + length bytes =
      omega (arith, total, small) in
    let behind : drop offset all ≡ bytes ++ after =
      rw (at, whole) (drop-append before (bytes ++ after)) in
    let inside : ltb (length all) ((offset + size) % 2 ^ 64) ≡ false = ground (arith, end, total) in
    let forward : ltb ((offset + size) % 2 ^ 64) offset ≡ false = ground (arith, end, at) in
    let width : (offset + size) % 2 ^ 64 - offset ≡ length bytes = omega (arith, end, at) in
    if-false _ _ inside
    ∙ if-false _ _ forward
    ∙ ap (λ l. ok l) (rw (width, behind) (take-append bytes after))

module _ (before bloom index_data footer : List ℕ) (meta : SstableMeta)
    (index : List IndexEntry) where
  abbrev pub file : List ℕ
  file = before ++ (bloom ++ (index_data ++ footer))

  pub length-file :
      length footer ≡ footer_size
      → length file ≡ length before + (length bloom + (length index_data + 64))
  length-file width =
      length-append before (bloom ++ (index_data ++ footer))
      ∙ ap (λ n. length before + n)
          (length-append bloom (index_data ++ footer)
            ∙ ap (λ n. length bloom + n)
                (length-append index_data footer ∙ ap (λ n. length index_data + n) width))

  -- The parts are where the footer says, and the footer and the index are read back.
  pub record IsLaidOut : Type 0 where
    pub small : length file < 2 ^ 64
    pub width : length footer ≡ footer_size
    pub footer_read : Footer.load_metadata footer ≡ ok meta
    pub bloom_at : meta.bloom_offset ≡ length before
    pub bloom_wide : meta.bloom_size ≡ length bloom
    pub bloom_there : 0 < length bloom
    pub index_wide : meta.index_size ≡ length index_data
    pub index_read : Index.load_index index_data ≡ ok index

  module _ (h : IsLaidOut) where
    total : length file ≡ length before + (length bloom + (length index_data + 64))
    total = length-file h.width

    load_metadata-file : load_metadata (mapped file) ≡ ok meta
    unfolding load_metadata
    load_metadata-file =
        let head = before ++ (bloom ++ index_data) in
        let whole : file ≡ head ++ (footer ++ []) =
          ap (λ x. before ++ x) (sym (append_assoc bloom index_data footer))
          ∙ sym (append_assoc before (bloom ++ index_data) footer)
          ∙ ap (λ x. head ++ x) (sym (append-nil footer)) in
        let behind : length file - footer_size ≡ length head = omega (
          arith,
          total,
          length-append before (bloom ++ index_data),
          length-append bloom index_data,
        ) in
        if-false {b = ltb (length file) footer_size} _ _ (ground (arith, total))
        ∙ ap (λ r. and_then r Footer.load_metadata)
            (read_at-slice file head footer [] (length file - footer_size) footer_size whole h.small
              behind (sym h.width))
        ∙ h.footer_read

    load_index-file : load_index meta (mapped file) ≡ ok index
    unfolding load_index
    load_index-file =
        let whole : file ≡ (before ++ bloom) ++ (index_data ++ footer) =
          sym (append_assoc before bloom (index_data ++ footer)) in
        let place : (meta.bloom_offset + meta.bloom_size) % 2 ^ 64 ≡ length (before ++ bloom) =
          omega (arith, total, h.small, h.bloom_at, h.bloom_wide, length-append before bloom) in
        ap (λ r. and_then r Index.load_index)
          (read_at-slice file (before ++ bloom) index_data footer _ meta.index_size whole h.small
            place h.index_wide)
        ∙ h.index_read

    load_bloom_filter-file :
        load_bloom_filter meta (mapped file)
        ≡ and_then (Bloom.from_bytes bloom) λ filter. ok (some filter)
    unfolding load_bloom_filter
    load_bloom_filter-file =
        if-false {b = meta.bloom_size == 0} _ _ (ground (arith, h.bloom_wide, h.bloom_there))
        ∙ ap (λ r. and_then r λ bytes. and_then (Bloom.from_bytes bytes) λ filter. ok (some filter))
            (read_at-slice file before bloom (index_data ++ footer) meta.bloom_offset
              meta.bloom_size refl h.small h.bloom_at h.bloom_wide)

    -- `open` finds the footer and the index, and asks the filter for itself.
    pub open_reader-file :
        open_reader (ok (mapped file))
        ≡ and_then (Bloom.from_bytes bloom) λ filter. ok (record {
          source = mapped file;
          meta = meta;
          min_key = first_index_key index;
          max_key = last_index_key index;
          index = index;
          bloom_filter = some filter;
          block_cache = [];
        })
    unfolding open_reader
    open_reader-file =
        rw (load_metadata-file, load_index-file, load_bloom_filter-file)
          (and_then-and_then (Bloom.from_bytes bloom) _ _)
