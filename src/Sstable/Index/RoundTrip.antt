-- ===== src/Sstable/Index/RoundTrip.antt =====
-- src/sstable.rs: an index that is written is read back.
use native.Mathlib.Nat.{mod-eq_of_lt}
use justdbd.Common.{
  ℕ, ◌%◌, ◌^◌, ◌<◌, ◌≡◌, refl, ap, ◌∙◌, List, [], ◌∷◌, ◌++◌, append_assoc, append-nil, length, All,
}
use justdbd.Common.Bytes.{le_bytes}
use justdbd.Common.Outcome.{ok}
use justdbd.Serialization.Reader.{read_u32, read_u64, read_bytes}
use justdbd.Serialization.Reader.Consumes.{
  Consumes, Consumes-bind, Consumes-bind_last, Consumes-return, Consumes-Yields, Yields-new,
  read_u32-Consumes, read_u64-Consumes, read_bytes-Consumes,
}
use justdbd.Serialization.Writer.{Serializer, write_u32, write_u64, write_bytes, finish}
use justdbd.Sstable.Index.{
  IndexEntry, write_index_entry, write_index_entries, serialize_index, read_index_entry,
  load_index_entries, index_reader, load_index,
}

-- The length of the key fits 32 bits, and the numbers 64.
pub record IsStorable (e : IndexEntry) : Type 0 where
  pub key_fits : length e.key < 2 ^ 32
  pub offset_fits : e.offset < 2 ^ 64
  pub size_fits : e.size < 2 ^ 64

-- The layout of an index entry.
layout : IndexEntry → List ℕ
layout e = le_bytes 4 (length e.key) ++ (e.key ++ (le_bytes 8 e.offset ++ le_bytes 8 e.size))

layouts : List IndexEntry → List ℕ
layouts [] = []
layouts (e ∷ es) = layout e ++ layouts es

write_index_entry-layout :
    (e : IndexEntry) (s : Serializer)
    → IsStorable e
    → (write_index_entry e s).buffer ≡ s.buffer ++ layout e
unfolding write_index_entry layout write_u32 write_u64 write_bytes
write_index_entry-layout e s v = rw (mod-eq_of_lt v.key_fits) (simp append_assoc)

write_index_entries-layouts :
    (es : List IndexEntry) (s : Serializer)
    → All IsStorable es
    → (write_index_entries es s).buffer ≡ s.buffer ++ layouts es
unfolding write_index_entries layouts
write_index_entries-layouts [] s h = rw append-nil
write_index_entries-layouts (e ∷ es) s h =
    write_index_entries-layouts es (write_index_entry e s) h.1
    ∙ ap (λ b. b ++ layouts es) (write_index_entry-layout e s h.0)
    ∙ append_assoc s.buffer (layout e) (layouts es)

read_index_entry-Consumes : (e : IndexEntry) → IsStorable e → Consumes read_index_entry (layout e) e
unfolding read_index_entry layout
read_index_entry-Consumes e v =
    let places = le_bytes 8 e.offset ++ le_bytes 8 e.size in
    Consumes-bind read_u32 _ (le_bytes 4 (length e.key)) (e.key ++ places)
      (read_u32-Consumes (length e.key) v.key_fits)
      (Consumes-bind (read_bytes (length e.key)) _ e.key places
        (read_bytes-Consumes (length e.key) e.key refl)
        (Consumes-bind read_u64 _ (le_bytes 8 e.offset) (le_bytes 8 e.size)
          (read_u64-Consumes e.offset v.offset_fits)
          (Consumes-bind_last read_u64 _ (le_bytes 8 e.size) (read_u64-Consumes e.size v.size_fits)
            (Consumes-return e))))

load_index_entries-Consumes :
    (es index : List IndexEntry)
    → All IsStorable es
    → Consumes (load_index_entries (length es) index) (layouts es) (index ++ es)
unfolding load_index_entries layouts
load_index_entries-Consumes [] index h = rw append-nil (Consumes-return index)
load_index_entries-Consumes (e ∷ es) index h = rw (← append_assoc index (e ∷ []) es) (
    Consumes-bind read_index_entry _ (layout e) (layouts es) (read_index_entry-Consumes e h.0)
      (load_index_entries-Consumes es (index ++ e ∷ []) h.1))

serialize_index-layouts :
    (index : List IndexEntry)
    → All IsStorable index
    → length index < 2 ^ 32
    → serialize_index index ≡ le_bytes 4 (length index) ++ layouts index
unfolding serialize_index finish write_u32
serialize_index-layouts index h few =
    write_index_entries-layouts index (record { buffer = le_bytes 4 (length index % 2 ^ 32) }) h
    ∙ ap (λ n. le_bytes 4 n ++ layouts index) (mod-eq_of_lt few)

index_reader-Consumes :
    (index : List IndexEntry)
    → All IsStorable index
    → length index < 2 ^ 32
    → Consumes index_reader (le_bytes 4 (length index) ++ layouts index) index
unfolding index_reader
index_reader-Consumes index h few =
    Consumes-bind read_u32 _ (le_bytes 4 (length index)) (layouts index)
      (read_u32-Consumes (length index) few) (load_index_entries-Consumes index [] h)

-- An index of fewer than 2 ^ 32 entries that fit the format, shorter than 2 ^ 63 bytes, is read back
-- as it was written.
pub load_index-serialize_index :
    (index : List IndexEntry)
    → All IsStorable index
    → length index < 2 ^ 32
    → length (serialize_index index) < 2 ^ 63
    → load_index (serialize_index index) ≡ ok index
unfolding load_index
load_index-serialize_index index h few small =
    let whole = serialize_index-layouts index h few in
    let bytes = le_bytes 4 (length index) ++ layouts index in
    rw whole (
      Yields-new index_reader bytes
        (rw append-nil at
          (Consumes-Yields index_reader bytes [] (index_reader-Consumes index h few)))
        (rw whole at small))
