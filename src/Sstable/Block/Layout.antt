-- ===== src/Sstable/Block/Layout.antt =====
-- src/sstable.rs: the layout of one entry in a block, and the readers of its parts.
use native.Mathlib.Nat.{mod-eq_of_lt}
use justdbd.Common.{
  ℕ, ◌^◌, ◌<◌, ◌≡◌, refl, List, [], ◌∷◌, ◌++◌, append_assoc, Option, none, some, arith, length,
  length-append,
}
use justdbd.Common.Bytes.{le_bytes, length-le_bytes}
use justdbd.Common.Outcome.{return}
use justdbd.Entry.Record
use justdbd.Entry.Record.{Entry}
use justdbd.Serialization.Reader.{read_u8, read_u32, read_u64, read_bytes, skip}
use justdbd.Serialization.Reader.Consumes.{
  Consumes, Consumes-bind, Consumes-bind_last, Consumes-then, Consumes-return, read_u8-Consumes,
  read_u32-Consumes, read_u64-Consumes, read_bytes-Consumes, skip-Consumes,
}
use justdbd.Serialization.Writer.{Serializer, write_u8, write_u32, write_u64, write_bytes, finish}
use justdbd.Sstable.Block.{
  serializer_value, entry_data, read_key, read_value, read_fields, skip_fields,
}

-- The lengths fit 32 bits and the numbers 64.
pub record IsStorable (e : Entry) : Type 0 where
  pub key_fits : length e.key < 2 ^ 32
  pub value_fits : Record.value_size e.value < 2 ^ 32
  pub timestamp_fits : e.timestamp < 2 ^ 64
  pub sequence_fits : e.sequence < 2 ^ 64

abbrev pub key_layout : List ℕ → List ℕ
key_layout key = le_bytes 4 (length key) ++ key

abbrev pub value_layout : Option (List ℕ) → List ℕ
value_layout none = 0 ∷ []
value_layout (some v) = (1 ∷ []) ++ (le_bytes 4 (length v) ++ v)

abbrev pub stamp_layout : Entry → List ℕ
stamp_layout e = le_bytes 8 e.timestamp ++ le_bytes 8 e.sequence

-- The layout of an entry.
unfoldable pub layout : Entry → List ℕ
layout e = key_layout e.key ++ (value_layout e.value ++ stamp_layout e)

serializer_value-buffer :
    (value : Option (List ℕ)) (s : Serializer)
    → Record.value_size value < 2 ^ 32
    → (serializer_value value s).buffer ≡ s.buffer ++ value_layout value
unfolding serializer_value write_u8 write_u32 write_bytes
serializer_value-buffer none s h = refl
serializer_value-buffer (some v) s h = rw (mod-eq_of_lt h) (simp append_assoc)

pub entry_data-layout : (e : Entry) → IsStorable e → entry_data e ≡ layout e
unfolding entry_data layout write_u8 write_u32 write_u64 write_bytes finish
entry_data-layout e v =
    rw
      (
        mod-eq_of_lt v.key_fits,
        serializer_value-buffer e.value (record { buffer = le_bytes 4 (length e.key) ++ e.key })
            v.value_fits,
      )
      (simp append_assoc)

pub read_key-Consumes :
    (key : List ℕ) → length key < 2 ^ 32 → Consumes read_key (key_layout key) key
unfolding read_key
read_key-Consumes key h =
    Consumes-bind read_u32 _ (le_bytes 4 (length key)) key (read_u32-Consumes (length key) h)
      (read_bytes-Consumes (length key) key refl)

read_value-Consumes :
    (value : Option (List ℕ))
    → Record.value_size value < 2 ^ 32
    → Consumes read_value (value_layout value) value
unfolding read_value
read_value-Consumes none h =
    Consumes-bind_last read_u8 _ (0 ∷ []) (read_u8-Consumes 0) (Consumes-return none)
read_value-Consumes (some v) h =
    Consumes-bind read_u8 _ (1 ∷ []) (le_bytes 4 (length v) ++ v) (read_u8-Consumes 1) (
      Consumes-bind read_u32 _ (le_bytes 4 (length v)) v (read_u32-Consumes (length v) h) (
        Consumes-bind_last (read_bytes (length v)) _ v (read_bytes-Consumes (length v) v refl)
          (Consumes-return (some v))))

pub read_fields-Consumes :
    (e : Entry)
    → IsStorable e
    → Consumes (read_fields e.key) (value_layout e.value ++ stamp_layout e) e
unfolding read_fields
read_fields-Consumes e v =
    Consumes-bind read_value _ (value_layout e.value) (stamp_layout e)
      (read_value-Consumes e.value v.value_fits)
      (Consumes-bind read_u64 _ (le_bytes 8 e.timestamp) (le_bytes 8 e.sequence)
        (read_u64-Consumes e.timestamp v.timestamp_fits)
        (Consumes-bind_last read_u64 _ (le_bytes 8 e.sequence)
          (read_u64-Consumes e.sequence v.sequence_fits) (Consumes-return e)))

length-stamp : (e : Entry) → length (stamp_layout e) ≡ 16
length-stamp e = omega (
  arith,
  length-append (le_bytes 8 e.timestamp) (le_bytes 8 e.sequence),
  length-le_bytes 8 e.timestamp,
  length-le_bytes 8 e.sequence,
)

skip_value-Consumes :
    (value : Option (List ℕ)) (stamps : List ℕ)
    → Record.value_size value < 2 ^ 32
    → length stamps ≡ 16
    → Consumes skip_fields (value_layout value ++ stamps) tt
unfolding skip_fields
skip_value-Consumes none stamps h size =
    Consumes-bind read_u8 _ (0 ∷ []) stamps (read_u8-Consumes 0) (
      Consumes-then (return tt) (skip 16) [] stamps (Consumes-return tt)
        (skip-Consumes 16 stamps size))
skip_value-Consumes (some v) stamps h size =
    let counted = le_bytes 4 (length v) ++ v in
    Consumes-bind read_u8 _ (1 ∷ []) (counted ++ stamps) (read_u8-Consumes 1) (
      Consumes-then _ (skip 16) counted stamps
        (Consumes-bind read_u32 skip (le_bytes 4 (length v)) v (read_u32-Consumes (length v) h)
          (skip-Consumes (length v) v refl))
        (skip-Consumes 16 stamps size))

pub skip_fields-Consumes :
    (e : Entry) → IsStorable e → Consumes skip_fields (value_layout e.value ++ stamp_layout e) tt
skip_fields-Consumes e v =
    skip_value-Consumes e.value (stamp_layout e) v.value_fits (length-stamp e)
