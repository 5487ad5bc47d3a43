-- ===== src/Serialization/Writer.antt =====
-- src/serialization.rs: `Serializer`, a growing buffer. A method on `&mut self` returns the new
-- serializer. A `&str` is the list of its UTF-8 bytes.
use Prim.Native.Nat.{bit_and, bit_or}
use justdbd.Common.{
  ℕ, zero, suc, ◌/◌, ◌%◌, ◌^◌, List, [], ◌∷◌, ◌++◌, Option, none, some, leb, length, if◌then◌else◌,
}
use justdbd.Common.Bytes.{le_bytes}

pub record Serializer : Type 0 where
  pub buffer : List ℕ

abbrev pub new : Serializer
new = record { buffer = [] }

unfoldable pub write_u8 : ℕ → Serializer → Serializer
write_u8 value s = record { buffer = s.buffer ++ value ∷ [] }

unfoldable pub write_u16 : ℕ → Serializer → Serializer
write_u16 value s = record { buffer = s.buffer ++ le_bytes 2 value }

unfoldable pub write_u32 : ℕ → Serializer → Serializer
write_u32 value s = record { buffer = s.buffer ++ le_bytes 4 value }

unfoldable pub write_u64 : ℕ → Serializer → Serializer
write_u64 value s = record { buffer = s.buffer ++ le_bytes 8 value }

unfoldable pub write_bytes : List ℕ → Serializer → Serializer
write_bytes bytes s = record { buffer = s.buffer ++ bytes }

-- the length is cast to 32 bits
unfoldable pub write_string : List ℕ → Serializer → Serializer
write_string bytes s = write_bytes bytes (write_u32 (length bytes % 2 ^ 32) s)

-- The loop `while value >= 0x80`. `none` says that the fuel ran out.
unfoldable pub write_groups : ℕ → ℕ → Serializer → Option Serializer
write_groups zero value s = none
write_groups (suc fuel) value s =
    let group = write_u8 (bit_or (bit_and value 0x7f % 2 ^ 8) 0x80) s in
    let rest = write_groups fuel (value / 2 ^ 7) group in
    if leb 0x80 value then rest else some (write_u8 (value % 2 ^ 8) s)

-- Ten groups of seven bits hold a `u64`.
unfoldable pub write_variable_int : ℕ → Serializer → Option Serializer
write_variable_int value s = write_groups 10 value s

unfoldable pub size : Serializer → ℕ
size s = length s.buffer

unfoldable pub finish : Serializer → List ℕ
finish s = s.buffer
