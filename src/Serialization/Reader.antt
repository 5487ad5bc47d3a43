-- ===== src/Serialization/Reader.antt =====
-- src/serialization.rs: `Deserializer`, a position in a byte slice. Sums of `usize` wrap, as in a
-- release build; an index or a slice out of bounds panics.
pub mod Consumes
pub mod Safe
pub mod Total
pub mod Varint
mod Tests
use Prim.Native.Nat.{bit_and, bit_or}
use justdbd.Common.{
  ℕ, zero, suc, ◌+◌, ◌-◌, ◌*◌, ◌%◌, ◌^◌, Bool, List, Option, none, some, String, ltb, leb, ◌==◌,
  length, get_elem?, take, drop, if◌then◌else◌,
}
use justdbd.Common.Outcome.{ok, err, panic, Method, return, fail, ◌>>=◌, ◌>>◌}
use justdbd.Common.Bytes.{from_le}
use justdbd.Error.{StorageError, corruption}
use justdbd.Serialization.Utf8.{is_utf8}

pub record Deserializer : Type 0 where
  pub data_of : List ℕ
  pub position : ℕ

-- `&[u8]` from its start
abbrev pub new : List ℕ → Deserializer
new bytes = record { data_of = bytes; position = 0 }

abbrev pub Reader {ℓ} : Type ℓ → Type ℓ
Reader A = Method Deserializer StorageError A

-- `self.position + n`
abbrev pub ahead : Deserializer → ℕ → ℕ
ahead d n = (d.position + n) % 2 ^ 64

ensure_byte : ℕ → Reader (Unit {0})
ensure_byte n d =
    if ltb (length d.data_of) (ahead d n)
    then (err (corruption "unexpected end of data"), d)
    else (ok tt, d)

-- `self.data[self.position]`
index : Reader ℕ
index d = elim (get_elem? d.data_of d.position) [ none ↦ (panic, d) | some b ↦ (ok b, d) ]

-- `&self.data[self.position..self.position + n]`
slice : ℕ → Reader (List ℕ)
slice n d =
    if ltb (ahead d n) d.position
    then (panic, d)
    else if ltb (length d.data_of) (ahead d n)
    then (panic, d)
    else (ok (take (ahead d n - d.position) (drop d.position d.data_of)), d)

-- `self.position += n`
step : ℕ → Reader (Unit {0})
step n d = (ok tt, record d { position = ahead d n })

pub read_u8 : Reader ℕ
read_u8 = do ensure_byte 1; value ← index; step 1; return value

-- The body that `read_u16`, `read_u32` and `read_u64` share.
read_word : ℕ → Reader ℕ
read_word n = do ensure_byte n; bytes ← slice n; step n; return (from_le bytes)

pub read_u16 : Reader ℕ
read_u16 = read_word 2

pub read_u32 : Reader ℕ
read_u32 = read_word 4

pub read_u64 : Reader ℕ
read_u64 = read_word 8

pub read_bytes : ℕ → Reader (List ℕ)
read_bytes len = do ensure_byte len; bytes ← slice len; step len; return bytes

-- `String::from_utf8`
unfoldable pub utf8 : List ℕ → Reader (List ℕ)
utf8 bytes = if is_utf8 bytes then return bytes else fail (corruption "Invalid UTF-8 string")

unfoldable pub read_string : Reader (List ℕ)
read_string = do len ← read_u32; bytes ← read_bytes len; utf8 bytes

-- The loop of `read_variable_int`. A round is entered with `shift` at most 70, after ten rounds, and
-- then the test at its head holds: so the case of no fuel repeats that answer.
pub read_groups : ℕ → ℕ → ℕ → Reader ℕ
read_groups zero result shift = fail (corruption "variable integer too long")
read_groups (suc fuel) result shift =
    if leb 64 shift then fail (corruption "variable integer too long") else do
      byte ← read_u8
      let result' = bit_or result (bit_and byte 0x7f * 2 ^ shift % 2 ^ 64)
      let more = read_groups fuel result' (shift + 7)
      if bit_and byte 0x80 == 0 then return result' else more

pub read_variable_int : Reader ℕ
read_variable_int = read_groups 11 0 0

pub skip : ℕ → Reader (Unit {0})
skip n = do ensure_byte n; step n

-- `self.data.len() - self.position`
pub remaining : Deserializer → ℕ
remaining d = length d.data_of - d.position

pub is_eof : Deserializer → Bool
is_eof d = leb (length d.data_of) d.position

-- `&self.data[self.position..]`
pub remaining_slice : Reader (List ℕ)
remaining_slice d =
    if ltb (length d.data_of) d.position then (panic, d) else (ok (drop d.position d.data_of), d)

pub peek_u8 : Reader ℕ
peek_u8 = do ensure_byte 1; index
