-- ===== src/Serialization/Wire.antt =====
-- src/serialization.rs: the traits `Serialize` and `Deserialize`, implemented by six types, and the
-- functions of `utils`. `Wire` names the implementing type; a method is a function by clauses on it.
pub mod RoundTrip
pub mod Truncation
mod Tests
use justdbd.Common.{ℕ, ◌%◌, ◌^◌, List, length}
use justdbd.Common.Outcome.{Outcome, ok, Method, and_then, ◌>>=◌, return}
use justdbd.Error.{StorageError, Result}
use justdbd.Serialization.Writer.{
  Serializer, new, write_u8, write_u16, write_u32, write_u64, write_bytes, write_string, size,
  finish,
}
use justdbd.Serialization.Reader
use justdbd.Serialization.Reader.{
  Reader, read_u8, read_u16, read_u32, read_u64, read_string, read_bytes,
}

pub data Wire : Type 0 where
  u8 u16 u32 u64 string vec_u8 : Wire

-- A `String` is the list of its UTF-8 bytes.
abbrev pub Carrier : Wire → Type 0
Carrier string = List ℕ
Carrier vec_u8 = List ℕ
Carrier _ = ℕ

-- a method of `Serializer`, which always answers `Ok(())`
abbrev written : (Serializer → Serializer) → Method Serializer StorageError (Unit {0})
written write s = (ok tt, write s)

serialize_into : (w : Wire) → Carrier w → Method Serializer StorageError (Unit {0})
serialize_into u8 v = written (write_u8 v)
serialize_into u16 v = written (write_u16 v)
serialize_into u32 v = written (write_u32 v)
serialize_into u64 v = written (write_u64 v)
serialize_into string v = written (write_string v)
serialize_into vec_u8 v = written λ s. write_bytes v (write_u32 (length v % 2 ^ 32) s)

pub deserialize : (w : Wire) → Reader (Carrier w)
deserialize u8 = read_u8
deserialize u16 = read_u16
deserialize u32 = read_u32
deserialize u64 = read_u64
deserialize string = read_string
deserialize vec_u8 = do len ← read_u32; bytes ← read_bytes len; return bytes

-- `utils::serialize`
pub serialize : (w : Wire) → Carrier w → Result (List ℕ)
unfolding serialize_into
serialize w v = let (r, s) = serialize_into w v new in and_then r λ _. ok (finish s)

-- `utils::serialized_sized`
pub serialized_sized : (w : Wire) → Carrier w → Result ℕ
unfolding serialize_into
serialized_sized w v = let (r, s) = serialize_into w v new in and_then r λ _. ok (size s)

-- `utils::deseriaze`
pub deseriaze : (w : Wire) → List ℕ → Result (Carrier w)
unfolding deserialize
deseriaze w bytes = (deserialize w (Reader.new bytes)).0
