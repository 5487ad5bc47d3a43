-- ===== src/Serialization/Wire/RoundTrip.antt =====
-- src/serialization.rs: `utils::serialize` and `utils::deseriaze`.
use native.Mathlib.Nat.{mod-eq_of_lt}
use justdbd.Common.{
  ℕ, ◌+◌, ◌%◌, ◌^◌, ◌<◌, ◌≡◌, ◌≢◌, ◌↔◌, refl, ap, true, lt_cases, inl, inr, List, [], ◌∷◌, ◌++◌,
  arith, length, All, length-append,
}
use justdbd.Common.Bytes.{Byte, le_bytes, length-le_bytes}
use justdbd.Common.Outcome.{ok, panic, return}
use justdbd.Serialization.Utf8.{is_utf8}
use justdbd.Serialization.Writer.{
  write_u8, write_u16, write_u32, write_u64, write_bytes, write_string, size, finish,
}
use justdbd.Serialization.Reader.{
  Deserializer, utf8, read_u8, read_u16, read_u32, read_u64, read_string, read_bytes,
}
use justdbd.Serialization.Reader.Consumes.{
  Consumes, Consumes-bind, Consumes-bind_last, Consumes-return, Consumes-new, read_u8-Consumes,
  read_u16-Consumes, read_u32-Consumes, read_u64-Consumes, read_bytes-Consumes,
  read_string-Consumes,
}
use justdbd.Serialization.Reader.Safe.{Safe, Safe-bind, Safe-return, Safe-imp, Safe-new-ne-panic}
use justdbd.Serialization.Reader.Total.{
  read_u8-Safe, read_u16-Safe, read_u32-Safe, read_u64-Safe, read_string-Safe, read_bytes-Safe,
}
use justdbd.Serialization.Wire.Truncation.{truncated}
use justdbd.Serialization.Wire.{
  Wire, u8, u16, u32, u64, string, vec_u8, Carrier, deserialize, serialize, serialized_sized,
  deseriaze,
}

-- The values of the Rust type; a sequence is shorter than 2 ^ 61 bytes.
abbrev pub Admits : (w : Wire) → Carrier w → Type 0
Admits u8 v = v < 2 ^ 8
Admits u16 v = v < 2 ^ 16
Admits u32 v = v < 2 ^ 32
Admits u64 v = v < 2 ^ 64
Admits string v = (length v < 2 ^ 61) × (is_utf8 v ≡ true)
Admits vec_u8 v = length v < 2 ^ 61

-- The length of a sequence fits the 32 bits that are written for it.
abbrev pub HasShortLength : (w : Wire) → Carrier w → Type 0
HasShortLength string v = length v < 2 ^ 32
HasShortLength vec_u8 v = length v < 2 ^ 32
HasShortLength _ v = Unit

-- The bytes that are written.
layout : (w : Wire) → Carrier w → List ℕ
layout u8 v = v ∷ []
layout u16 v = le_bytes 2 v
layout u32 v = le_bytes 4 v
layout u64 v = le_bytes 8 v
layout string v = le_bytes 4 (length v % 2 ^ 32) ++ v
layout vec_u8 v = le_bytes 4 (length v % 2 ^ 32) ++ v

serialize-layout : (w : Wire) (v : Carrier w) → serialize w v ≡ ok (layout w v)
unfolding serialize layout finish write_u8 write_u16 write_u32 write_u64 write_bytes write_string
serialize-layout string v = refl
serialize-layout vec_u8 v = refl
serialize-layout u8 v = refl
serialize-layout u16 v = refl
serialize-layout u32 v = refl
serialize-layout u64 v = refl

serialized_sized-layout :
    (w : Wire) (v : Carrier w) → serialized_sized w v ≡ ok (length (layout w v))
unfolding serialized_sized layout size write_u8 write_u16 write_u32 write_u64 write_bytes
    write_string
serialized_sized-layout string v = refl
serialized_sized-layout vec_u8 v = refl
serialized_sized-layout u8 v = refl
serialized_sized-layout u16 v = refl
serialized_sized-layout u32 v = refl
serialized_sized-layout u64 v = refl

deserialize-Consumes :
    (w : Wire) (v : Carrier w)
    → Admits w v
    → HasShortLength w v
    → Consumes (deserialize w) (layout w v) v
unfolding deserialize layout
deserialize-Consumes u8 v h short = read_u8-Consumes v
deserialize-Consumes u16 v h short = read_u16-Consumes v h
deserialize-Consumes u32 v h short = read_u32-Consumes v h
deserialize-Consumes u64 v h short = read_u64-Consumes v h
deserialize-Consumes string v h short = rw (mod-eq_of_lt short) (read_string-Consumes v short h.1)
deserialize-Consumes vec_u8 v h short = rw (mod-eq_of_lt short) (
    Consumes-bind read_u32 _ (le_bytes 4 (length v)) v (read_u32-Consumes (length v) short) (
      Consumes-bind_last (read_bytes (length v)) _ v (read_bytes-Consumes (length v) v refl)
        (Consumes-return v)))

length-layout-lt : (w : Wire) (v : Carrier w) → Admits w v → length (layout w v) < 2 ^ 61 + 8
unfolding layout
length-layout-lt u8 v h = omega arith
length-layout-lt u16 v h = omega (arith, length-le_bytes 2 v)
length-layout-lt u32 v h = omega (arith, length-le_bytes 4 v)
length-layout-lt u64 v h = omega (arith, length-le_bytes 8 v)
length-layout-lt string v h =
    let prefix = le_bytes 4 (length v % 2 ^ 32) in
    omega (arith, length-append prefix v, length-le_bytes 4 (length v % 2 ^ 32), h.0)
length-layout-lt vec_u8 v h =
    let prefix = le_bytes 4 (length v % 2 ^ 32) in
    omega (arith, length-append prefix v, length-le_bytes 4 (length v % 2 ^ 32))

deseriaze-layout :
    (w : Wire) (v : Carrier w) (rest : List ℕ)
    → Admits w v
    → HasShortLength w v
    → length rest < 2 ^ 62
    → deseriaze w (layout w v ++ rest) ≡ ok v
unfolding deseriaze
deseriaze-layout w v rest h short room =
    ap (λ p. p.0)
      (Consumes-new (deserialize w) (layout w v) rest (deserialize-Consumes w v h short)
        (omega (arith, length-append (layout w v) rest, length-layout-lt w v h)))

utf8-itself : (v bytes : List ℕ) (d : Deserializer) → (utf8 bytes d).0 ≡ ok v → bytes ≡ v
unfolding utf8
utf8-itself v bytes d h = grind arith

short-of_deseriaze :
    (w : Wire) (v : Carrier w) (rest : List ℕ)
    → Admits w v
    → length rest < 2 ^ 62
    → deseriaze w (layout w v ++ rest) ≡ ok v
    → HasShortLength w v
unfolding deseriaze deserialize layout read_string
short-of_deseriaze u8 v rest h room same = tt
short-of_deseriaze u16 v rest h room same = tt
short-of_deseriaze u32 v rest h room same = tt
short-of_deseriaze u64 v rest h room same = tt
short-of_deseriaze string v rest h room same = elim (lt_cases (length v) (2 ^ 32)) [
  | inl short ↦ short
  | inr long ↦ absurd (
      truncated utf8 (length v % 2 ^ 32) v rest (utf8-itself v) (omega arith) (omega arith)
        (omega (arith, h.0)) same)
]
short-of_deseriaze vec_u8 v rest h room same = elim (lt_cases (length v) (2 ^ 32)) [
  | inl short ↦ short
  | inr long ↦ absurd (
      truncated (λ bytes. return bytes) (length v % 2 ^ 32) v rest (λ bytes d e. cc) (omega arith)
        (omega arith) (omega arith) same)
]

-- A value of its type, a sequence of fewer than 2 ^ 61 bytes, is serialized without an error, and the
-- reported size is that of the output. The output, whatever follows it in fewer than 2 ^ 62 bytes, is
-- read back as the value for every number, and for a sequence exactly if it has fewer than 2 ^ 32
-- bytes.
pub deseriaze-serialize :
    (w : Wire) (v : Carrier w) (rest : List ℕ)
    → Admits w v
    → length rest < 2 ^ 62
    → (out : List ℕ) × (serialize w v ≡ ok out)
      × (serialized_sized w v ≡ ok (length out))
      × ((deseriaze w (out ++ rest) ≡ ok v) ↔ HasShortLength w v)
deseriaze-serialize w v rest h room = (
  layout w v,
  serialize-layout w v,
  serialized_sized-layout w v,
  (short-of_deseriaze w v rest h room, λ short. deseriaze-layout w v rest h short room),
)

deserialize-Safe : (w : Wire) → Safe (λ _. Unit {0}) (deserialize w)
unfolding deserialize
deserialize-Safe u8 = Safe-imp _ _ (λ _ _. tt) read_u8 read_u8-Safe
deserialize-Safe u16 = Safe-imp _ _ (λ _ _. tt) read_u16 read_u16-Safe
deserialize-Safe u32 = Safe-imp _ _ (λ _ _. tt) read_u32 read_u32-Safe
deserialize-Safe u64 = Safe-imp _ _ (λ _ _. tt) read_u64 read_u64-Safe
deserialize-Safe string = Safe-imp _ _ (λ _ _. tt) read_string read_string-Safe
deserialize-Safe vec_u8 = Safe-bind read_u32 _ read_u32-Safe λ len small.
    Safe-bind (read_bytes len) _ (read_bytes-Safe len (omega arith)) λ bytes q. Safe-return bytes tt

-- No sequence of fewer than 2 ^ 63 bytes makes `deseriaze` panic, for any of the six types.
pub deseriaze-ne-panic :
    (w : Wire) (input : List ℕ) → All Byte input → length input < 2 ^ 63 → deseriaze w input ≢ panic
unfolding deseriaze
deseriaze-ne-panic w input h room = Safe-new-ne-panic _ (deserialize-Safe w) input h room
