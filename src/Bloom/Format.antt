-- ===== src/Bloom/Format.antt =====
-- src/bloom.rs: `to_bytes` and `from_bytes`.
use native.Mathlib.Nat.{mod-eq_of_lt}
use justdbd.Common.{
  ℕ, ◌+◌, ◌*◌, ◌/◌, ◌%◌, ◌^◌, ◌≤◌, ◌<◌, ◌≡◌, ◌≢◌, refl, false, List, ◌++◌, arith, ◌==◌, length,
  take, drop, min, max, All, All-drop, All-take, length-take-le, drop-drop, take-append-drop,
  length-drop, length-replicate,
}
use justdbd.Common.Bytes.{Byte, le_bytes, from_le, from_le-le_bytes, le_bytes-from_le, from_le-lt}
use justdbd.Common.Float.{F64}
use justdbd.Common.Outcome.{ok, err}
use justdbd.Error.{corruption}
use justdbd.Bloom.{
  Hashes, BloomFilter, wanted_bits, wanted_hashes, sized, new, word_at, byte_count, from_bytes,
  to_bytes,
}
use justdbd.Bloom.Membership.{add_all, add_all-counts, new-IsBlank}

-- The counts fit 32 bits, and there are as many bytes as the bits need.
pub record IsStorable (b : BloomFilter) : Type 0 where
  pub bits_fit : b.bit_count < 2 ^ 32
  pub hashes_fit : b.hash_count < 2 ^ 32
  pub elements_fit : b.element_count < 2 ^ 32
  pub width : length b.bits ≡ byte_count b.bit_count

from_le-cast : (v : ℕ) → from_le (le_bytes 4 (v % 2 ^ 32)) ≡ v % 2 ^ 32
from_le-cast v = from_le-le_bytes 4 (v % 2 ^ 32) (omega arith)

module _ (b : BloomFilter) where
  pub length-to_bytes : length (to_bytes b) ≡ 12 + length b.bits
  unfolding to_bytes le_bytes
  length-to_bytes = omega arith

  bits-to_bytes : drop 12 (to_bytes b) ≡ b.bits
  unfolding to_bytes le_bytes
  bits-to_bytes = refl

  bit_count-to_bytes : word_at 0 (to_bytes b) ≡ b.bit_count % 2 ^ 32
  unfolding to_bytes le_bytes
  bit_count-to_bytes = from_le-cast b.bit_count

  hash_count-to_bytes : word_at 4 (to_bytes b) ≡ b.hash_count % 2 ^ 32
  unfolding to_bytes le_bytes
  hash_count-to_bytes = from_le-cast b.hash_count

  element_count-to_bytes : word_at 8 (to_bytes b) ≡ b.element_count % 2 ^ 32
  unfolding to_bytes le_bytes
  element_count-to_bytes = from_le-cast b.element_count

-- A filter whose counts fit 32 bits and whose byte array has the length that its bit count asks
-- for is read back from its bytes.
pub from_bytes-to_bytes : (b : BloomFilter) → IsStorable b → from_bytes (to_bytes b) ≡ ok b
unfolding from_bytes
from_bytes-to_bytes b v = ground (
  arith,
  length-to_bytes b,
  bits-to_bytes b,
  bit_count-to_bytes b,
  hash_count-to_bytes b,
  element_count-to_bytes b,
  mod-eq_of_lt v.bits_fit,
  mod-eq_of_lt v.hashes_fit,
  mod-eq_of_lt v.elements_fit,
)

-- A filter whose byte array has another length is refused when it is read back.
from_bytes-wrong_width :
    (b : BloomFilter)
    → b.bit_count < 2 ^ 32
    → length b.bits ≢ byte_count b.bit_count
    → from_bytes (to_bytes b) ≡ err (corruption "invalid bloom filter data length")
unfolding from_bytes
from_bytes-wrong_width b h wrong =
    ground (arith, length-to_bytes b, bit_count-to_bytes b, mod-eq_of_lt h)

sized-width :
    (bit_count hash_count : ℕ)
    → 64 ≤ bit_count
    → bit_count < 2 ^ 32
    → length (sized bit_count hash_count).bits ≢ byte_count bit_count
sized-width bit_count hash_count large fits =
    rw (length-replicate {A = ℕ} (bit_count * 7 % 2 ^ 64 / 8) 0) (omega arith)

new-sized :
    (f : F64) (n : ℕ) (rate : f.Carrier)
    → 0 < n
    → (bit_count hash_count : ℕ) × (new f n rate ≡ sized bit_count hash_count) × (64 ≤ bit_count)
unfolding new
new-sized f n rate pos =
    let some_expected : (n == 0) ≡ false = ground arith in
    let bit_count = max (wanted_bits f n rate) 64 in
    (bit_count, min (max (wanted_hashes f bit_count n) 1) 10, rw some_expected, omega arith)

-- The constructor of a non-empty filter makes `bit_count * 7 / 8` bytes, not `(bit_count + 7) / 8`.
new-width :
    (f : F64) (n : ℕ) (rate : f.Carrier)
    → 0 < n
    → (new f n rate).bit_count < 2 ^ 32
    → length (new f n rate).bits ≢ byte_count (new f n rate).bit_count
new-width f n rate pos h =
    let (bit_count, hash_count, e, large) = new-sized f n rate pos in
    rw e (sized-width bit_count hash_count large (rw e at h))

word_at-lt :
    (i : ℕ) (input : List ℕ) → All Byte input → i + 4 ≤ length input → word_at i input < 2 ^ 32
word_at-lt i input h room =
    let size : length (take 4 (drop i input)) ≡ 4 =
      length-take-le 4 (drop i input) (omega (arith, length-drop i input)) in
    rw size at (
      from_le-lt (take 4 (drop i input)) (All-take Byte 4 (drop i input) (All-drop Byte i input h)))

-- A word of the header is written back as it stood there.
word-back :
    (i : ℕ) (input : List ℕ)
    → All Byte input
    → i + 4 ≤ length input
    → le_bytes 4 (word_at i input % 2 ^ 32) ++ drop (i + 4) input ≡ drop i input
word-back i input h room =
    let word = take 4 (drop i input) in
    let size : length word ≡ 4 =
      length-take-le 4 (drop i input) (omega (arith, length-drop i input)) in
    let bytes = All-take Byte 4 (drop i input) (All-drop Byte i input h) in
    let back : le_bytes 4 (from_le word) ≡ word = rw size at (le_bytes-from_le word bytes) in
    let small = word_at-lt i input h room in
    rw (mod-eq_of_lt small, back, ← drop-drop i 4 input) (take-append-drop 4 (drop i input))

abbrev parsed : List ℕ → BloomFilter
parsed input = record {
  bits = drop 12 input;
  bit_count = word_at 0 input;
  hash_count = word_at 4 input;
  element_count = word_at 8 input;
}

accepted :
    (input : List ℕ) {b : BloomFilter}
    → from_bytes input ≡ ok b
    → (12 ≤ length input) × (length input ≡ 12 + byte_count (word_at 0 input)) × (b ≡ parsed input)
unfolding from_bytes
accepted input e = ground arith

header_back :
    (input : List ℕ) → All Byte input → 12 ≤ length input → to_bytes (parsed input) ≡ input
unfolding to_bytes
header_back input h long = simp (
  word-back 8 input h (omega arith),
  word-back 4 input h (omega arith),
  word-back 0 input h (omega arith),
)

-- The bytes that `from_bytes` accepts, `to_bytes` writes back as they were; the result has the width that its
-- bit count asks for.
pub to_bytes-from_bytes :
    (input : List ℕ) {b : BloomFilter}
    → All Byte input
    → from_bytes input ≡ ok b
    → (to_bytes b ≡ input) × IsStorable b
to_bytes-from_bytes input {b} h e =
    let (long, width, same) = accepted input e in
    rw same (
      header_back input h long,
      record {
        bits_fit = word_at-lt 0 input h (omega arith);
        hashes_fit = word_at-lt 4 input h (omega arith);
        elements_fit = word_at-lt 8 input h (omega arith);
        width = omega (arith, length-drop 12 input);
      },
    )

-- If a new filter for at least one element has a bit count that fits 32 bits, then after any
-- additions to it its bytes are refused when they are read back.
pub from_bytes-new :
    (hashes : Hashes) (f : F64) (n : ℕ) (rate : f.Carrier) (elements : List (List ℕ))
    → 0 < n
    → (new f n rate).bit_count < 2 ^ 32
    → (b : BloomFilter) × (add_all hashes elements (new f n rate) ≡ ok b)
      × (from_bytes (to_bytes b) ≡ err (corruption "invalid bloom filter data length"))
from_bytes-new hashes f n rate elements pos h =
    let b = new f n rate in
    let (count, run) = add_all-counts hashes elements b (new-IsBlank f n rate).sized in
    (
      record b { element_count = count },
      run,
      from_bytes-wrong_width (record b { element_count = count }) h (new-width f n rate pos h),
    )
