-- ===== src/Bloom.antt =====
-- src/bloom.rs: the Bloom filter. The two hash functions, `DefaultHasher` of the standard library
-- and `blake3`, and the floating-point numbers are parameters.
pub mod Format
pub mod Membership
pub mod Merge
mod Tests
use Prim.Native.Nat.{bit_and, bit_or}
use justdbd.Common.{
  ℕ, zero, suc, ◌+◌, ◌*◌, ◌/◌, ◌%◌, ◌^◌, min, max, Bool, true, false, not, ◌||◌, List, [], ◌∷◌,
  ◌++◌, none, some, ltb, ◌==◌, length, get_elem?, take, drop, replicate, if◌then◌else◌,
}
use justdbd.Common.Bytes.{le_bytes, from_le}
use justdbd.Common.Float.{F64}
use justdbd.Common.Outcome.{Outcome, ok, err, panic, and_then}
use justdbd.Error.{StorageError, Result, corruption, invalid_operation}

-- The hash functions that the filter calls.
pub record Hashes : Type 0 where
  -- `element.hash(&mut DefaultHasher)` on a byte slice, and on a `usize`
  pub default_bytes : List ℕ → ℕ
  pub default_usize : ℕ → ℕ
  -- the digest of `blake3`, 32 bytes
  pub blake3 : List ℕ → List ℕ

pub record BloomFilter : Type 0 where
  pub bits : List ℕ
  pub bit_count : ℕ
  pub hash_count : ℕ
  pub element_count : ℕ

-- a filter of so many bits, all clear
abbrev sized : ℕ → ℕ → BloomFilter
sized bit_count hash_count = record {
  bits = replicate (bit_count * 7 % 2 ^ 64 / 8) 0;
  bit_count = bit_count;
  hash_count = hash_count;
  element_count = 0;
}

module _ (f : F64) where
  open f use {of_usize, to_usize, neg, mul, div, ln, ceil, powi}

  -- m = -n * ln(p) / ln(2)^2
  abbrev wanted_bits : ℕ → f.Carrier → ℕ
  wanted_bits n p = to_usize (ceil (div (mul (neg (of_usize n)) (ln p)) (powi (ln (of_usize 2)) 2)))

  -- k = (m / n) * ln(2)
  abbrev wanted_hashes : ℕ → ℕ → ℕ
  wanted_hashes bit_count n =
      to_usize (ceil (mul (div (of_usize bit_count) (of_usize n)) (ln (of_usize 2))))

  unfoldable pub new : ℕ → f.Carrier → BloomFilter
  new expected_elements rate =
      if expected_elements == 0
      then record { bits = 0 ∷ []; bit_count = 8; hash_count = 1; element_count = 0 }
      else let bit_count = max (wanted_bits expected_elements rate) 64 in
        sized bit_count (min (max (wanted_hashes bit_count expected_elements) 1) 10)

abbrev header_size : ℕ
header_size = 12

-- the bytes that hold `n` bits
abbrev pub byte_count : ℕ → ℕ
byte_count n = (n + 7) / 8

-- `u32::from_le_bytes` of the four bytes from `i`
abbrev word_at : ℕ → List ℕ → ℕ
word_at i bytes = from_le (take 4 (drop i bytes))

unfoldable pub from_bytes : List ℕ → Result BloomFilter
from_bytes input =
    if ltb (length input) header_size
    then err (corruption "bloom filter data too short")
    else let bit_count = word_at 0 input in
      let expected = header_size + byte_count bit_count in
      if not (length input == expected)
      then err (corruption "invalid bloom filter data length")
      else ok (record {
        bits = drop header_size input;
        bit_count = bit_count;
        hash_count = word_at 4 input;
        element_count = word_at 8 input;
      })

unfoldable pub to_bytes : BloomFilter → List ℕ
to_bytes b =
    le_bytes 4 (b.bit_count % 2 ^ 32)
    ++ (le_bytes 4 (b.hash_count % 2 ^ 32) ++ (le_bytes 4 (b.element_count % 2 ^ 32) ++ b.bits))

-- `hash % self.bit_count as u64`, which panics on a divisor of zero
abbrev bit_index : ℕ → BloomFilter → Result ℕ
bit_index hash b = if b.bit_count == 0 then panic else ok (hash % b.bit_count)

pub get_bit : BloomFilter → ℕ → Bool
get_bit b index = elim (get_elem? b.bits (index / 8)) [
  | none ↦ false
  | some byte ↦ not (bit_and byte (2 ^ (index % 8)) == 0)
]

module _ (hashes : Hashes) where
  open hashes use {default_bytes, default_usize, blake3}

  -- The method hashes the index and returns the hash; the bits are as before.
  pub set_bit : ℕ → BloomFilter → ℕ × BloomFilter
  set_bit index b = (default_usize index, b)

  hash_default : List ℕ → ℕ
  hash_default element = default_bytes element

  hash_blake3 : List ℕ → ℕ
  hash_blake3 element = from_le (take 8 (blake3 element))

  -- the hashes number `i` and on, `n` of them: h_i(x) = h1(x) + i * h2(x), in 64 bits
  hash_from : ℕ → ℕ → ℕ → ℕ → List ℕ
  hash_from zero i hash1 hash2 = []
  hash_from (suc n) i hash1 hash2 =
      ((hash1 + i * hash2 % 2 ^ 64) % 2 ^ 64) ∷ hash_from n (i + 1) hash1 hash2

  pub hash_element : BloomFilter → List ℕ → List ℕ
  unfolding hash_from hash_default hash_blake3
  hash_element b element = hash_from b.hash_count 0 (hash_blake3 element) (hash_default element)

  -- the loop of `add`
  add_hashes : List ℕ → BloomFilter → Result BloomFilter
  unfolding set_bit
  add_hashes [] b = ok b
  add_hashes (hash ∷ rest) b =
      and_then (bit_index hash b) λ index. add_hashes rest (set_bit index b).1

  unfoldable pub add : List ℕ → BloomFilter → Result BloomFilter
  unfolding add_hashes hash_element
  add element b =
      and_then (add_hashes (hash_element b element) b)
        λ b'. ok (record b' { element_count = (b'.element_count + 1) % 2 ^ 64 })

  -- the loop of `might_contain`
  has_hashes : List ℕ → BloomFilter → Result Bool
  unfolding get_bit
  has_hashes [] b = ok true
  has_hashes (hash ∷ rest) b =
      let later = has_hashes rest b in
      and_then (bit_index hash b) λ index. if not (get_bit b index) then ok false else later

  pub might_contain : List ℕ → BloomFilter → Result Bool
  unfolding has_hashes hash_element
  might_contain element b = has_hashes (hash_element b element) b

pub clear : BloomFilter → BloomFilter
clear b = record b { bits = replicate (length b.bits) 0; element_count = 0 }

pub is_empty : BloomFilter → Bool
is_empty b = b.element_count == 0

-- `self.bits[i] |= byte` for each byte of the other filter, as far as there are bytes here
merge_bits : List ℕ → List ℕ → List ℕ
merge_bits [] other = []
merge_bits (byte ∷ rest) [] = byte ∷ rest
merge_bits (byte ∷ rest) (mask ∷ other) = bit_or byte mask ∷ merge_bits rest other

-- The other filter is read through a shared reference; an error leaves `self` as it was.
pub merge : BloomFilter → BloomFilter → Outcome StorageError (Unit {0}) × BloomFilter
unfolding merge_bits
merge other b =
    if not (b.bit_count == other.bit_count) || not (b.hash_count == other.hash_count)
    then (err (invalid_operation "cannot merge bloom filters with different config"), b)
    else (
      ok tt,
      record b {
        bits = merge_bits b.bits other.bits;
        element_count = (b.element_count + other.element_count) % 2 ^ 64;
      },
    )
