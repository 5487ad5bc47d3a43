-- ===== src/Bloom/Merge.antt =====
-- src/bloom.rs: `merge` and `clear`.
use Prim.Native.Nat.{bit_and, bit_or}
use native.Mathlib.Nat.{one-le-pow}
use justdbd.Common.{
  ℕ, zero, suc, ◌+◌, ◌*◌, ◌/◌, ◌%◌, ◌^◌, ◌≤◌, ◌≡◌, ◌≢◌, refl, ap, ◌⊎◌, lt_cases, get_elem?-below,
  Bool, false, not, ◌||◌, List, [], ◌∷◌, none, some, arith, ◌==◌, length, get_elem?, inl, inr,
}
use justdbd.Common.Bits.{digit, digit-bit_or, digit-le-one, bit_and-two_pow}
use justdbd.Common.Outcome.{ok, err}
use justdbd.Error.{invalid_operation}
use justdbd.Bloom.{BloomFilter, get_bit, merge_bits, merge}

-- One bit of one byte.
bit_of : ℕ → ℕ → Bool
bit_of j byte = not (bit_and byte (2 ^ j) == 0)

digit_mask : (d u : ℕ) → d ≤ 1 → 1 ≤ u → not (d * u == 0) ≡ (d == 1)
digit_mask zero u hd hu = ground arith
digit_mask (suc zero) u hd hu = ground arith
digit_mask (suc (suc d)) u hd hu = absurd (omega arith)

bit_of-digit : (j byte : ℕ) → bit_of j byte ≡ (digit j byte == 1)
unfolding bit_of
bit_of-digit j byte =
    rw (bit_and-two_pow j byte)
      (digit_mask (digit j byte) (2 ^ j) (digit-le-one j byte) (one-le-pow j 2 (omega arith)))

bit_of-bit_or : (j a b : ℕ) → bit_of j (bit_or a b) ≡ (bit_of j a || bit_of j b)
bit_of-bit_or j a b =
    rw (bit_of-digit j (bit_or a b), bit_of-digit j a, bit_of-digit j b, digit-bit_or j a b)
      (ground (arith, digit-le-one j a, digit-le-one j b))

get_elem?-merge_bits :
    (here there : List ℕ) (i : ℕ) {a b : ℕ}
    → get_elem? here i ≡ some a
    → get_elem? there i ≡ some b
    → get_elem? (merge_bits here there) i ≡ some (bit_or a b)
unfolding merge_bits
get_elem?-merge_bits [] there i h k = cc
get_elem?-merge_bits (x ∷ here) [] i h k = cc
get_elem?-merge_bits (x ∷ here) (y ∷ there) zero h k = ground arith
get_elem?-merge_bits (x ∷ here) (y ∷ there) (suc i) h k = get_elem?-merge_bits here there i h k

length-merge_bits : (here there : List ℕ) → length (merge_bits here there) ≡ length here
unfolding merge_bits
length-merge_bits [] there = refl
length-merge_bits (x ∷ here) [] = refl
length-merge_bits (x ∷ here) (y ∷ there) = ap suc (length-merge_bits here there)

get_elem?-beyond : (xs : List ℕ) (i : ℕ) → length xs ≤ i → get_elem? xs i ≡ none
get_elem?-beyond [] i h = refl
get_elem?-beyond (x ∷ xs) zero h = absurd (omega arith)
get_elem?-beyond (x ∷ xs) (suc i) h = get_elem?-beyond xs i (omega arith)

get_bit-inside :
    (b : BloomFilter) (i : ℕ) {byte : ℕ}
    → get_elem? b.bits (i / 8) ≡ some byte
    → get_bit b i ≡ bit_of (i % 8) byte
unfolding get_bit bit_of
get_bit-inside b i h = rw (h, get_bit)

get_bit-outside : (b : BloomFilter) (i : ℕ) → length b.bits ≤ i / 8 → get_bit b i ≡ false
unfolding get_bit
get_bit-outside b i h = rw (get_elem?-beyond b.bits (i / 8) h, get_bit)

module _ (b other : BloomFilter) (bits : b.bit_count ≡ other.bit_count)
    (hashes : b.hash_count ≡ other.hash_count) (width : length b.bits ≡ length other.bits) where
  abbrev merged : BloomFilter
  merged = record b {
    bits = merge_bits b.bits other.bits;
    element_count = (b.element_count + other.element_count) % 2 ^ 64;
  }

  merge-merged : merge other b ≡ (ok tt, merged)
  unfolding merge
  merge-merged = ground arith

  get_bit-merged : (i : ℕ) → get_bit merged i ≡ (get_bit b i || get_bit other i)
  get_bit-merged i = elim (lt_cases (i / 8) (length b.bits)) [
    | inl inside ↦
        let (here, h) = get_elem?-below (i / 8) b.bits inside in
        let (there, k) = get_elem?-below (i / 8) other.bits (omega arith) in
        rw
          (
            get_bit-inside merged i (get_elem?-merge_bits b.bits other.bits (i / 8) h k),
            get_bit-inside b i h,
            get_bit-inside other i k,
          )
          (bit_of-bit_or (i % 8) here there)
    | inr outside ↦ rw (
      get_bit-outside merged i (omega (arith, length-merge_bits b.bits other.bits)),
      get_bit-outside b i outside,
      get_bit-outside other i (omega arith),
    )
  ]

-- Two filters of one shape merge without an error; a bit of the result is set when it is set in
-- either, the elements are added up (in 64 bits), and the shape stays.
pub get_bit-merge :
    (b other : BloomFilter)
    → b.bit_count ≡ other.bit_count
    → b.hash_count ≡ other.hash_count
    → length b.bits ≡ length other.bits
    → ((merge other b).0 ≡ ok tt)
      × ((i : ℕ) → get_bit (merge other b).1 i ≡ (get_bit b i || get_bit other i))
      × ((merge other b).1.element_count ≡ (b.element_count + other.element_count) % 2 ^ 64)
      × ((merge other b).1.bit_count ≡ b.bit_count)
      × ((merge other b).1.hash_count ≡ b.hash_count)
get_bit-merge b other bits hashes width =
    rw (merge-merged b other bits hashes width)
      (refl, get_bit-merged b other bits hashes width, refl, refl, refl)

-- Filters of two shapes are not merged, and the filter stays as it was.
pub merge-refused :
    (b other : BloomFilter)
    → (b.bit_count ≢ other.bit_count) ⊎ (b.hash_count ≢ other.hash_count)
    → merge other b
      ≡ (err (invalid_operation "cannot merge bloom filters with different config"), b)
unfolding merge
merge-refused b other differ = ground arith
