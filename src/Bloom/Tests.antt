-- ===== src/Bloom/Tests.antt =====
-- src/bloom.rs: examples. `plain` has hash functions that add the bytes up.
use justdbd.Common.{ℕ, ◌+◌, ◌≡◌, refl, true, false, List, [], ◌∷◌, arith}
use justdbd.Common.Bytes.{le_bytes, from_le}
use justdbd.Common.Whole.{whole}
use justdbd.Common.Outcome.{ok, err}
use justdbd.Error.{corruption}
use justdbd.Bloom.{Hashes, BloomFilter, new, from_bytes, to_bytes, might_contain, clear, is_empty}
use justdbd.Bloom.Format.{IsStorable, to_bytes-from_bytes, from_bytes-new}
use justdbd.Bloom.Membership.{add_all, might_contain-add_all}

sum : List ℕ → ℕ
sum [] = 0
sum (b ∷ bs) = b + sum bs

abbrev plain : Hashes
unfolding sum
plain = record {
  default_bytes = sum;
  default_usize = λ i. i;
  blake3 = λ bytes. le_bytes 32 (sum bytes);
}

-- natural numbers in place of `f64`

abbrev name : List ℕ
name = 110 ∷ []

-- sixteen bits, two of them set
abbrev two_bits : BloomFilter
two_bits = record { bits = 1 ∷ 128 ∷ []; bit_count = 16; hash_count = 2; element_count = 1 }

abbrev other : BloomFilter
other = record { bits = 2 ∷ 128 ∷ []; bit_count = 16; hash_count = 2; element_count = 3 }

abbrev wider : BloomFilter
wider = record { bits = 0 ∷ 0 ∷ 0 ∷ []; bit_count = 24; hash_count = 2; element_count = 0 }

two_bits-IsStorable : IsStorable two_bits
two_bits-IsStorable = record {
  bits_fit = omega arith;
  hashes_fit = omega arith;
  elements_fit = omega arith;
  width = refl;
}

abbrev image : List ℕ
image = 16 ∷ 0 ∷ 0 ∷ 0 ∷ 2 ∷ 0 ∷ 0 ∷ 0 ∷ 1 ∷ 0 ∷ 0 ∷ 0 ∷ 1 ∷ 128 ∷ []

image_read : from_bytes image ≡ ok two_bits
unfolding from_bytes from_le
image_read = refl

to_bytes-from_bytes_example : (to_bytes two_bits ≡ image) × IsStorable two_bits
to_bytes-from_bytes_example =
    to_bytes-from_bytes image
      (
        omega arith,
        (
          omega arith,
          (
            omega arith,
            (
              omega arith,
              (
                omega arith,
                (
                  omega arith,
                  (
                    omega arith,
                    (
                      omega arith,
                      (
                        omega arith,
                        (
                          omega arith,
                          (omega arith, (omega arith, (omega arith, (omega arith, tt)))),
                        ),
                      ),
                    ),
                  ),
                ),
              ),
            ),
          ),
        ),
      )
      image_read

from_bytes-new_example :
    (b : BloomFilter) × (add_all plain (name ∷ []) (new whole 4 1) ≡ ok b)
    × (from_bytes (to_bytes b) ≡ err (corruption "invalid bloom filter data length"))
unfolding new
from_bytes-new_example = from_bytes-new plain whole 4 1 (name ∷ []) (omega arith) (omega arith)

might_contain-add_all_example :
    (b : BloomFilter) × (add_all plain (name ∷ []) (new whole 4 1) ≡ ok b)
    × (might_contain plain name b ≡ ok false)
might_contain-add_all_example = might_contain-add_all plain whole 4 1 (name ∷ []) name

cleared :
    ((clear two_bits).bits ≡ 0 ∷ 0 ∷ [])
    × (is_empty (clear two_bits) ≡ true)
    × (is_empty two_bits ≡ false)
unfolding clear is_empty
cleared = (refl, refl, refl)
