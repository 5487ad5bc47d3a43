-- ===== src/Bloom/Membership.antt =====
-- src/bloom.rs: what `add` and `might_contain` do together.
use justdbd.Common.{
  ℕ, zero, suc, ◌+◌, ◌/◌, ◌%◌, ◌^◌, ◌<◌, ◌≡◌, refl, false, List, [], ◌∷◌, some, arith, ◌==◌,
  get_elem?, replicate, Bool-cases, Option-cases, inl, inr,
}
use justdbd.Common.Bits.{digit-zero, bit_and-two_pow}
use justdbd.Common.Float.{F64}
use justdbd.Common.Outcome.{ok, and_then}
use justdbd.Error.{Result}
use justdbd.Bloom.{
  Hashes, BloomFilter, new, get_bit, set_bit, hash_from, hash_element, add_hashes, add, has_hashes,
  might_contain,
}

get_elem?-zeros : (n i : ℕ) {b : ℕ} → get_elem? (replicate n 0) i ≡ some b → b ≡ 0
get_elem?-zeros zero i h = cc
get_elem?-zeros (suc n) zero h = ground arith
get_elem?-zeros (suc n) (suc i) h = get_elem?-zeros n i h

-- A filter without a set bit.
pub record IsBlank (b : BloomFilter) : Type 0 where
  pub width : ℕ
  pub zeros : b.bits ≡ replicate width 0
  pub sized : 0 < b.bit_count
  pub hashed : 0 < b.hash_count

get_bit-IsBlank : (b : BloomFilter) (i : ℕ) → IsBlank b → get_bit b i ≡ false
unfolding get_bit
get_bit-IsBlank b i v = elim (Option-cases (get_elem? b.bits (i / 8))) [
  | inl outside ↦ rw (outside, get_bit)
  | inr (byte, inside) ↦
      let clear : byte ≡ 0 = get_elem?-zeros v.width (i / 8) (rw v.zeros at inside) in
      rw (inside, get_bit) (ground (arith, clear, bit_and-two_pow (i % 8) byte, digit-zero (i % 8)))
]

pub new-IsBlank : (f : F64) (n : ℕ) (rate : f.Carrier) → IsBlank (new f n rate)
unfolding new
new-IsBlank f n rate = elim (Bool-cases (n == 0)) [
  | inl none_expected ↦
      rw none_expected
        (record { width = 1; zeros = refl; sized = omega arith; hashed = omega arith })
  | inr some_expected ↦
      rw some_expected
        (record { width = _; zeros = refl; sized = omega arith; hashed = omega arith })
]

module _ (hashes : Hashes) where
  add_hashes-eq : (hs : List ℕ) (b : BloomFilter) → 0 < b.bit_count → add_hashes hashes hs b ≡ ok b
  unfolding add_hashes set_bit
  add_hashes-eq [] b h = refl
  add_hashes-eq (hash ∷ hs) b h =
      let sized : (b.bit_count == 0) ≡ false = ground arith in rw sized (add_hashes-eq hs b h)

  -- Adding an element to a filter with bits counts it, and changes nothing else.
  pub add-counts :
      (element : List ℕ) (b : BloomFilter)
      → 0 < b.bit_count
      → add hashes element b ≡ ok (record b { element_count = (b.element_count + 1) % 2 ^ 64 })
  unfolding add
  add-counts element b h = rw (add_hashes-eq (hash_element hashes b element) b h)

  has_hashes-IsBlank :
      (hash : ℕ) (hs : List ℕ) (b : BloomFilter)
      → IsBlank b
      → has_hashes hashes (hash ∷ hs) b ≡ ok false
  unfolding has_hashes
  has_hashes-IsBlank hash hs b v =
      let sized : (b.bit_count == 0) ≡ false = ground arith in
      rw (sized, get_bit-IsBlank b (hash % b.bit_count) v)

  hash_from-cons :
      (n i hash1 hash2 : ℕ)
      → 0 < n
      → (h : ℕ) × (hs : List ℕ) × (hash_from hashes n i hash1 hash2 ≡ h ∷ hs)
  unfolding hash_from
  hash_from-cons zero i hash1 hash2 h = absurd (omega arith)
  hash_from-cons (suc n) i hash1 hash2 h = (_, _, refl)

  hash_element-cons :
      (b : BloomFilter) (element : List ℕ)
      → 0 < b.hash_count
      → (h : ℕ) × (hs : List ℕ) × (hash_element hashes b element ≡ h ∷ hs)
  unfolding hash_element
  hash_element-cons b element h = hash_from-cons b.hash_count 0 _ _ h

  might_contain-IsBlank :
      (element : List ℕ) (b : BloomFilter) → IsBlank b → might_contain hashes element b ≡ ok false
  unfolding might_contain
  might_contain-IsBlank element b v =
      let (hash, hs, e) = hash_element-cons b element v.hashed in
      rw e (has_hashes-IsBlank hash hs b v)

  -- the calls of `add` by a writer
  pub add_all : List (List ℕ) → BloomFilter → Result BloomFilter
  add_all [] b = ok b
  add_all (element ∷ rest) b = and_then (add hashes element b) (add_all rest)

  -- The additions of a writer only count.
  pub add_all-counts :
      (elements : List (List ℕ)) (b : BloomFilter)
      → 0 < b.bit_count
      → (count : ℕ) × (add_all elements b ≡ ok (record b { element_count = count }))
  unfolding add_all
  add_all-counts [] b h = (b.element_count, refl)
  add_all-counts (element ∷ rest) b h =
      let next = (b.element_count + 1) % 2 ^ 64 in
      let (count, run) = add_all-counts rest (record b { element_count = next }) h in
      (count, rw (add-counts element b h) run)

  add_all-IsBlank :
      (elements : List (List ℕ)) (b : BloomFilter)
      → IsBlank b
      → (b' : BloomFilter) × (add_all elements b ≡ ok b') × IsBlank b'
  add_all-IsBlank elements b v =
      let (count, run) = add_all-counts elements b v.sized in
      (
        record b { element_count = count },
        run,
        record { width = v.width; zeros = v.zeros; sized = v.sized; hashed = v.hashed },
      )

  -- Whatever the expected count and the rate, and whatever has been added to a new filter, the
  -- filter then answers `false` for every element, also for one that has been added.
  pub might_contain-add_all :
      (f : F64) (n : ℕ) (rate : f.Carrier) (elements : List (List ℕ)) (element : List ℕ)
      → (b : BloomFilter) × (add_all elements (new f n rate) ≡ ok b)
        × (might_contain hashes element b ≡ ok false)
  might_contain-add_all f n rate elements element =
      let (b, run, v) = add_all-IsBlank elements (new f n rate) (new-IsBlank f n rate) in
      (b, run, might_contain-IsBlank element b v)
