-- ===== src/Common/Bits.antt =====
-- `&` and `|` of machine words, digit by digit. A native operation stands for `bitwise`, a recursion
-- on binary digits; here it meets the operands' halves and their lowest digits.
use Prim.Native.Nat.{
  ℕ, zero, suc, ◌+◌, ◌*◌, ◌/◌, ◌%◌, ◌^◌, ◌≤◌, ◌<◌, min, max, digits, bit_and, bit_or,
  bit_and-bitwise, bit_or-bitwise,
}
use mathlib.Core.Path.{◌≡◌, refl, ap, ◌∙◌}
use native.Mathlib.Nat.{pow-suc}
use native.Mathlib.Omega.{arith}

-- Any two amounts of fuel that cover the first operand give one result.
module _ (last : ℕ → ℕ) (pair : ℕ → ℕ → ℕ) where
  digits_enough : (n m a b : ℕ) → a ≤ n → a ≤ m → digits last pair n a b ≡ digits last pair m a b
  digits_enough zero zero a b hn hm = refl
  digits_enough zero (suc m) zero b hn hm = refl
  digits_enough zero (suc m) (suc a) b hn hm = absurd (omega arith)
  digits_enough (suc n) zero zero b hn hm = refl
  digits_enough (suc n) zero (suc a) b hn hm = absurd (omega arith)
  digits_enough (suc n) (suc m) zero b hn hm = refl
  digits_enough (suc n) (suc m) (suc a) b hn hm =
      omega (arith, digits_enough n m (suc a / 2) (b / 2) (omega arith) (omega arith))

bit_or_halves : (a b : ℕ) → bit_or a b ≡ 2 * bit_or (a / 2) (b / 2) + max (a % 2) (b % 2)
bit_or_halves zero b = simp bit_or-bitwise (omega arith)
bit_or_halves (suc a) b = simp bit_or-bitwise (
    omega (
      arith,
      digits_enough (λ d. d) max a (suc a / 2) (suc a / 2) (b / 2) (omega arith) (omega arith),
    ))

bit_and_halves : (a b : ℕ) → bit_and a b ≡ 2 * bit_and (a / 2) (b / 2) + min (a % 2) (b % 2)
bit_and_halves zero b = simp bit_and-bitwise (omega arith)
bit_and_halves (suc a) b = simp bit_and-bitwise (
    omega (
      arith,
      digits_enough (λ d. 0) min a (suc a / 2) (suc a / 2) (b / 2) (omega arith) (omega arith),
    ))

-- The binary digit of weight `2 ^ j`.
pub digit : ℕ → ℕ → ℕ
digit zero a = a % 2
digit (suc j) a = digit j (a / 2)

pub digit-le-one : (j a : ℕ) → digit j a ≤ 1
unfolding digit
digit-le-one zero a = omega arith
digit-le-one (suc j) a = digit-le-one j (a / 2)

pub digit-zero : (j : ℕ) → digit j 0 ≡ 0
unfolding digit
digit-zero zero = refl
digit-zero (suc j) = digit-zero j

pub digit-bit_or : (j a b : ℕ) → digit j (bit_or a b) ≡ max (digit j a) (digit j b)
unfolding digit
digit-bit_or zero a b = omega (arith, bit_or_halves a b)
digit-bit_or (suc j) a b =
    let half : bit_or a b / 2 ≡ bit_or (a / 2) (b / 2) = omega (arith, bit_or_halves a b) in
    rw half (digit-bit_or j (a / 2) (b / 2))

bit_and-zero_below : (n a : ℕ) → a ≤ n → bit_and a 0 ≡ 0
bit_and-zero_below n zero h = refl
bit_and-zero_below zero (suc a) h = absurd (omega arith)
bit_and-zero_below (suc n) (suc a) h =
    omega (arith, bit_and_halves (suc a) 0, bit_and-zero_below n (suc a / 2) (omega arith))

-- A mask of one bit selects one digit.
pub bit_and-two_pow : (j a : ℕ) → bit_and a (2 ^ j) ≡ digit j a * 2 ^ j
unfolding digit
bit_and-two_pow zero a =
    omega (arith, bit_and_halves a 1, bit_and-zero_below (a / 2) (a / 2) (omega arith))
bit_and-two_pow (suc j) a =
    let half : 2 ^ suc j / 2 ≡ 2 ^ j = omega (arith, pow-suc 2 j) in
    omega (
      arith,
      pow-suc 2 j,
      bit_and_halves a (2 ^ suc j),
      ap (λ (t : ℕ). bit_and (a / 2) t) half,
      bit_and-two_pow j (a / 2),
      ap (λ (t : ℕ). digit j (a / 2) * t) (pow-suc 2 j),
    )

zero-bit_or : (b : ℕ) → bit_or 0 b ≡ b
zero-bit_or b = bit_or-bitwise 0 b

-- A word below `2 ^ k` and a multiple of `2 ^ k` share no digit.
pub bit_or_disjoint : (k r q : ℕ) → r < 2 ^ k → bit_or r (q * 2 ^ k) ≡ r + q * 2 ^ k
bit_or_disjoint zero r q h =
    let none_left : r ≡ 0 = omega arith in rw none_left (zero-bit_or _ ∙ omega arith)
bit_or_disjoint (suc k) r q h =
    let half : q * 2 ^ suc k / 2 ≡ q * 2 ^ k = omega (arith, ap (λ (t : ℕ). q * t) (pow-suc 2 k)) in
    omega (
      arith,
      pow-suc 2 k,
      ap (λ (t : ℕ). q * t) (pow-suc 2 k),
      bit_or_halves r (q * 2 ^ suc k),
      ap (λ (t : ℕ). bit_or (r / 2) t) half,
      bit_or_disjoint k (r / 2) q (omega (arith, pow-suc 2 k)),
    )

pub bit_or-lt : (k a b : ℕ) → a < 2 ^ k → b < 2 ^ k → bit_or a b < 2 ^ k
bit_or-lt zero a b ha hb = let none_left : a ≡ 0 = omega arith in rw (none_left, zero-bit_or b) hb
bit_or-lt (suc k) a b ha hb = omega (
  arith,
  pow-suc 2 k,
  bit_or_halves a b,
  bit_or-lt k (a / 2) (b / 2) (omega (arith, pow-suc 2 k)) (omega (arith, pow-suc 2 k)),
)

-- The masks of the variable-length integers.
bit_and_1 : (a : ℕ) → bit_and a 1 ≡ a % 2
bit_and_1 a = omega (arith, bit_and_halves a 1, bit_and-zero_below (a / 2) (a / 2) (omega arith))

bit_and_3 : (a : ℕ) → bit_and a 3 ≡ a % 4
bit_and_3 a = omega (arith, bit_and_halves a 3, bit_and_1 (a / 2))

bit_and_7 : (a : ℕ) → bit_and a 7 ≡ a % 8
bit_and_7 a = omega (arith, bit_and_halves a 7, bit_and_3 (a / 2))

bit_and_15 : (a : ℕ) → bit_and a 15 ≡ a % 16
bit_and_15 a = omega (arith, bit_and_halves a 15, bit_and_7 (a / 2))

bit_and_31 : (a : ℕ) → bit_and a 31 ≡ a % 32
bit_and_31 a = omega (arith, bit_and_halves a 31, bit_and_15 (a / 2))

bit_and_63 : (a : ℕ) → bit_and a 63 ≡ a % 64
bit_and_63 a = omega (arith, bit_and_halves a 63, bit_and_31 (a / 2))

pub bit_and_127 : (a : ℕ) → bit_and a 127 ≡ a % 128
bit_and_127 a = omega (arith, bit_and_halves a 127, bit_and_63 (a / 2))

pub bit_or_128 : (a : ℕ) → a < 128 → bit_or a 128 ≡ a + 128
bit_or_128 a h = bit_or_disjoint 7 a 1 h

pub bit_and_128 : (a : ℕ) → a < 256 → bit_and a 128 ≡ a / 128 * 128
unfolding digit
bit_and_128 a h = omega (arith, bit_and-two_pow 7 a)
