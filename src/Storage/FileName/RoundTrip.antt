-- ===== src/Storage/FileName/RoundTrip.antt =====
-- src/storage.rs: the level of a file is read back from its name.
use native.Mathlib.Nat.{pow-suc}
use justdbd.Common.{
  ℕ, zero, suc, ◌+◌, ◌-◌, ◌*◌, ◌/◌, ◌%◌, ◌^◌, ◌≤◌, ◌<◌, ◌≡◌, refl, ap, ◌∙◌, true, false, List, [],
  ◌∷◌, ◌++◌, some, ltb, leb, ◌==◌, arith, All, Bool-cases, inl, inr,
}
use justdbd.Storage.FileName.{
  FileName, digits_before, decimal, padded, format, before_underscore, parse_digits, parse_usize,
  parse_level_from_filename,
}

abbrev IsDigit : ℕ → Type 0
IsDigit c = (48 ≤ c) × (c ≤ 57)

pub one_digit :
    (n c : ℕ) (text : List ℕ)
    → c < 10
    → n * 10 + c < 2 ^ 64
    → parse_digits n ((48 + c) ∷ text) ≡ parse_digits (n * 10 + c) text
unfolding parse_digits
one_digit n c text h w =
    let same : 48 + c - 48 ≡ c = omega arith in
    let low : leb 48 (48 + c) ≡ true = ground arith in
    let high : leb (48 + c) 57 ≡ true = ground arith in
    let fits : ltb (n * 10 + c) (2 ^ 64) ≡ true = ground arith in rw (low, high, same, fits)

-- The digits are read back, whatever follows: reading goes on from the number.
pub parse-digits_before :
    (fuel n : ℕ) (text : List ℕ)
    → n < 10 ^ suc fuel
    → n < 2 ^ 64
    → parse_digits 0 (digits_before (suc fuel) n text) ≡ parse_digits n text
unfolding digits_before
parse-digits_before zero n text h w =
    let short : ltb n 10 ≡ true = ground arith in
    rw short
      (one_digit 0 n text (omega arith) (omega arith) ∙ ap (λ m. parse_digits m text) (omega arith))
parse-digits_before (suc fuel) n text h w = elim (Bool-cases (ltb n 10)) [
  | inl short ↦ rw short (
      one_digit 0 n text (ground arith) (omega arith) ∙ ap (λ m. parse_digits m text) (omega arith))
  | inr long ↦ rw long (
      parse-digits_before fuel (n / 10) ((48 + n % 10) ∷ text)
        (omega (arith, pow-suc 10 (suc fuel))) (omega arith)
      ∙ one_digit (n / 10) (n % 10) text (omega arith) (omega arith)
      ∙ ap (λ m. parse_digits m text) (omega arith))
]

-- The first character is a digit, and so are the others.
digits_before-IsDigit :
    (fuel n : ℕ) (c : ℕ) (text : List ℕ)
    → n < 10 ^ suc fuel
    → IsDigit c
    → All IsDigit text
    → (d : ℕ) × (ds : List ℕ) × (digits_before (suc fuel) n text ≡ d ∷ ds)
      × IsDigit d
      × All IsDigit ds
unfolding digits_before
digits_before-IsDigit zero n c text h hc a =
    let short : ltb n 10 ≡ true = ground arith in
    (48 + n, text, rw short, (omega arith, omega arith), a)
digits_before-IsDigit (suc fuel) n c text h hc a = elim (Bool-cases (ltb n 10)) [
  | inl short ↦ (48 + n, text, rw short, (omega arith, ground arith), a)
  | inr long ↦
      let (d, ds, e, first, rest) =
        digits_before-IsDigit fuel (n / 10) c ((48 + n % 10) ∷ text)
          (omega (arith, pow-suc 10 (suc fuel))) hc ((omega arith, omega arith), a) in
      (d, ds, rw long e, first, rest)
]

before_underscore-digits :
    (ds rest : List ℕ) → All IsDigit ds → before_underscore (ds ++ b'_' ∷ rest) ≡ some ds
unfolding before_underscore
before_underscore-digits [] rest a = refl
before_underscore-digits (d ∷ ds) rest a =
    let other : (d == b'_') ≡ false = ground (arith, a.0) in
    rw (other, before_underscore-digits ds rest a.1)

parse_usize-digits :
    (d : ℕ) (ds : List ℕ) → IsDigit d → parse_usize (d ∷ ds) ≡ parse_digits 0 (d ∷ ds)
unfolding parse_usize
parse_usize-digits d [] h = let unsigned : (d == b'+') ≡ false = ground arith in rw unsigned
parse_usize-digits d (e ∷ ds) h = let unsigned : (d == b'+') ≡ false = ground arith in rw unsigned

-- The level of a file name, a number of 64 bits, is read back from it.
pub parse_level_from_filename-format :
    (name : FileName)
    → name.level < 2 ^ 64
    → parse_level_from_filename (format name) ≡ some name.level
unfolding parse_level_from_filename format decimal
parse_level_from_filename-format name h =
    let (d, ds, e, first, rest) =
      digits_before-IsDigit 19 name.level 48 [] (omega arith) (omega arith, omega arith) tt in
    let read : parse_digits 0 (d ∷ ds) ≡ some name.level =
      rw e at (parse-digits_before 19 name.level [] (omega arith) h) in
    let behind =
      padded name.timestamp ++ (b'_' ∷ (decimal name.sequence ++ b'.' ∷ b's' ∷ b's' ∷ b't' ∷ [])) in
    let split = before_underscore-digits (d ∷ ds) behind (first, rest) in
    rw (e, split, parse_usize-digits d ds first, read)
