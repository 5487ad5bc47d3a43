-- ===== src/Storage/FileName/Padding.antt =====
-- src/storage.rs: a number of at most ten digits, as `{:010}` prints it.
use native.Mathlib.Nat.{pow-suc}
use mathlib.Core.Option.{some-injective}
use justdbd.Common.{
  ℕ, zero, suc, ◌+◌, ◌-◌, ◌/◌, ◌%◌, ◌^◌, ◌≤◌, ◌<◌, ◌≡◌, refl, ap, sym, ◌∙◌, true, List, [], ◌∷◌,
  ◌++◌, some, ltb, arith, length, replicate, length-append, length-replicate, Bool-cases, inl, inr,
}
use justdbd.Storage.FileName.{digits_before, decimal, padded, parse_digits}
use justdbd.Storage.FileName.RoundTrip.{one_digit, parse-digits_before}

length-digits_before :
    (d fuel n : ℕ) (text : List ℕ)
    → d ≤ fuel
    → n < 10 ^ suc d
    → length (digits_before (suc fuel) n text) ≤ suc d + length text
unfolding digits_before
length-digits_before zero fuel n text h small =
    let short : ltb n 10 ≡ true = ground arith in rw short (omega arith)
length-digits_before (suc d) zero n text h small = absurd (omega (arith, h))
length-digits_before (suc d) (suc fuel) n text h small = elim (Bool-cases (ltb n 10)) [
  | inl short ↦ rw short (omega arith)
  | inr long ↦ rw long (
      omega (
        arith,
        length-digits_before d fuel (n / 10) ((48 + n % 10) ∷ text) (omega (arith, h))
            (omega (arith, small, pow-suc 10 (suc d))),
      ))
]

-- Ten characters.
pub length-padded : (n : ℕ) → n < 10 ^ 10 → length (padded n) ≡ 10
unfolding padded decimal
length-padded n small = omega (
  arith,
  length-append (replicate (10 - length (decimal n)) 48) (decimal n),
  length-replicate {A = ℕ} (10 - length (decimal n)) 48,
  length-digits_before 9 19 n [] (omega arith) small,
)

zeros : (k : ℕ) (text : List ℕ) → parse_digits 0 (replicate k 48 ++ text) ≡ parse_digits 0 text
zeros zero text = refl
zeros (suc k) text =
    one_digit 0 0 (replicate k 48 ++ text) (omega arith) (omega arith) ∙ zeros k text

parse-padded : (n : ℕ) → n < 10 ^ 10 → parse_digits 0 (padded n) ≡ some n
unfolding padded decimal parse_digits
parse-padded n small =
    zeros (10 - length (decimal n)) (decimal n)
    ∙ parse-digits_before 19 n [] (omega (arith, small)) (omega (arith, small))

-- Two such numbers that are printed alike are one.
pub padded-injective : (m n : ℕ) → m < 10 ^ 10 → n < 10 ^ 10 → padded m ≡ padded n → m ≡ n
padded-injective m n hm hn same =
    some-injective _ _ (sym (parse-padded m hm) ∙ ap (parse_digits 0) same ∙ parse-padded n hn)
