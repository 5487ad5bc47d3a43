-- ===== src/Cli/Generate/Lengths.antt =====
-- src/bin/cli.rs: the lengths of the keys and values of the benchmark.
use justdbd.Common.{
  ℕ, zero, suc, ◌+◌, ◌-◌, ◌≤◌, ◌<◌, ◌^◌, ◌≡◌, ◌≢◌, refl, ap, sym, ◌∙◌, List, [], ◌∷◌, ◌++◌, min,
  ltb, arith, length, take, drop, replicate, length-append, length-replicate, take-append,
  Bool-cases, inl, inr,
}
use justdbd.Cli.Generate.{resize, generate_key, pattern_bytes, extend_value, generate_value}
use justdbd.Storage.FileName.{padded}
use justdbd.Storage.FileName.Padding.{length-padded, padded-injective}

length-take {ℓ} : {A : Type ℓ} (n : ℕ) (xs : List A) → length (take n xs) ≡ min n (length xs)
length-take zero xs = omega arith
length-take (suc n) [] = omega arith
length-take (suc n) (x ∷ xs) = omega (arith, length-take n xs)

take-all {ℓ} : {A : Type ℓ} (n : ℕ) (xs : List A) → length xs ≤ n → take n xs ≡ xs
take-all zero [] h = refl
take-all zero (x ∷ xs) h = absurd (omega (arith, h))
take-all (suc n) [] h = refl
take-all (suc n) (x ∷ xs) h = ap (λ l. x ∷ l) (take-all n xs (omega (arith, h)))

length-resize : (size filler : ℕ) (bytes : List ℕ) → length (resize size filler bytes) ≡ size
unfolding resize
length-resize size filler bytes = omega (
  arith,
  length-append (take size bytes) (replicate (size - length bytes) filler),
  length-take size bytes,
  length-replicate (size - length bytes) filler,
)

-- Enough rounds make a value that is long enough.
length-extend_value :
    (rounds size : ℕ) (value : List ℕ)
    → size ≤ length value + rounds
    → size ≤ length (extend_value rounds size value)
unfolding extend_value pattern_bytes
length-extend_value zero size value h = omega (arith, h)
length-extend_value (suc rounds) size value h = elim (Bool-cases (ltb (length value) size)) [
  | inl short ↦
      let below : length value < size = ground (arith, short) in
      let added = take (min (size - length value) 16) pattern_bytes in
      rw short (
        length-extend_value rounds size (value ++ added) (
          omega (
            arith,
            below,
            length-append value added,
            length-take (min (size - length value) 16) pattern_bytes,
          )))
  | inr enough ↦ rw enough (ground arith)
]

-- A generated key and a generated value have exactly the length that was asked for, whatever the number.
pub length-generate :
    (id size : ℕ)
    → (length (generate_key id size) ≡ size) × (length (generate_value id size) ≡ size)
unfolding generate_key generate_value
length-generate id size = (
  length-resize size b'0' (b'k' ∷ b'e' ∷ b'y' ∷ padded id),
  omega (
    arith,
    length-take size (extend_value size size (b'v' ∷ b'a' ∷ b'l' ∷ b'u' ∷ b'e' ∷ padded id)),
    length-extend_value size size (b'v' ∷ b'a' ∷ b'l' ∷ b'u' ∷ b'e' ∷ padded id) (omega arith),
  ),
)

same_key :
    (m n size : ℕ)
    → m < 10 ^ 10
    → n < 10 ^ 10
    → 13 ≤ size
    → generate_key m size ≡ generate_key n size
    → m ≡ n
unfolding generate_key resize
same_key m n size hm hn h same =
    padded-injective m n hm hn
      (sym (digits m hm) ∙ ap (λ key. take 10 (drop 3 key)) same ∙ digits n hn)
  where
    digits : (k : ℕ) → k < 10 ^ 10 → take 10 (drop 3 (generate_key k size)) ≡ padded k
    digits k hk =
        let key = b'k' ∷ b'e' ∷ b'y' ∷ padded k in
        let zeros : List ℕ = replicate (size - length key) b'0' in
        let wide : length (padded k) ≡ 10 = length-padded k hk in
        ap (λ l. take 10 (drop 3 (l ++ zeros))) (take-all size key (omega (arith, wide, h)))
        ∙ ap (λ w. take w (padded k ++ zeros)) (sym wide)
        ∙ take-append (padded k) zeros

-- With a size of at least 13, the keys generated from two different numbers below 10 ^ 10 are different.
pub generate_key-injective :
    (m n size : ℕ)
    → m < 10 ^ 10
    → n < 10 ^ 10
    → 13 ≤ size
    → m ≢ n
    → generate_key m size ≢ generate_key n size
generate_key-injective m n size hm hn h other same = other (same_key m n size hm hn h same)
