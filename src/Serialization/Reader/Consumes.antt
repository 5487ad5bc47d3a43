-- ===== src/Serialization/Reader/Consumes.antt =====
-- What a reader of src/serialization.rs takes from its input when it succeeds.
use native.Mathlib.Nat.{mod-eq_of_lt}
use justdbd.Common.{
  ℕ, ◌+◌, ◌-◌, ◌^◌, ◌≤◌, ◌<◌, ◌≡◌, refl, sym, ap, ◌∙◌, true, List, [], ◌∷◌, ◌++◌, append_assoc,
  append-nil, arith, length, take, drop, length-append, length-drop, drop-drop, drop-append,
  take-append, get_elem?-of_drop,
}
use justdbd.Common.Bytes.{le_bytes, from_le, length-le_bytes, from_le-le_bytes}
use justdbd.Common.Outcome.{ok, return, ◌>>=◌, ◌>>◌}
use justdbd.Serialization.Utf8.{is_utf8}
use justdbd.Serialization.Reader.{
  new, Deserializer, Reader, ahead, ensure_byte, index, slice, step, read_u8, read_word, read_u16,
  read_u32, read_u64, read_bytes, skip, utf8, read_string,
}

-- The position lies in the slice, and no slice is longer than `isize::MAX`.
pub record IsValid (d : Deserializer) : Type 0 where
  pub inside : d.position ≤ length d.data_of
  pub small : length d.data_of < 2 ^ 63

abbrev pub rest_of : Deserializer → List ℕ
rest_of d = drop d.position d.data_of

abbrev pub forward : Deserializer → ℕ → Deserializer
forward d n = record d { position = d.position + n }

-- Whenever the input goes on with `bytes`, the reader returns `a` and stands behind them.
pub record Consumes {ℓ} {A : Type ℓ} (m : Reader A) (bytes : List ℕ) (a : A) : Type ℓ where
  pub at :
      (d : Deserializer) (rest : List ℕ)
      → IsValid d
      → rest_of d ≡ bytes ++ rest
      → m d ≡ (ok a, forward d (length bytes))

module _ (d : Deserializer) (bytes rest : List ℕ) (v : IsValid d)
    (e : rest_of d ≡ bytes ++ rest) where
  room : d.position + length bytes ≤ length d.data_of
  room =
      omega
        (arith, length-drop d.position d.data_of, ap length e, length-append bytes rest, v.inside)

  ahead-eq : ahead d (length bytes) ≡ d.position + length bytes
  ahead-eq = mod-eq_of_lt (omega (arith, room, v.small))

  forward-IsValid : IsValid (forward d (length bytes))
  forward-IsValid = record { inside = room; small = v.small }

  rest-forward : rest_of (forward d (length bytes)) ≡ rest
  rest-forward =
      sym (drop-drop d.position (length bytes) d.data_of)
      ∙ ap (drop (length bytes)) e
      ∙ drop-append bytes rest

  ensure_byte-enough : ensure_byte (length bytes) d ≡ (ok tt, d)
  unfolding ensure_byte
  ensure_byte-enough = ground (arith, ahead-eq, room)

  taken : take (ahead d (length bytes) - d.position) (rest_of d) ≡ bytes
  taken =
      let count : ahead d (length bytes) - d.position ≡ length bytes = omega (arith, ahead-eq) in
      rw (count, e) (take-append bytes rest)

  slice-bytes : slice (length bytes) d ≡ (ok bytes, d)
  unfolding slice
  slice-bytes = ground (arith, ahead-eq, room, taken)

  step-forward : step (length bytes) d ≡ (ok tt, forward d (length bytes))
  unfolding step
  step-forward = rw ahead-eq

module _ {ℓ κ} {A : Type ℓ} {B : Type κ} where
  pub Consumes-bind :
      (m : Reader A) (f : A → Reader B) (xs ys : List ℕ) {a : A} {b : B}
      → Consumes m xs a
      → Consumes (f a) ys b
      → Consumes (m >>= f) (xs ++ ys) b
  Consumes-bind m f xs ys {a} {b} first second = record {
    at = λ d rest v e.
        let e' = e ∙ append_assoc xs ys rest in
        rw (first.at d (ys ++ rest) v e', ◌>>=◌)
          (second.at (forward d (length xs)) rest (forward-IsValid d xs (ys ++ rest) v e')
              (rest-forward d xs (ys ++ rest) v e')
            ∙ ap (λ p. (ok b, record d { position = p })) (omega (arith, length-append xs ys)));
  }

  -- The rest of a block that takes nothing more.
  pub Consumes-bind_last :
      (m : Reader A) (f : A → Reader B) (xs : List ℕ) {a : A} {b : B}
      → Consumes m xs a
      → Consumes (f a) [] b
      → Consumes (m >>= f) xs b
  Consumes-bind_last m f xs first second = rw append-nil at (Consumes-bind m f xs [] first second)

module _ {ℓ} {B : Type ℓ} where
  -- A step without a result.
  pub Consumes-then :
      (m : Reader (Unit {0})) (n : Reader B) (xs ys : List ℕ) {b : B}
      → Consumes m xs tt
      → Consumes n ys b
      → Consumes (m >> n) (xs ++ ys) b
  Consumes-then m n xs ys first second = Consumes-bind m (λ _. n) xs ys first second

pub Consumes-return {ℓ} : {A : Type ℓ} (a : A) → Consumes (return a) [] a
Consumes-return a = record {
  at = λ d rest v e. ap (λ p. (ok a, record d { position = p })) (omega arith);
}

-- The pattern of the fixed-width reads: look ahead, take the bytes, step over them.
module _ (d : Deserializer) (bytes rest : List ℕ) (v : IsValid d)
    (e : rest_of d ≡ bytes ++ rest) where
  read_word-forward : read_word (length bytes) d ≡ (ok (from_le bytes), forward d (length bytes))
  unfolding read_word
  read_word-forward = simp (
    ensure_byte-enough d bytes rest v e,
    slice-bytes d bytes rest v e,
    step-forward d bytes rest v e,
  )

  read_bytes-forward : read_bytes (length bytes) d ≡ (ok bytes, forward d (length bytes))
  unfolding read_bytes
  read_bytes-forward = simp (
    ensure_byte-enough d bytes rest v e,
    slice-bytes d bytes rest v e,
    step-forward d bytes rest v e,
  )

  skip-forward : skip (length bytes) d ≡ (ok tt, forward d (length bytes))
  unfolding skip
  skip-forward = simp (ensure_byte-enough d bytes rest v e, step-forward d bytes rest v e)

index-byte : (d : Deserializer) {b : ℕ} {rest : List ℕ} → rest_of d ≡ b ∷ rest → index d ≡ (ok b, d)
unfolding index
index-byte d e = rw (get_elem?-of_drop d.position d.data_of e, index)

pub read_u8-Consumes : (b : ℕ) → Consumes read_u8 (b ∷ []) b
unfolding read_u8
read_u8-Consumes b = record {
  at = λ d rest v e.
      simp
        (ensure_byte-enough d (b ∷ []) rest v e, index-byte d e, step-forward d (b ∷ []) rest v e);
}

read_word-Consumes :
    (n value : ℕ) → value < 256 ^ n → Consumes (read_word n) (le_bytes n value) value
read_word-Consumes n value h = record {
  at = λ d rest v e.
      let bytes = le_bytes n value in
      ap (λ k. read_word k d) (sym (length-le_bytes n value))
      ∙ read_word-forward d bytes rest v e
      ∙ ap (λ w. (ok w, forward d (length bytes))) (from_le-le_bytes n value h);
}

pub read_u16-Consumes : (value : ℕ) → value < 2 ^ 16 → Consumes read_u16 (le_bytes 2 value) value
unfolding read_u16
read_u16-Consumes value h = read_word-Consumes 2 value h

pub read_u32-Consumes : (value : ℕ) → value < 2 ^ 32 → Consumes read_u32 (le_bytes 4 value) value
unfolding read_u32
read_u32-Consumes value h = read_word-Consumes 4 value h

pub read_u64-Consumes : (value : ℕ) → value < 2 ^ 64 → Consumes read_u64 (le_bytes 8 value) value
unfolding read_u64
read_u64-Consumes value h = read_word-Consumes 8 value h

pub read_bytes-Consumes :
    (n : ℕ) (bytes : List ℕ) → length bytes ≡ n → Consumes (read_bytes n) bytes bytes
read_bytes-Consumes n bytes h = record {
  at = λ d rest v e. ap (λ k. read_bytes k d) (sym h) ∙ read_bytes-forward d bytes rest v e;
}

pub skip-Consumes : (n : ℕ) (bytes : List ℕ) → length bytes ≡ n → Consumes (skip n) bytes tt
skip-Consumes n bytes h = record {
  at = λ d rest v e. ap (λ k. skip k d) (sym h) ∙ skip-forward d bytes rest v e;
}

pub read_string-Consumes :
    (text : List ℕ)
    → length text < 2 ^ 32
    → is_utf8 text ≡ true
    → Consumes read_string (le_bytes 4 (length text) ++ text) text
unfolding read_string utf8
read_string-Consumes text h valid =
    Consumes-bind read_u32 _ (le_bytes 4 (length text)) text (read_u32-Consumes (length text) h) (
      Consumes-bind_last (read_bytes (length text)) _ text
        (read_bytes-Consumes (length text) text refl) (rw valid (Consumes-return text)))

-- A reader run on a whole slice.
pub Consumes-new {ℓ} :
    {A : Type ℓ} (m : Reader A) (bytes rest : List ℕ) {a : A}
    → Consumes m bytes a
    → length (bytes ++ rest) < 2 ^ 63
    → m (new (bytes ++ rest)) ≡ (ok a, forward (new (bytes ++ rest)) (length bytes))
Consumes-new m bytes rest c h =
    c.at (new (bytes ++ rest)) rest (record { inside = omega arith; small = h }) refl

-- Whenever the input goes on with `bytes`, the reader returns `a`; how far it reads is left open.
pub record Yields {ℓ} {A : Type ℓ} (m : Reader A) (bytes : List ℕ) (a : A) : Type ℓ where
  pub at :
      (d : Deserializer) (rest : List ℕ) → IsValid d → rest_of d ≡ bytes ++ rest → (m d).0 ≡ ok a

module _ {ℓ} {A : Type ℓ} where
  pub Consumes-Yields :
      (m : Reader A) (xs ys : List ℕ) {a : A} → Consumes m xs a → Yields m (xs ++ ys) a
  Consumes-Yields m xs ys c = record {
    at = λ d rest v e. ap (λ p. p.0) (c.at d (ys ++ rest) v (e ∙ append_assoc xs ys rest));
  }

  pub Yields-new :
      (m : Reader A) (bytes : List ℕ) {a : A}
      → Yields m bytes a
      → length bytes < 2 ^ 63
      → (m (new bytes)).0 ≡ ok a
  Yields-new m bytes y h =
      y.at (new bytes) [] (record { inside = omega arith; small = h }) (sym (append-nil bytes))

module _ {ℓ κ} {A : Type ℓ} {B : Type κ} where
  pub Yields-bind :
      (m : Reader A) (f : A → Reader B) (xs ys : List ℕ) {a : A} {b : B}
      → Consumes m xs a
      → Yields (f a) ys b
      → Yields (m >>= f) (xs ++ ys) b
  Yields-bind m f xs ys first second = record {
    at = λ d rest v e.
        let e' = e ∙ append_assoc xs ys rest in
        rw (first.at d (ys ++ rest) v e', ◌>>=◌)
          (second.at (forward d (length xs)) rest (forward-IsValid d xs (ys ++ rest) v e')
            (rest-forward d xs (ys ++ rest) v e'));
  }

module _ {ℓ} {B : Type ℓ} where
  pub Yields-then :
      (m : Reader (Unit {0})) (n : Reader B) (xs ys : List ℕ) {b : B}
      → Consumes m xs tt
      → Yields n ys b
      → Yields (m >> n) (xs ++ ys) b
  Yields-then m n xs ys first second = Yields-bind m (λ _. n) xs ys first second
