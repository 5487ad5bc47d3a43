-- ===== src/Serialization/Reader/Total.antt =====
-- Every reader of src/serialization.rs is safe.
use Prim.Native.Nat.{bit_and, bit_or}
use native.Mathlib.Nat.{mod-eq_of_lt}
use justdbd.Common.{
  ℕ, zero, suc, ◌+◌, ◌-◌, ◌*◌, ◌%◌, ◌^◌, ◌==◌, ◌≤◌, ◌<◌, ◌≡◌, fun_ext, List, some, arith, leb,
  length, get_elem?, take, length-drop, All, ◌⊎◌, inl, inr, length-take-le, get_elem?-below,
  All-get_elem?, All-take, All-drop,
}
use justdbd.Common.Bits.{bit_or-lt}
use justdbd.Common.Bytes.{Byte, from_le, from_le-lt}
use justdbd.Common.Outcome.{ok, err, return, ◌>>=◌}
use justdbd.Error.{StorageError, corruption}
use justdbd.Serialization.Utf8.{is_utf8}
use justdbd.Serialization.Reader.{
  Deserializer, ahead, ensure_byte, index, slice, step, read_u8, read_word, read_u16, read_u32,
  read_u64, read_bytes, utf8, read_string, read_groups, read_variable_int, skip,
}
use justdbd.Serialization.Reader.Consumes.{rest_of, forward}
use justdbd.Serialization.Reader.Safe.{IsReadable, Safe, Safe-return, Safe-fail, Safe-if, Safe-bind}

abbrev truncated : StorageError
truncated = corruption "unexpected end of data"

-- What the look ahead has found out, for a length that is no wild value.
data Looked (n : ℕ) (d : Deserializer) : Type 0 where
  short : ensure_byte n d ≡ (err truncated, d) → Looked n d
  enough :
      ensure_byte n d ≡ (ok tt, d)
      → slice n d ≡ (ok (take n (rest_of d)), d)
      → step n d ≡ (ok tt, forward d n)
      → d.position + n ≤ length d.data_of
      → Looked n d

look : (n : ℕ) (d : Deserializer) → n < 2 ^ 63 → IsReadable d → Looked n d
unfolding ensure_byte slice step
look n d h v =
    let plain : ahead d n ≡ d.position + n = mod-eq_of_lt (omega (arith, v.inside, v.small)) in
    let count : ahead d n - d.position ≡ n = omega (arith, plain) in
    elim (leb_cases (d.position + n) (length d.data_of)) [
      | inl fits ↦ enough (ground (arith, plain)) (ground (arith, plain, count)) (rw plain) fits
      | inr over ↦ short (ground (arith, plain))
    ]
  where
    leb_cases : (a b : ℕ) → (a ≤ b) ⊎ (b < a)
    leb_cases a b = omega arith

module _ (n : ℕ) (h : n < 2 ^ 63) where
  forward-IsReadable :
      (d : Deserializer)
      → IsReadable d
      → d.position + n ≤ length d.data_of
      → IsReadable (forward d n)
  forward-IsReadable d v fits = record { inside = fits; small = v.small; bytes = v.bytes }

  taken_length :
      (d : Deserializer)
      → IsReadable d
      → d.position + n ≤ length d.data_of
      → (length (take n (rest_of d)) ≡ n) × All Byte (take n (rest_of d))
  taken_length d v fits = (
    length-take-le n (rest_of d) (omega (arith, length-drop d.position d.data_of)),
    All-take Byte n (rest_of d) (All-drop Byte d.position d.data_of v.bytes),
  )

  run_read_bytes :
      (d : Deserializer)
      → IsReadable d
      → (read_bytes n d ≡ (err truncated, d))
        ⊎ ((read_bytes n d ≡ (ok (take n (rest_of d)), forward d n))
            × (d.position + n ≤ length d.data_of))
  unfolding read_bytes
  run_read_bytes d v = elim (look n d h v) [
    | short e ↦ inl (simp e)
    | enough e s t fits ↦ inr (simp (e, s, t), fits)
  ]

  pub read_bytes-Safe : Safe (λ bs. (length bs ≡ n) × All Byte bs) (read_bytes n)
  read_bytes-Safe = record {
    ends = λ d v. elim (run_read_bytes d v) [
      | inl e ↦ rw e tt
      | inr (e, fits) ↦ rw e (taken_length d v fits)
    ];
    stays = λ d v. elim (run_read_bytes d v) [
      | inl e ↦ rw e v
      | inr (e, fits) ↦ rw e (forward-IsReadable d v fits)
    ];
    same = λ d v. elim (run_read_bytes d v) [ inl e ↦ rw e | inr (e, fits) ↦ rw e ];
  }

  -- A word is the little-endian reading of the bytes.
  read_word-read_bytes : read_word n ≡ (read_bytes n >>= λ bs. return (from_le bs))
  unfolding read_word read_bytes
  read_word-read_bytes = fun_ext λ d. ground arith

  read_word-Safe : Safe (λ w. w < 256 ^ n) (read_word n)
  read_word-Safe = rw read_word-read_bytes (
      Safe-bind (read_bytes n) (λ bs. return (from_le bs)) read_bytes-Safe
        λ bs q. Safe-return (from_le bs) (rw (← q.0) (from_le-lt bs q.1)))

  run_skip :
      (d : Deserializer)
      → IsReadable d
      → (skip n d ≡ (err truncated, d))
        ⊎ ((skip n d ≡ (ok tt, forward d n)) × (d.position + n ≤ length d.data_of))
  unfolding skip
  run_skip d v = elim (look n d h v) [
    | short e ↦ inl (simp e)
    | enough e s t fits ↦ inr (simp (e, t), fits)
  ]

  pub skip-Safe : Safe (λ _. Unit {0}) (skip n)
  skip-Safe = record {
    ends = λ d v. elim (run_skip d v) [ inl e ↦ rw e tt | inr (e, fits) ↦ rw e tt ];
    stays = λ d v. elim (run_skip d v) [
      | inl e ↦ rw e v
      | inr (e, fits) ↦ rw e (forward-IsReadable d v fits)
    ];
    same = λ d v. elim (run_skip d v) [ inl e ↦ rw e | inr (e, fits) ↦ rw e ];
  }

run_index :
    (d : Deserializer) {b : ℕ} → get_elem? d.data_of d.position ≡ some b → index d ≡ (ok b, d)
unfolding index
run_index d g = rw (g, index)

run_read_u8 :
    (d : Deserializer)
    → IsReadable d
    → (read_u8 d ≡ (err truncated, d))
      ⊎ ((b : ℕ) × (read_u8 d ≡ (ok b, forward d 1)) × Byte b × (d.position + 1 ≤ length d.data_of))
unfolding read_u8
run_read_u8 d v = elim (look 1 d (omega arith) v) [
  | short e ↦ inl (simp e)
  | enough e s t fits ↦
      let (b, g) = get_elem?-below d.position d.data_of (omega arith) in
      inr (b, simp (e, run_index d g, t), All-get_elem? Byte d.position d.data_of v.bytes g, fits)
]

pub read_u8-Safe : Safe Byte read_u8
read_u8-Safe = record {
  ends = λ d v. elim (run_read_u8 d v) [ inl e ↦ rw e tt | inr (b, e, q, fits) ↦ rw e q ];
  stays = λ d v. elim (run_read_u8 d v) [
    | inl e ↦ rw e v
    | inr (b, e, q, fits) ↦ rw e (forward-IsReadable 1 (omega arith) d v fits)
  ];
  same = λ d v. elim (run_read_u8 d v) [ inl e ↦ rw e | inr (b, e, q, fits) ↦ rw e ];
}

pub read_u16-Safe : Safe (λ w. w < 2 ^ 16) read_u16
unfolding read_u16
read_u16-Safe = read_word-Safe 2 (omega arith)

pub read_u32-Safe : Safe (λ w. w < 2 ^ 32) read_u32
unfolding read_u32
read_u32-Safe = read_word-Safe 4 (omega arith)

pub read_u64-Safe : Safe (λ w. w < 2 ^ 64) read_u64
unfolding read_u64
read_u64-Safe = read_word-Safe 8 (omega arith)

utf8-Safe : (bytes : List ℕ) → All Byte bytes → Safe (All Byte) (utf8 bytes)
unfolding utf8
utf8-Safe bytes h = Safe-if (is_utf8 bytes) _ _ (λ _. Safe-return bytes h) (λ _. Safe-fail _)

pub read_string-Safe : Safe (All Byte) read_string
unfolding read_string
read_string-Safe = Safe-bind read_u32 _ read_u32-Safe λ len small.
    Safe-bind (read_bytes len) _ (read_bytes-Safe len (omega arith)) λ bytes q. utf8-Safe bytes q.1

-- The accumulated word stays below `2 ^ 64`.
read_groups-Safe :
    (fuel result shift : ℕ)
    → result < 2 ^ 64
    → Safe (λ w. w < 2 ^ 64) (read_groups fuel result shift)
unfolding read_groups
read_groups-Safe zero result shift h = Safe-fail _
read_groups-Safe (suc fuel) result shift h =
    Safe-if (leb 64 shift) _ _ (λ _. Safe-fail _)
      λ _. Safe-bind read_u8 _ read_u8-Safe λ byte q.
        let group = bit_and byte 0x7f * 2 ^ shift % 2 ^ 64 in
        let fits : bit_or result group < 2 ^ 64 = bit_or-lt 64 result group h (omega arith) in
        Safe-if (bit_and byte 0x80 == 0) _ _ (λ _. Safe-return _ fits)
          (λ _. read_groups-Safe fuel (bit_or result group) (shift + 7) fits)

pub read_variable_int-Safe : Safe (λ w. w < 2 ^ 64) read_variable_int
unfolding read_variable_int
read_variable_int-Safe = read_groups-Safe 11 0 0 (omega arith)

pub ruleset safe_readers = (
  read_u8-Safe, read_u16-Safe, read_u32-Safe, read_u64-Safe, read_string-Safe,
  read_variable_int-Safe,
)
