-- ===== src/Serialization/Reader/Varint.antt =====
-- The variable-length integers of src/serialization.rs: what is written is read back.
use Prim.Native.Nat.{bit_and, bit_or}
use native.Mathlib.Nat.{pow-suc, mod-eq_of_lt}
use native.Mathlib.Numerals.{towards_suc}
use justdbd.Common.{
  ℕ, zero, suc, ◌+◌, ◌*◌, ◌/◌, ◌%◌, ◌^◌, ◌≤◌, ◌<◌, ◌≡◌, ap, true, false, List, [], ◌∷◌, ◌++◌,
  append_assoc, some, arith, leb, ◌==◌, length, length-append, Bool-cases, inl, inr, if◌then◌else◌,
}
use justdbd.Common.Bits.{bit_and_127, bit_or_128, bit_and_128, bit_or_disjoint}
use justdbd.Common.Outcome.{ok}
use justdbd.Serialization.Writer
use justdbd.Serialization.Writer.{
  Serializer, write_u8, write_groups, write_variable_int, size, finish,
}
use justdbd.Serialization.Reader.{new, read_u8, read_groups, read_variable_int}
use justdbd.Serialization.Reader.Consumes.{
  Consumes, Consumes-bind, Consumes-return, Consumes-new, read_u8-Consumes,
}

-- Groups of seven bits, the lowest first, all but the last with the top bit set.
groups : ℕ → ℕ → List ℕ
groups zero v = v ∷ []
groups (suc k) v =
    let rest = groups k (v / 128) in if leb 128 v then (v % 128 + 128) ∷ rest else v ∷ []

group_byte : (v : ℕ) → bit_or (bit_and v 0x7f % 2 ^ 8) 0x80 ≡ v % 128 + 128
group_byte v =
    let low : bit_and v 0x7f % 2 ^ 8 ≡ v % 128 = omega (arith, bit_and_127 v) in
    rw low (bit_or_128 (v % 128) (omega arith))

-- The loop does not run out of fuel.
write_groups-groups :
    (k v : ℕ) (s : Serializer)
    → v < 128 ^ suc k
    → write_groups (suc k) v s ≡ some (record { buffer = s.buffer ++ groups k v })
unfolding write_groups groups write_u8
write_groups-groups zero v s h = ground arith
write_groups-groups (suc k) v s h = ground (
  arith,
  group_byte v,
  write_groups-groups k (v / 128) (write_u8 (v % 128 + 128) s) (omega (arith, pow-suc 128 (suc k))),
  append_assoc s.buffer ((v % 128 + 128) ∷ []) (groups k (v / 128)),
)

write_variable_int-groups :
    (v : ℕ) (s : Serializer)
    → v < 2 ^ 64
    → write_variable_int v s ≡ some (record { buffer = s.buffer ++ groups 9 v })
unfolding write_variable_int
write_variable_int-groups v s h = write_groups-groups 9 v s (omega arith)

two-pow-seven : (shift : ℕ) → 2 ^ (shift + 7) ≡ 128 * 2 ^ shift
two-pow-seven shift = simp towards_suc (omega arith)

-- One round: the new group lies above the digits that are there, and nothing is shifted out.
add-group :
    (b result shift : ℕ)
    → result < 2 ^ shift
    → b % 128 * 2 ^ shift < 2 ^ 64
    → bit_or result (bit_and b 0x7f * 2 ^ shift % 2 ^ 64) ≡ result + b % 128 * 2 ^ shift
add-group b result shift h fits =
    rw (bit_and_127 b, mod-eq_of_lt fits) (bit_or_disjoint shift result (b % 128) h)

module _ (fuel result shift b : ℕ) (early : shift < 64) (small : result < 2 ^ shift)
    (fits : b % 128 * 2 ^ shift < 2 ^ 64) (byte : b < 256) where
  shifts_on : leb 64 shift ≡ false
  shifts_on = ground arith

  -- A byte below 128 ends the number.
  last_round :
      b < 128
      → Consumes (read_groups (suc fuel) result shift) (b ∷ []) (result + b % 128 * 2 ^ shift)
  unfolding read_groups
  last_round low =
      let done : (bit_and b 0x80 == 0) ≡ true = ground (arith, bit_and_128 b byte) in
      rw shifts_on (
        Consumes-bind read_u8 _ (b ∷ []) [] (read_u8-Consumes b)
          (rw (done, add-group b result shift small fits) (Consumes-return _)))

  -- Any other byte is followed by the next round.
  next_round :
      (ys : List ℕ) (a : ℕ)
      → 128 ≤ b
      → Consumes (read_groups fuel (result + b % 128 * 2 ^ shift) (shift + 7)) ys a
      → Consumes (read_groups (suc fuel) result shift) (b ∷ ys) a
  unfolding read_groups
  next_round ys a high later =
      let more : (bit_and b 0x80 == 0) ≡ false = ground (arith, bit_and_128 b byte) in
      rw shifts_on (
        Consumes-bind read_u8 _ (b ∷ []) ys (read_u8-Consumes b)
          (rw (more, add-group b result shift small fits) later))

last_group :
    (fuel v result shift : ℕ)
    → v < 128
    → shift < 64
    → result < 2 ^ shift
    → v * 2 ^ shift < 2 ^ 64
    → Consumes (read_groups (suc fuel) result shift) (v ∷ []) (result + v * 2 ^ shift)
last_group fuel v result shift low early small fits =
    let same : v % 128 ≡ v = omega arith in
    rw same at (last_round fuel result shift v early small (rw same fits) (omega arith) low)

group_room : (x u : ℕ) → x < 128 → x * u + u ≤ 128 * u
group_room x u h = grind arith

division : (v : ℕ) → v ≡ v % 128 + 128 * (v / 128)
division v = omega arith

at_origin : (v : ℕ) → 0 + v * 2 ^ 0 ≡ v
at_origin v = omega arith

read_groups-Consumes :
    (k fuel v result shift : ℕ)
    → k < fuel
    → v < 128 ^ suc k
    → shift + 7 * k ≤ 63
    → result < 2 ^ shift
    → v * 2 ^ shift < 2 ^ 64
    → Consumes (read_groups fuel result shift) (groups k v) (result + v * 2 ^ shift)
unfolding groups
read_groups-Consumes k zero v result shift hk hv hs hr hf = absurd (omega arith)
read_groups-Consumes zero (suc fuel) v result shift hk hv hs hr hf =
    last_group fuel v result shift (omega arith) (omega arith) hr hf
read_groups-Consumes (suc k) (suc fuel) v result shift hk hv hs hr hf =
    elim (Bool-cases (leb 128 v)) [
      | inr fewer ↦ rw fewer (last_group fuel v result shift (ground arith) (omega arith) hr hf)
      | inl more ↦
          let low = v % 128 in
          let high = v / 128 in
          let unit = 2 ^ shift in
          let b = low + 128 in
          let kept : b % 128 ≡ low = omega arith in
          let wide = two-pow-seven shift in
          let split : v * unit ≡ low * unit + high * (128 * unit) =
            omega (arith, ap (λ (t : ℕ). t * unit) (division v)) in
          let bound : low * unit + unit ≤ 128 * unit = group_room low unit (omega arith) in
          let later =
            read_groups-Consumes k fuel high (result + low * unit) (shift + 7) (omega arith)
              (omega (arith, pow-suc 128 (suc k))) (omega arith) (rw wide (omega (arith, bound)))
              (rw wide (omega (arith, split))) in
          let total : result + low * unit + high * 2 ^ (shift + 7) ≡ result + v * unit =
            rw wide (omega (arith, split)) in
          rw more (
            next_round fuel result shift b (omega arith) hr (rw kept (omega (arith, split)))
              (omega arith) (groups k high) (result + v * unit) (omega arith)
              (rw (kept, ← total) later))
    ]

-- The integer that was written is read back.
read_variable_int-Consumes : (v : ℕ) → v < 2 ^ 64 → Consumes read_variable_int (groups 9 v) v
unfolding read_variable_int
read_variable_int-Consumes v h = rw (at_origin v) at (
    read_groups-Consumes 9 11 v 0 0 (omega arith) (omega arith) (omega arith) (omega arith)
      (omega arith))

length-groups : (k v : ℕ) → length (groups k v) ≤ suc k
unfolding groups
length-groups zero v = omega arith
length-groups (suc k) v = ground (arith, length-groups k (v / 128))

-- Every 64-bit integer is written in at most ten bytes without running out of fuel, and is read back
-- from them, whatever bytes follow in a buffer shorter than 2 ^ 63.
pub write_variable_int-read_variable_int :
    (v : ℕ) (rest : List ℕ)
    → v < 2 ^ 64
    → length rest < 2 ^ 62
    → (s : Serializer) × (write_variable_int v Writer.new ≡ some s)
      × (size s ≤ 10)
      × ((read_variable_int (new (finish s ++ rest))).0 ≡ ok v)
unfolding finish size
write_variable_int-read_variable_int v rest h small =
    let short = length-groups 9 v in
    let fits : length (groups 9 v ++ rest) < 2 ^ 63 =
      omega (arith, length-append (groups 9 v) rest) in
    (
      record { buffer = groups 9 v },
      write_variable_int-groups v Writer.new h,
      short,
      ap (λ r. r.0)
          (Consumes-new read_variable_int (groups 9 v) rest (read_variable_int-Consumes v h) fits),
    )
