-- ===== src/Common/Bytes.antt =====
-- Bytes and little-endian words: `to_le_bytes` and `from_le_bytes` of `u16`, `u32` and `u64`.
use Prim.Native.Nat.{ℕ, zero, suc, ◌+◌, ◌*◌, ◌/◌, ◌%◌, ◌^◌, ◌<◌}
use mathlib.Core.Path.{◌≡◌, refl, ap}
use mathlib.Core.List.{List, [], ◌∷◌}
use native.Mathlib.Nat.{pow-suc}
use native.Mathlib.Omega.{arith}
use justdbd.Common.Lists.{length, All}

abbrev pub Byte : ℕ → Type 0
Byte b = b < 256

-- The low `n` bytes of a word, the lowest first.
unfoldable pub le_bytes : ℕ → ℕ → List ℕ
le_bytes zero v = []
le_bytes (suc n) v = v % 256 ∷ le_bytes n (v / 256)

unfoldable pub from_le : List ℕ → ℕ
from_le [] = 0
from_le (b ∷ bs) = b + 256 * from_le bs

pub length-le_bytes : (n v : ℕ) → length (le_bytes n v) ≡ n
unfolding le_bytes
length-le_bytes zero v = refl
length-le_bytes (suc n) v = ap suc (length-le_bytes n (v / 256))

le_bytes-Byte : (n v : ℕ) → All Byte (le_bytes n v)
unfolding le_bytes
le_bytes-Byte zero v = tt
le_bytes-Byte (suc n) v = (omega arith, le_bytes-Byte n (v / 256))

-- A word of `n` bytes is read back as it was written.
pub from_le-le_bytes : (n v : ℕ) → v < 256 ^ n → from_le (le_bytes n v) ≡ v
unfolding le_bytes from_le
from_le-le_bytes zero v h = omega arith
from_le-le_bytes (suc n) v h =
    let h' : v < 256 ^ n * 256 = rw pow-suc at h in
    omega (arith, from_le-le_bytes n (v / 256) (omega arith))

-- What is read from `n` bytes fits `n` bytes.
pub from_le-lt : (bytes : List ℕ) → All Byte bytes → from_le bytes < 256 ^ length bytes
unfolding from_le
from_le-lt [] h = omega arith
from_le-lt (b ∷ bs) h = rw pow-suc (omega (arith, from_le-lt bs h.1, h.0))

-- Bytes are written back as they were read.
pub le_bytes-from_le :
    (bytes : List ℕ) → All Byte bytes → le_bytes (length bytes) (from_le bytes) ≡ bytes
unfolding le_bytes from_le
le_bytes-from_le [] h = refl
le_bytes-from_le (b ∷ bs) h =
    let low : (b + 256 * from_le bs) % 256 ≡ b = omega (arith, h.0) in
    let high : (b + 256 * from_le bs) / 256 ≡ from_le bs = omega (arith, h.0) in
    rw (low, high, le_bytes-from_le bs h.1)
