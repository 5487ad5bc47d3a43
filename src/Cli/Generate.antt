-- ===== src/Cli/Generate.antt =====
-- src/bin/cli.rs: `generate_key` and `generate_value`.
pub mod Lengths
mod Tests
use justdbd.Common.{
  ℕ, zero, suc, ◌-◌, List, [], ◌∷◌, ◌++◌, min, ltb, length, take, replicate, if◌then◌else◌,
}
use justdbd.Storage.FileName.{padded}

-- `Vec::resize`
unfoldable pub resize : ℕ → ℕ → List ℕ → List ℕ
resize size filler bytes = take size bytes ++ replicate (size - length bytes) filler

unfoldable pub generate_key : ℕ → ℕ → List ℕ
generate_key id size = resize size b'0' (b'k' ∷ b'e' ∷ b'y' ∷ padded id)

unfoldable pub pattern_bytes : List ℕ
pattern_bytes =
    b'0' ∷ b'1' ∷ b'2' ∷ b'3' ∷ b'4' ∷ b'5' ∷ b'6' ∷ b'7' ∷ b'8' ∷ b'9' ∷ b'a' ∷ b'b' ∷ b'c' ∷ b'd'
    ∷ b'e' ∷ b'f' ∷ []

-- The loop while the value is shorter. A round appends at least one byte, so `size` rounds are enough.
unfoldable pub extend_value : ℕ → ℕ → List ℕ → List ℕ
extend_value zero size value = value
extend_value (suc rounds) size value =
    let remaining = size - length value in
    let longer =
      extend_value rounds size
        (value ++ take (min remaining (length pattern_bytes)) pattern_bytes) in
    if ltb (length value) size then longer else value

-- `truncate` keeps a value that is not longer.
unfoldable pub generate_value : ℕ → ℕ → List ℕ
generate_value id size =
    take size (extend_value size size (b'v' ∷ b'a' ∷ b'l' ∷ b'u' ∷ b'e' ∷ padded id))
