-- ===== src/Cli/Generate/Tests.antt =====
-- src/bin/cli.rs: examples of generated keys and values.
use justdbd.Common.{◌≡◌, refl, [], ◌∷◌}
use justdbd.Cli.Generate.{generate_key, generate_value, resize, extend_value, pattern_bytes}
use justdbd.Storage.FileName.{padded}

-- The key of the number 12, with a size of 16 and of 5.
keys :
    (generate_key 12 16
      ≡ b'k' ∷ b'e' ∷ b'y' ∷ b'0' ∷ b'0' ∷ b'0' ∷ b'0' ∷ b'0' ∷ b'0' ∷ b'0' ∷ b'0' ∷ b'1' ∷ b'2'
        ∷ b'0' ∷ b'0' ∷ b'0' ∷ [])
    × (generate_key 12 5 ≡ b'k' ∷ b'e' ∷ b'y' ∷ b'0' ∷ b'0' ∷ [])
unfolding generate_key resize padded
keys = (refl, refl)

-- The pattern is cut where the size is reached.
values :
    generate_value 7 18
    ≡ b'v' ∷ b'a' ∷ b'l' ∷ b'u' ∷ b'e' ∷ b'0' ∷ b'0' ∷ b'0' ∷ b'0' ∷ b'0' ∷ b'0' ∷ b'0' ∷ b'0'
      ∷ b'0' ∷ b'7' ∷ b'0' ∷ b'1' ∷ b'2' ∷ []
unfolding generate_value extend_value pattern_bytes padded
values = refl
