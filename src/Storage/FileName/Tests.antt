-- ===== src/Storage/FileName/Tests.antt =====
-- src/storage.rs: an example of a file name.
use justdbd.Common.{◌≡◌, refl, [], ◌∷◌, some, none, arith}
use justdbd.Storage.FileName.{FileName, padded, format, parse_level_from_filename}
use justdbd.Storage.FileName.RoundTrip.{parse_level_from_filename-format}

abbrev flushed : FileName
flushed = record { level = 12; timestamp = 1700000000; sequence = 5 }

parse_level_from_filename-format_example : parse_level_from_filename (format flushed) ≡ some 12
parse_level_from_filename-format_example = parse_level_from_filename-format flushed (omega arith)

padded_seconds : padded 42 ≡ 48 ∷ 48 ∷ 48 ∷ 48 ∷ 48 ∷ 48 ∷ 48 ∷ 48 ∷ b'4' ∷ b'2' ∷ []
unfolding padded
padded_seconds = refl

other_names :
    (parse_level_from_filename (b'x' ∷ b'1' ∷ b'_' ∷ []) ≡ none)
    × (parse_level_from_filename (b'L' ∷ b'_' ∷ []) ≡ none)
    × (parse_level_from_filename (b'L' ∷ b'+' ∷ b'3' ∷ b'_' ∷ []) ≡ some 3)
unfolding parse_level_from_filename
other_names = (refl, refl, refl)
