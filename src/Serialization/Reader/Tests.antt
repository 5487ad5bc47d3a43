-- ===== src/Serialization/Reader/Tests.antt =====
-- src/serialization.rs: examples of the methods that look at the rest of the input.
use justdbd.Common.{◌≡◌, refl, false, [], ◌∷◌}
use justdbd.Common.Outcome.{ok}
use justdbd.Serialization.Reader.{
  Deserializer, peek_u8, remaining, is_eof, remaining_slice, ensure_byte, index,
}

abbrev second : Deserializer
second = record { data_of = 7 ∷ 8 ∷ 9 ∷ []; position = 1 }

looking_ahead :
    (peek_u8 second ≡ (ok 8, second))
    × (remaining second ≡ 2)
    × (is_eof second ≡ false)
    × (remaining_slice second ≡ (ok (8 ∷ 9 ∷ []), second))
unfolding peek_u8 ensure_byte index remaining is_eof remaining_slice
looking_ahead = (refl, refl, refl, refl)
