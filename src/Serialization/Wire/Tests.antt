-- ===== src/Serialization/Wire/Tests.antt =====
-- src/serialization.rs: examples.
use justdbd.Common.{ℕ, ◌≡◌, ◌≢◌, ◌≤◌, ◌<◌, ◌^◌, ◌↔◌, List, [], ◌∷◌, ◌++◌, some, arith, length}
use justdbd.Common.Outcome.{ok, panic}
use justdbd.Serialization.Writer
use justdbd.Serialization.Writer.{Serializer, size, finish, write_variable_int}
use justdbd.Serialization.Reader
use justdbd.Serialization.Reader.{read_variable_int}
use justdbd.Serialization.Reader.Varint.{write_variable_int-read_variable_int}
use justdbd.Serialization.Wire.{vec_u8, serialize, serialized_sized, deseriaze}
use justdbd.Serialization.Wire.RoundTrip.{deseriaze-serialize, deseriaze-ne-panic}

abbrev three : List ℕ
three = 7 ∷ 8 ∷ 9 ∷ []

deseriaze-serialize_example :
    (out : List ℕ) × (serialize vec_u8 three ≡ ok out)
    × (serialized_sized vec_u8 three ≡ ok (length out))
    × ((deseriaze vec_u8 (out ++ 1 ∷ []) ≡ ok three) ↔ (length three < 2 ^ 32))
deseriaze-serialize_example = deseriaze-serialize vec_u8 three (1 ∷ []) (omega arith) (omega arith)

deseriaze-ne-panic_example : deseriaze vec_u8 three ≢ panic
deseriaze-ne-panic_example =
    deseriaze-ne-panic vec_u8 three (omega arith, (omega arith, (omega arith, tt))) (omega arith)

write_variable_int-read_variable_int_example :
    (s : Serializer) × (write_variable_int 300 Writer.new ≡ some s)
    × (size s ≤ 10)
    × ((read_variable_int (Reader.new (finish s ++ three))).0 ≡ ok 300)
write_variable_int-read_variable_int_example =
    write_variable_int-read_variable_int 300 three (omega arith) (omega arith)
