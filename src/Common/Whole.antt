-- ===== src/Common/Whole.antt =====
-- Natural numbers in the place of the floating-point numbers, for the examples. A literal is rounded up.
use justdbd.Common.{ℕ, ◌+◌, ◌*◌, ◌-◌, ◌/◌, ◌^◌, leb}
use justdbd.Common.Float.{F64}

abbrev pub whole : F64
whole = record {
  Carrier = ℕ;
  literal = λ mantissa decimals. (mantissa + 10 ^ decimals - 1) / 10 ^ decimals;
  of_usize = λ n. n;
  to_usize = λ x. x;
  neg = λ x. 0;
  sub = λ x y. x - y;
  mul = λ x y. x * y;
  div = λ x y. x / y;
  ln = λ x. 0;
  exp = λ x. 1;
  ceil = λ x. x;
  powi = λ x n. x ^ n;
  powf = λ x y. x ^ y;
  le = leb;
}
