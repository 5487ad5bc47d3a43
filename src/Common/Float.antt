-- ===== src/Common/Float.antt =====
-- `f64` as a parameter: its values and the operations that the program uses. Nothing is assumed of
-- them, so what is proved holds whatever they compute.
use Prim.Native.Nat.{ℕ}
use mathlib.Core.Bool.{Bool}

pub record F64 : Type 1 where
  pub Carrier : Type 0
  -- the literal `mantissa * 10 ^ -decimals`
  pub literal : (mantissa decimals : ℕ) → Carrier
  pub of_usize : ℕ → Carrier
  -- `as usize`, which saturates
  pub to_usize : Carrier → ℕ
  pub neg : Carrier → Carrier
  pub sub : Carrier → Carrier → Carrier
  pub mul : Carrier → Carrier → Carrier
  pub div : Carrier → Carrier → Carrier
  pub ln : Carrier → Carrier
  pub exp : Carrier → Carrier
  pub ceil : Carrier → Carrier
  pub powi : Carrier → ℕ → Carrier
  pub powf : Carrier → Carrier → Carrier
  pub le : Carrier → Carrier → Bool
