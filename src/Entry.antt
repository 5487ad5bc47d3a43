-- ===== src/Entry.antt =====
-- src/lib.rs: keys, values and entries. A `Vec<u8>` is a list of numbers below 256.
mod Order
pub mod Record
unfoldable pub use Order.{compare_keys, key_lt, key_le, key_eq}
pub use Order.{
  compare_keys_self, compare_keys-eq, compare_keys-gt, compare_keys-lt, compare_keys_trans,
  key_eq_self, key_eq_iff,
}
