-- ===== src/Entry/Record.antt =====
-- src/lib.rs: `Entry`, and the limits on keys and values.
use justdbd.Common.{ℕ, ◌+◌, ◌*◌, Bool, true, false, List, Option, none, some, length}

pub record Entry : Type 0 where
  pub key : List ℕ
  pub value : Option (List ℕ)
  pub timestamp : ℕ
  pub sequence : ℕ

abbrev pub new : List ℕ → Option (List ℕ) → ℕ → ℕ → Entry
new key value timestamp sequence = record {
  key = key;
  value = value;
  timestamp = timestamp;
  sequence = sequence;
}

unfoldable pub is_deleted : Entry → Bool
is_deleted e = elim e.value [ none ↦ true | some v ↦ false ]

abbrev pub value_size : Option (List ℕ) → ℕ
value_size none = 0
value_size (some v) = length v

-- the key, the value, and 16 bytes for the timestamp and the sequence number
abbrev pub size : Entry → ℕ
size e = length e.key + value_size e.value + 16

abbrev pub max_key_size : ℕ
max_key_size = 1024

abbrev pub max_value_size : ℕ
max_value_size = 1024 * 1024
