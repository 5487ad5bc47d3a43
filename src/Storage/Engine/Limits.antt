-- ===== src/Storage/Engine/Limits.antt =====
-- src/storage.rs: which writes `put` and `delete` accept.
use justdbd.Common.{
  ℕ, ◌<◌, ◌≤◌, ◌≡◌, ◌↔◌, ◌⊎◌, inl, inr, ap, sym, ◌∙◌, false, List, Option, none, some, length,
  lt_cases, Bool-cases,
}
use justdbd.Common.Float.{F64}
use justdbd.Common.Outcome.{ok, err}
use justdbd.Entry.Record
use justdbd.Error.{StorageError}
use justdbd.Storage.Engine.{Engine}
use justdbd.Storage.Engine.Writes.{
  Refusal, when_closed, long_key, long_value, write, writes-refused,
}
use justdbd.Storage.Lookup.Writes.{IsReady, get-put_lem, get-delete_lem}
use justdbd.Storage.Tables.{Tables}

-- The value of a `put` is within its limit; a `delete` has none.
abbrev pub HasShortValue : Option (List ℕ) → Type 0
HasShortValue none = Unit
HasShortValue (some v) = length v ≤ Record.max_value_size

module _ {f : F64} {t : Tables f} where
  -- The engine is open, and the key and the value are within their limits, which belong to them.
  pub record IsAccepted (e : Engine f t) (key : List ℕ) (value : Option (List ℕ)) : Type 0 where
    pub not_closed : e.is_closed ≡ false
    pub short_key : length key ≤ Record.max_key_size
    pub short_value : HasShortValue value

  IsAccepted-or_refused :
      (e : Engine f t) (key : List ℕ) (value : Option (List ℕ))
      → IsAccepted e key value ⊎ ((error : StorageError) × Refusal e key value error)
  IsAccepted-or_refused e key value = elim (Bool-cases e.is_closed) [
    | inl shut ↦ inr (_, when_closed shut)
    | inr is_open ↦ elim (lt_cases Record.max_key_size (length key)) [
      | inl long ↦ inr (_, long_key is_open long)
      | inr short ↦ of_value is_open short value
    ]
  ]
    where
      of_value :
          e.is_closed ≡ false
          → length key ≤ Record.max_key_size
          → (value : Option (List ℕ))
          → IsAccepted e key value ⊎ ((error : StorageError) × Refusal e key value error)
      of_value is_open short none =
          inl (record { not_closed = is_open; short_key = short; short_value = tt })
      of_value is_open short (some v) = elim (lt_cases Record.max_value_size (length v)) [
        | inl long ↦ inr (_, long_value is_open short long)
        | inr small ↦ inl (record { not_closed = is_open; short_key = short; short_value = small })
      ]

  module _ (now : ℕ) (key : List ℕ) (value : Option (List ℕ)) (e : Engine f t)
      (writable : e.memtable.immutable ≡ false)
      (room : length e.immutable_memtables < e.config.max_memtables) where
    IsAccepted-write : IsAccepted e key value → (write (some now) key value e).0 ≡ ok tt
    unfolding write
    IsAccepted-write k =
        of_value value k.short_value
          (record { not_closed = k.not_closed; writable = writable; room = room }) k.short_key
      where
        of_value :
            (v : Option (List ℕ))
            → HasShortValue v
            → IsReady t e
            → length key ≤ Record.max_key_size
            → (write (some now) key v e).0 ≡ ok tt
        of_value none small ready short = (get-delete_lem t now key e ready short).0
        of_value (some v) small ready short = (get-put_lem t now key v e ready short small).0

    -- On an engine whose memtable takes writes, with room for one more immutable memtable and a clock
    -- behind the epoch, a write succeeds exactly if the engine is open and the key and the value have
    -- at most as many bytes as their limits. A write that does not succeed is refused, with the error
    -- of the first of these conditions that fails, and leaves the engine as it was.
    pub write_iff :
        (((write (some now) key value e).0 ≡ ok tt) ↔ IsAccepted e key value)
        × (((write (some now) key value e).0 ≡ ok tt)
            ⊎ ((error : StorageError) × Refusal e key value error
                × (write (some now) key value e ≡ (err error, e))))
    write_iff = elim (IsAccepted-or_refused e key value) [
      | inl k ↦ ((λ h. k, IsAccepted-write), inl (IsAccepted-write k))
      | inr (error, why) ↦
          let refused = writes-refused (some now) key value e why in
          (
            (λ h. absurd (let same = sym h ∙ ap (λ r. r.0) refused in cc), IsAccepted-write),
            inr (error, why, refused),
          )
    ]
