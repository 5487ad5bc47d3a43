-- ===== src/Storage/Compaction/Merge.antt =====
-- src/storage.rs: what `merge_sstables` keeps.
use Prim.Native.Nat.Ordering.{lt}
use justdbd.Common.{
  ℕ, ◌≡◌, refl, ap, ◌∙◌, true, List, [], ◌∷◌, ◌++◌, Option, none, some, arith, ltb, All, Bool-cases,
  Option-cases, inl, inr, if◌then◌else◌,
}
use justdbd.Common.Float.{F64}
use justdbd.Common.Outcome.{ok, and_then, and_then-eq_ok}
use justdbd.Entry.{compare_keys, key_eq, key_lt, key_eq_iff, compare_keys-eq}
use justdbd.Entry.Record
use justdbd.Entry.Record.{Entry}
use justdbd.Error.{Result}
use justdbd.KeyMap.{KeyMap, lookup}
use justdbd.KeyMap.Laws.{
  compare_cases, Above, Above-trans, IsSorted, AllValues, insert-IsSorted, AllValues-insert,
  lookup-insert,
}
use justdbd.Storage.Compaction.{
  merge_entry, merge_entries, live_values, merge_tables, merge_sstables,
}
use justdbd.Storage.Tables.{Tables}

-- The later of two entries is kept if its sequence number is higher.
abbrev pub newer : Option Entry → Option Entry → Option Entry
newer none o = o
newer (some a) none = some a
newer (some a) (some b) = if ltb a.sequence b.sequence then some b else some a

-- The entry of a key with the highest sequence number, the first of them if there are several.
pub newest : List ℕ → List Entry → Option Entry
newest q [] = none
newest q (e ∷ es) =
    let later = newest q es in if key_eq q e.key then newer (some e) later else later

-- Nothing in place of a tombstone.
pub live : Option Entry → Option Entry
live none = none
live (some e) = if Record.is_deleted e then none else some e

-- The first entry under a key.
pub find : List ℕ → List Entry → Option Entry
find q [] = none
find q (e ∷ es) = let later = find q es in if key_eq q e.key then some e else later

-- The keys ascend.
pub IsAscending : List Entry → Type 0
IsAscending [] = Unit
IsAscending (e ∷ es) = All (λ (g : Entry). key_lt e.key g.key ≡ true) es × IsAscending es

newer_assoc : (a b c : Option Entry) → newer (newer a b) c ≡ newer a (newer b c)
newer_assoc none b c = refl
newer_assoc (some a) none c = refl
newer_assoc (some a) (some b) none = ground arith
newer_assoc (some a) (some b) (some c) = ground arith

lookup-merge_entry :
    (q : List ℕ) (e : Entry) (m : KeyMap Entry)
    → lookup q (merge_entry e m) ≡ newer (lookup q m) (if key_eq q e.key then some e else none)
unfolding merge_entry
lookup-merge_entry q e m = elim (Bool-cases (key_eq q e.key)) [
  | inr other ↦ ground (arith, lookup-insert e.key q e m)
  | inl same ↦
      let k : q ≡ e.key = (key_eq_iff q e.key).0 same in
      let l : lookup q m ≡ lookup e.key m = ap (λ x. lookup x m) k in
      ground (arith, lookup-insert e.key q e m)
]

-- After the loop a key has the newest of what it had and of the entries.
lookup-merge_entries :
    (q : List ℕ) (es : List Entry) (m : KeyMap Entry)
    → lookup q (merge_entries es m) ≡ newer (lookup q m) (newest q es)
unfolding merge_entries newest
lookup-merge_entries q [] m = elim (Option-cases (lookup q m)) [
  | inl absent ↦ rw absent
  | inr (a, present) ↦ rw present
]
lookup-merge_entries q (e ∷ es) m =
    lookup-merge_entries q es (merge_entry e m)
    ∙ ap (λ o. newer o (newest q es)) (lookup-merge_entry q e m)
    ∙ newer_assoc (lookup q m) (if key_eq q e.key then some e else none) (newest q es)
    ∙ ap (newer (lookup q m))
        (elim (Bool-cases (key_eq q e.key)) [ inl same ↦ rw same | inr other ↦ rw other ])

-- Under each key stands an entry of this key.
abbrev IsKeyed : KeyMap Entry → Type 0
IsKeyed m = AllValues (λ k (e : Entry). e.key ≡ k) m

merge_entry-keeps :
    (e : Entry) (m : KeyMap Entry)
    → IsSorted m
    → IsKeyed m
    → IsSorted (merge_entry e m) × IsKeyed (merge_entry e m)
unfolding merge_entry
merge_entry-keeps e m s k = elim (Option-cases (lookup e.key m)) [
  | inl absent ↦
      rw (absent, merge_entry) (insert-IsSorted e.key e m s, AllValues-insert _ e.key e m refl k)
  | inr (a, present) ↦ elim (Bool-cases (ltb a.sequence e.sequence)) [
    | inl higher ↦
        rw (present, higher, merge_entry)
          (insert-IsSorted e.key e m s, AllValues-insert _ e.key e m refl k)
    | inr lower ↦ rw (present, lower, merge_entry) (s, k)
  ]
]

merge_entries-keeps :
    (es : List Entry) (m : KeyMap Entry)
    → IsSorted m
    → IsKeyed m
    → IsSorted (merge_entries es m) × IsKeyed (merge_entries es m)
unfolding merge_entries
merge_entries-keeps [] m s k = (s, k)
merge_entries-keeps (e ∷ es) m s k =
    let (s', k') = merge_entry-keeps e m s k in merge_entries-keeps es (merge_entry e m) s' k'

-- A key below all others is not found,
find-Above : (q : List ℕ) (m : KeyMap Entry) → Above q m → IsKeyed m → find q (live_values m) ≡ none
unfolding find live_values
find-Above q [] a k = refl
find-Above q ((j, e) ∷ m) a k =
    let other : compare_keys q e.key ≡ lt = rw k.0 a.0 in ground (arith, find-Above q m a.1 k.1)

-- and lies below all that are kept.
All-Above :
    (q : List ℕ) (m : KeyMap Entry)
    → Above q m
    → IsKeyed m
    → All (λ (g : Entry). key_lt q g.key ≡ true) (live_values m)
unfolding live_values
All-Above q [] a k = tt
All-Above q ((j, e) ∷ m) a k =
    let below : compare_keys q e.key ≡ lt = rw k.0 a.0 in
    let rest = All-Above q m a.1 k.1 in
    elim (Bool-cases (Record.is_deleted e)) [
      | inl dead ↦ rw dead rest
      | inr alive ↦ rw alive (rw (below, key_lt), rest)
    ]

live_values-IsAscending : (m : KeyMap Entry) → IsSorted m → IsKeyed m → IsAscending (live_values m)
unfolding live_values IsAscending
live_values-IsAscending [] s k = tt
live_values-IsAscending ((j, e) ∷ m) s k =
    let rest = live_values-IsAscending m s.1 k.1 in
    elim (Bool-cases (Record.is_deleted e)) [
      | inl dead ↦ rw dead rest
      | inr alive ↦ rw alive (rw k.0 (All-Above j m s.0 k.1), rest)
    ]

find-live_values :
    (q : List ℕ) (m : KeyMap Entry)
    → IsSorted m
    → IsKeyed m
    → find q (live_values m) ≡ live (lookup q m)
unfolding find live_values lookup live
find-live_values q [] s k = refl
find-live_values q ((j, e) ∷ m) s k =
    let same : compare_keys q e.key ≡ compare_keys q j = ap (compare_keys q) k.0 in
    elim (compare_cases q j) [
      | inl below ↦ ground (arith, find-Above q m (Above-trans q j m below s.0) k.1)
      | inr (inl at) ↦
          let e' = compare_keys-eq q j at in ground (arith, find-Above q m (rw e' s.0) k.1)
      | inr (inr above) ↦ ground (arith, find-live_values q m s.1 k.1)
    ]

module _ {f : F64} (t : Tables f) where
  -- The entries of tables, one table after the other.
  unfoldable pub gather : List t.Table → Result (List Entry)
  gather [] = ok []
  gather (table ∷ tables) =
      and_then (t.entries table) λ es. and_then (gather tables) λ rest. ok (es ++ rest)

  merge_entries-append :
      (xs ys : List Entry) (m : KeyMap Entry)
      → merge_entries (xs ++ ys) m ≡ merge_entries ys (merge_entries xs m)
  unfolding merge_entries
  merge_entries-append [] ys m = refl
  merge_entries-append (x ∷ xs) ys m = merge_entries-append xs ys (merge_entry x m)

  merge_tables-gather :
      (tables : List t.Table) (m : KeyMap Entry) {es : List Entry}
      → gather tables ≡ ok es
      → merge_tables t tables m ≡ ok (merge_entries es m)
  unfolding merge_tables gather merge_entries
  merge_tables-gather [] m {es} h = let e : es ≡ [] = cc in rw e
  merge_tables-gather (table ∷ tables) m {es} h =
      let (xs, read, rest) = and_then-eq_ok (t.entries table) _ h in
      let (ys, others, last) = and_then-eq_ok (gather tables) _ rest in
      let e : es ≡ xs ++ ys = cc in
      rw (read, e, merge_entries-append xs ys m)
        (merge_tables-gather tables (merge_entries xs m) others)

  -- If all entries of the tables can be read, the merge succeeds. Its keys ascend, and what it has
  -- under a key is the entry with the highest sequence number among those of all tables (the first
  -- of them if several have it), or nothing if that entry is a tombstone or there is none.
  pub merge_sstables-newest :
      (tables1 tables2 : List t.Table) {es : List Entry}
      → gather (tables1 ++ tables2) ≡ ok es
      → (merged : List Entry) × (merge_sstables t tables1 tables2 ≡ ok merged)
        × IsAscending merged
        × ((q : List ℕ) → find q merged ≡ live (newest q es))
  unfolding merge_sstables lookup
  merge_sstables-newest tables1 tables2 {es} h =
      let (sorted, keyed) = merge_entries-keeps es [] tt tt in
      let m = merge_entries es [] in
      (
        live_values m,
        ap (λ r. and_then r λ x. ok (live_values x))
            (merge_tables-gather (tables1 ++ tables2) [] h),
        live_values-IsAscending m sorted keyed,
        λ q. find-live_values q m sorted keyed ∙ ap live (lookup-merge_entries q es []),
      )
