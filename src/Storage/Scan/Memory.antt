-- ===== src/Storage/Scan/Memory.antt =====
-- src/storage.rs: what `scan` finds in the memtables.
use justdbd.Common.{
  ℕ, ◌≤◌, ◌≡◌, refl, sym, ap, ◌∙◌, Bool, true, false, ◌&&◌, List, [], ◌∷◌, Option, none, some,
  arith, leb, All, Bool-cases, Option-cases, inl, inr, if◌then◌else◌, if-true, if-false,
}
use justdbd.Common.Outcome.{ok, and_then}
use justdbd.Entry.{key_lt, key_le, key_eq, key_eq_iff, compare_keys-eq}
use justdbd.Entry.Record.{Entry}
use justdbd.MemTable
use justdbd.MemTable.{MemTable}
use justdbd.MemTable.Contents.{get-lookup, range_iter-range}
use justdbd.Storage.Lookup.{get_in_memtables}
use justdbd.KeyMap.{KeyMap, lookup, insert, range}
use justdbd.KeyMap.Laws.{
  IsSorted, Above-trans, compare_cases, lookup-insert, lookup-Above, lookup-keep, keep-IsSorted,
}
use justdbd.Storage.Scan.{
  Results, collected, collect_all, is_superseded, collect_newer, collect_memtables,
}

-- What an entry contributes, beside what is there.
abbrev pick : Option (List ℕ × ℕ) → Option Entry → Option (List ℕ × ℕ)
pick o none = o
pick none (some e) = some (collected e)
pick (some (v, s)) (some e) = if leb e.sequence s then some (v, s) else some (collected e)

-- The same without a look at the sequence numbers.
abbrev pub put_over : Option (List ℕ × ℕ) → Option Entry → Option (List ℕ × ℕ)
put_over o none = o
put_over o (some e) = some (collected e)

pub lookup-collect_all :
    (q : List ℕ) (es : KeyMap Entry) (r : Results)
    → IsSorted es
    → lookup q (collect_all es r) ≡ put_over (lookup q r) (lookup q es)
unfolding collect_all lookup
lookup-collect_all q [] r s = refl
lookup-collect_all q ((j, e) ∷ es) r s =
    let step = lookup-insert j q (collected e) r in
    let rest = lookup-collect_all q es (insert j (collected e) r) s.1 in
    elim (compare_cases q j) [
      | inl below ↦
          let absent = lookup-Above q es (Above-trans q j es below s.0) in
          ground (arith, step, rest, absent)
      | inr (inl same) ↦
          let absent = lookup-Above q es (rw (compare_keys-eq q j same) s.0) in
          ground (arith, step, rest, absent)
      | inr (inr above) ↦ ground (arith, step, rest)
    ]

-- one round of the loop over other entries
newer_round :
    (q j : List ℕ) (e : Entry) (r : Results)
    → lookup q (if is_superseded (lookup j r) e then r else insert j (collected e) r)
      ≡ (if key_eq q j then pick (lookup q r) (some e) else lookup q r)
unfolding is_superseded
newer_round q j e r = elim (Bool-cases (key_eq q j)) [
  | inr other ↦ ground (arith, lookup-insert j q (collected e) r)
  | inl same ↦
      let at : lookup q r ≡ lookup j r = ap (λ x. lookup x r) ((key_eq_iff q j).0 same) in
      ground (arith, lookup-insert j q (collected e) r)
]

lookup-collect_newer :
    (q : List ℕ) (es : KeyMap Entry) (r : Results)
    → IsSorted es
    → lookup q (collect_newer es r) ≡ pick (lookup q r) (lookup q es)
unfolding collect_newer lookup
lookup-collect_newer q [] r s = refl
lookup-collect_newer q ((j, e) ∷ es) r s =
    let r' = if is_superseded (lookup j r) e then r else insert j (collected e) r in
    let step = newer_round q j e r in
    let rest = lookup-collect_newer q es r' s.1 in
    elim (compare_cases q j) [
      | inl below ↦
          let absent = lookup-Above q es (Above-trans q j es below s.0) in
          rest ∙ rw (absent, below, lookup) (step ∙ rw (below, key_eq))
      | inr (inl same) ↦
          let absent = lookup-Above q es (rw (compare_keys-eq q j same) s.0) in
          rest ∙ rw (absent, same, lookup) (step ∙ rw (same, key_eq))
      | inr (inr above) ↦
          let at : lookup q r' ≡ lookup q r = step ∙ rw (above, key_eq) in
          rest ∙ rw (above, lookup) (ap (λ o. pick o (lookup q es)) at)
    ]

-- What an entry shows in the results.
abbrev pub shown : Option Entry → Option (List ℕ × ℕ)
shown none = none
shown (some e) = some (collected e)

-- The first of two entries.
abbrev pub or_next : Option Entry → Option Entry → Option Entry
or_next (some e) o = some e
or_next none o = o

-- In each further memtable the entry under the key has no higher sequence number than the first.
unfoldable pub IsAged : List ℕ → Option Entry → List MemTable → Type 0
IsAged q o [] = Unit
IsAged q none (m ∷ ms) = IsAged q (MemTable.get q m) ms
IsAged q (some a) (m ∷ ms) =
    ((b : Entry) → MemTable.get q m ≡ some b → b.sequence ≤ a.sequence) × IsAged q (some a) ms

collected-sequence : (e : Entry) → (collected e).1 ≡ e.sequence
unfolding collected
collected-sequence e = elim (Option-cases e.value) [
  | inl dead ↦ rw (dead, collected)
  | inr (v, alive) ↦ rw (alive, collected)
]

pick-shown :
    (a : Entry) (o : Option Entry)
    → ((b : Entry) → o ≡ some b → b.sequence ≤ a.sequence)
    → pick (some (collected a)) o ≡ some (collected a)
pick-shown a none h = refl
pick-shown a (some b) h =
    let older = h b refl in
    let test : leb b.sequence (collected a).1 ≡ true = ground (arith, collected-sequence a) in
    if-true _ _ test

get_in-none : (q : List ℕ) → get_in_memtables q [] ≡ none
unfolding get_in_memtables
get_in-none q = refl

pub get_in-next :
    (q : List ℕ) (m : MemTable) (ms : List MemTable)
    → get_in_memtables q (m ∷ ms) ≡ or_next (MemTable.get q m) (get_in_memtables q ms)
unfolding get_in_memtables
get_in-next q m ms = elim (Option-cases (MemTable.get q m)) [
  | inl miss ↦ rw (miss, get_in_memtables)
  | inr (e, hit) ↦ rw (hit, get_in_memtables)
]

pick-none : (o : Option Entry) → pick none o ≡ shown o
pick-none none = refl
pick-none (some e) = refl

abbrev pub AreSorted : List MemTable → Type 0
AreSorted ms = All (λ (m : MemTable). IsSorted m.entries) ms

module _ (start end : List ℕ) where
  abbrev pub in_range : List ℕ → Bool
  in_range q = key_le start q && key_lt q end

  -- The results after further memtables.
  unfoldable pub gathered : List MemTable → Results → Results
  gathered [] r = r
  gathered (m ∷ ms) r = gathered ms (collect_newer (range start end m.entries) r)

  pub collect_memtables-gathered :
      (ms : List MemTable) (r : Results)
      → key_lt end start ≡ false
      → collect_memtables start end ms r ≡ ok (gathered ms r)
  unfolding collect_memtables gathered
  collect_memtables-gathered [] r h = refl
  collect_memtables-gathered (m ∷ ms) r h =
      let r1 = collect_newer (range start end m.entries) r in
      ap (λ x. and_then x λ entries. collect_memtables start end ms (collect_newer entries r))
        (range_iter-range start end m h)
      ∙ collect_memtables-gathered ms r1 h

  module _ (q : List ℕ) where
    -- one memtable's entries in the range
    pub lookup-range :
        (m : MemTable)
        → IsSorted m.entries
        → lookup q (range start end m.entries) ≡ (if in_range q then MemTable.get q m else none)
    lookup-range m s =
        lookup-keep in_range q m.entries s
        ∙ ap (λ o. if in_range q then o else none) (sym (get-lookup q m))

    lookup-newer :
        (m : MemTable) (r : Results)
        → IsSorted m.entries
        → lookup q (collect_newer (range start end m.entries) r)
          ≡ pick (lookup q r) (if in_range q then MemTable.get q m else none)
    lookup-newer m r s =
        lookup-collect_newer q (range start end m.entries) r (keep-IsSorted in_range m.entries s)
        ∙ ap (pick (lookup q r)) (lookup-range m s)

    -- Under a key in the range the results show the first entry,
    pub lookup-gathered :
        (ms : List MemTable) (r : Results) (o : Option Entry)
        → AreSorted ms
        → in_range q ≡ true
        → lookup q r ≡ shown o
        → IsAged q o ms
        → lookup q (gathered ms r) ≡ shown (or_next o (get_in_memtables q ms))
    unfolding gathered IsAged
    lookup-gathered [] r none s i at aged = at ∙ ap shown (sym (get_in-none q))
    lookup-gathered [] r (some a) s i at aged = at
    lookup-gathered (m ∷ ms) r none s i at aged =
        let step =
          lookup-newer m r s.0
          ∙ ap (λ o. pick o (if in_range q then MemTable.get q m else none)) at
          ∙ pick-none _
          ∙ ap shown (if-true (MemTable.get q m) none i) in
        lookup-gathered ms (collect_newer (range start end m.entries) r) (MemTable.get q m) s.1 i
          step aged
        ∙ ap shown (sym (get_in-next q m ms))
    lookup-gathered (m ∷ ms) r (some a) s i at aged =
        let step =
          lookup-newer m r s.0
          ∙ ap (λ o. pick o (if in_range q then MemTable.get q m else none)) at
          ∙ ap (pick (some (collected a))) (if-true (MemTable.get q m) none i)
          ∙ pick-shown a (MemTable.get q m) aged.0 in
        lookup-gathered ms (collect_newer (range start end m.entries) r) (some a) s.1 i step aged.1

    -- and nothing under any other.
    pub lookup-gathered_outside :
        (ms : List MemTable) (r : Results)
        → AreSorted ms
        → in_range q ≡ false
        → lookup q r ≡ none
        → lookup q (gathered ms r) ≡ none
    unfolding gathered
    lookup-gathered_outside [] r s i at = at
    lookup-gathered_outside (m ∷ ms) r s i at =
        lookup-gathered_outside ms (collect_newer (range start end m.entries) r) s.1 i (
          lookup-newer m r s.0
          ∙ ap (λ o. pick o (if in_range q then MemTable.get q m else none)) at
          ∙ ap (pick none) (if-false (MemTable.get q m) none i))
