-- ===== src/Storage/Scan/Agreement.antt =====
-- src/storage.rs: `scan` and `get` agree while no table has been flushed.
use justdbd.Common.{
  ℕ, zero, suc, ◌+◌, ◌≡◌, refl, sym, ap, ◌∙◌, Bool, true, false, List, [], ◌∷◌, Option, none, some,
  arith, reverse, Bool-cases, Option-cases, inl, inr, if◌then◌else◌, if-true, if-false,
}
use justdbd.Common.Float.{F64}
use justdbd.Common.Outcome.{ok, and_then}
use justdbd.Entry.{key_lt, compare_keys-eq}
use justdbd.Entry.Record.{Entry}
use justdbd.KeyMap.{KeyMap, lookup, insert, range}
use justdbd.KeyMap.Laws.{
  IsSorted, Above, Above-trans, compare_cases, insert-IsSorted, lookup-Above, keep-IsSorted,
}
use justdbd.MemTable
use justdbd.MemTable.{MemTable}
use justdbd.MemTable.Contents.{range_iter-range}
use justdbd.NumberMap.{slot}
use justdbd.Storage.Engine.{Engine}
use justdbd.Storage.Lookup.{get_in_memtables, value_of, get}
use justdbd.Storage.Lookup.Order.{get-memory}
use justdbd.Storage.Scan.{
  Results, collected, collect_all, is_superseded, collect_newer, collect_memtables, live_results,
  collect_levels, collect_level, scan,
}
use justdbd.Storage.Scan.Memory.{
  shown, put_over, in_range, gathered, AreSorted, IsAged, collect_memtables-gathered,
  lookup-collect_all, lookup-gathered, lookup-gathered_outside, lookup-range, get_in-next,
}
use justdbd.Storage.Tables.{Tables}

collect_all-IsSorted : (es : KeyMap Entry) (r : Results) → IsSorted r → IsSorted (collect_all es r)
unfolding collect_all
collect_all-IsSorted [] r s = s
collect_all-IsSorted ((j, e) ∷ es) r s =
    collect_all-IsSorted es (insert j (collected e) r) (insert-IsSorted j (collected e) r s)

collect_newer-IsSorted :
    (es : KeyMap Entry) (r : Results) → IsSorted r → IsSorted (collect_newer es r)
unfolding collect_newer
collect_newer-IsSorted [] r s = s
collect_newer-IsSorted ((j, e) ∷ es) r s = elim (Bool-cases (is_superseded (lookup j r) e)) [
  | inl old ↦ rw old (collect_newer-IsSorted es r s)
  | inr fresh ↦
      rw fresh
        (collect_newer-IsSorted es (insert j (collected e) r) (insert-IsSorted j (collected e) r s))
]

gathered-IsSorted :
    (start end : List ℕ) (ms : List MemTable) (r : Results)
    → IsSorted r
    → IsSorted (gathered start end ms r)
unfolding gathered
gathered-IsSorted start end [] r s = s
gathered-IsSorted start end (m ∷ ms) r s =
    gathered-IsSorted start end ms (collect_newer (range start end m.entries) r)
      (collect_newer-IsSorted (range start end m.entries) r s)

-- A value that is there and is not empty.
pub nonempty : Option (List ℕ) → Option (List ℕ)
nonempty none = none
nonempty (some []) = none
nonempty (some (b ∷ bs)) = some (b ∷ bs)

-- the value of a result
abbrev result_value : Option (List ℕ × ℕ) → Option (List ℕ)
result_value none = none
result_value (some (v, s)) = some v

Above-live_results : (q : List ℕ) (r : Results) → Above q r → Above q (live_results r)
unfolding live_results
Above-live_results q [] a = tt
Above-live_results q ((j, ([], s)) ∷ r) a = Above-live_results q r a.1
Above-live_results q ((j, (b ∷ bs, s)) ∷ r) a = (a.0, Above-live_results q r a.1)

live_results-IsSorted : (r : Results) → IsSorted r → IsSorted (live_results r)
unfolding live_results
live_results-IsSorted [] s = tt
live_results-IsSorted ((j, ([], n)) ∷ r) s = live_results-IsSorted r s.1
live_results-IsSorted ((j, (b ∷ bs, n)) ∷ r) s =
    (Above-live_results j r s.0, live_results-IsSorted r s.1)

lookup-live_results :
    (q : List ℕ) (r : Results)
    → IsSorted r
    → lookup q (live_results r) ≡ nonempty (result_value (lookup q r))
unfolding live_results lookup nonempty
lookup-live_results q [] s = refl
lookup-live_results q ((j, ([], n)) ∷ r) s = elim (compare_cases q j) [
  | inl below ↦
      let absent =
        lookup-Above q (live_results r) (Above-live_results q r (Above-trans q j r below s.0)) in
      ground (arith, absent)
  | inr (inl same) ↦
      let e = compare_keys-eq q j same in
      let absent = lookup-Above q (live_results r) (Above-live_results q r (rw e s.0)) in
      ground (arith, absent)
  | inr (inr above) ↦ ground (arith, lookup-live_results q r s.1)
]
lookup-live_results q ((j, (b ∷ bs, n)) ∷ r) s = ground (arith, lookup-live_results q r s.1)

shown-over : (o : Option Entry) → put_over none o ≡ shown o
shown-over none = refl
shown-over (some e) = refl

nonempty-shown : (o : Option Entry) → nonempty (result_value (shown o)) ≡ nonempty (value_of o)
unfolding nonempty value_of collected
nonempty-shown none = refl
nonempty-shown (some e) = elim (Option-cases e.value) [
  | inl dead ↦ rw (dead, collected)
  | inr (v, alive) ↦ rw (alive, collected)
]

shown_in_range :
    (inside : Bool) (o : Option Entry)
    → nonempty (result_value (shown (if inside then o else none)))
      ≡ (if inside then nonempty (value_of o) else none)
unfolding nonempty
shown_in_range true o = nonempty-shown o
shown_in_range false o = refl

module _ {f : F64} (t : Tables f) (start end : List ℕ) (e : Engine f t) where
  collect_levels-none : (n level : ℕ) (r : Results) → collect_levels t n level start end [] r ≡ ok r
  unfolding collect_levels collect_level slot
  collect_levels-none zero level r = refl
  collect_levels-none (suc n) level r = collect_levels-none n (level + 1) r

  -- the results in memory
  in_memory : Results
  in_memory =
      gathered start end (reverse e.immutable_memtables)
        (collect_all (range start end e.memtable.entries) [])

  scan-in_memory :
      e.is_closed ≡ false
      → e.sstables ≡ []
      → key_lt end start ≡ false
      → scan t start end e ≡ ok (live_results in_memory)
  unfolding scan in_memory
  scan-in_memory is_open none_flushed forward =
      let ms = reverse e.immutable_memtables in
      let first = collect_all (range start end e.memtable.entries) [] in
      if-false _ _ is_open
      ∙ ap
          (λ r. and_then r λ entries.
            and_then (collect_memtables start end ms (collect_all entries [])) λ found.
              and_then (collect_levels t e.config.max_levels 0 start end e.sstables found)
                λ results. ok (live_results results))
          (range_iter-range start end e.memtable forward)
      ∙ ap
          (λ r. and_then r λ found.
            and_then (collect_levels t e.config.max_levels 0 start end e.sstables found)
              λ results. ok (live_results results))
          (collect_memtables-gathered start end ms first forward)
      ∙ ap
          (λ levels.
            and_then (collect_levels t e.config.max_levels 0 start end levels in_memory)
              λ results. ok (live_results results))
          none_flushed
      ∙ ap (λ r. and_then r λ results. ok (live_results results))
          (collect_levels-none e.config.max_levels 0 in_memory)

  lookup-in_memory :
      (q : List ℕ)
      → AreSorted (e.memtable ∷ reverse e.immutable_memtables)
      → IsAged q none (e.memtable ∷ reverse e.immutable_memtables)
      → lookup q in_memory
        ≡ shown (
            if in_range start end q
            then get_in_memtables q (e.memtable ∷ reverse e.immutable_memtables)
            else none)
  unfolding in_memory IsAged lookup
  lookup-in_memory q s aged =
      let ms = reverse e.immutable_memtables in
      let m = e.memtable in
      let first = collect_all (range start end m.entries) [] in
      let at : lookup q first ≡ shown (if in_range start end q then MemTable.get q m else none) =
        lookup-collect_all q (range start end m.entries) []
          (keep-IsSorted (in_range start end) m.entries s.0)
        ∙ shown-over _
        ∙ ap shown (lookup-range start end q m s.0) in
      elim (Bool-cases (in_range start end q)) [
        | inl i ↦
            lookup-gathered start end q ms first (MemTable.get q m) s.1 i
              (at ∙ ap shown (if-true _ _ i)) aged
            ∙ ap shown (sym (get_in-next q m ms))
            ∙ ap shown (sym (if-true _ _ i))
        | inr i ↦
            lookup-gathered_outside start end q ms first s.1 i (at ∙ ap shown (if-false _ _ i))
            ∙ ap shown (sym (if-false _ _ i))
      ]

  in_memory-IsSorted : IsSorted in_memory
  unfolding in_memory
  in_memory-IsSorted =
      gathered-IsSorted start end (reverse e.immutable_memtables) _
        (collect_all-IsSorted (range start end e.memtable.entries) [] tt)

  -- On an open engine that has no table, whose memtables are sorted, and in whose memtables no key has a
  -- higher sequence number in an older memtable than in a newer one, `scan` of a range that does not run
  -- backwards succeeds, and so does `get` of every key. What `scan` returns is sorted by key, and holds
  -- exactly the keys of the range for which `get` returns a value that is not empty, with that value.
  pub scan-get :
      e.is_closed ≡ false
      → e.sstables ≡ []
      → key_lt end start ≡ false
      → AreSorted (e.memtable ∷ reverse e.immutable_memtables)
      → ((q : List ℕ) → IsAged q none (e.memtable ∷ reverse e.immutable_memtables))
      → (results : KeyMap (List ℕ)) × (scan t start end e ≡ ok results)
        × IsSorted results
        × ((q : List ℕ)
            → (v : Option (List ℕ)) × (get t q e ≡ ok v)
              × (lookup q results ≡ (if in_range start end q then nonempty v else none)))
  scan-get is_open none_flushed forward s aged =
      let found = λ (q : List ℕ). get_in_memtables q (e.memtable ∷ reverse e.immutable_memtables) in
      (
        live_results in_memory,
        scan-in_memory is_open none_flushed forward,
        live_results-IsSorted in_memory in_memory-IsSorted,
        λ q. (
          value_of (found q),
          get-memory t q e is_open none_flushed,
          lookup-live_results q in_memory in_memory-IsSorted
              ∙ ap (λ o. nonempty (result_value o)) (lookup-in_memory q s (aged q))
              ∙ shown_in_range (in_range start end q) (found q),
        ),
      )
