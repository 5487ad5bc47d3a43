-- ===== src/MemTable/Tests.antt =====
-- src/memtable.rs: examples. `one` holds a value of five bytes under one key.
use justdbd.Common.{ℕ, ◌+◌, ◌-◌, ◌^◌, ◌<◌, ◌≡◌, refl, true, false, List, [], ◌∷◌, none, some, arith}
use justdbd.Common.Outcome.{ok, panic}
use justdbd.Entry.{compare_keys}
use justdbd.Entry.Record
use justdbd.Entry.Record.{Entry}
use justdbd.KeyMap.{lookup, keep}
use justdbd.MemTable.{
  MemTable, empty_at, new, with_sequence, current_timestamp, put, contains_key, should_flush,
  make_immutable, range_iter, scan_from, all_entries, memory_usage, extremes, or_zero,
}
use justdbd.MemTable.Contents.{Write, put_of, delete_of, run, seen, replay, run_refines}
use justdbd.MemTable.Sizes.{put_smaller}
use justdbd.MemTable.Valid.{IsValid, HasRoom, total, written_entry, put-IsValid}

abbrev name : List ℕ
name = 110 ∷ []

abbrev other_name : List ℕ
other_name = 111 ∷ []

abbrev five : List ℕ
five = 1 ∷ 2 ∷ 3 ∷ 4 ∷ 5 ∷ []

abbrev stored : Entry
stored = Record.new name (some five) 7 0

abbrev one : MemTable
one = record {
  entries = (name, stored) ∷ [];
  size = 22;
  count = 1;
  created_at = 6;
  sequence_counter = 1;
  max_size = 100;
  immutable = false;
}

one-IsValid : IsValid one
unfolding total
one-IsValid = record {
  sorted = (tt, tt);
  keyed = (refl, tt);
  counted = refl;
  covered = omega arith;
  fresh = (omega arith, tt);
}

abbrev room : {size : ℕ} → size < 2 ^ 61 → HasRoom size one
room h = record {
  size_room = omega arith;
  write_room = h;
  count_room = omega arith;
  sequence_room = omega arith;
}

put-IsValid_example :
    ((put (some 9) name (3 ∷ []) one).0 ≡ ok tt) × IsValid (put (some 9) name (3 ∷ []) one).1
put-IsValid_example = put-IsValid 9 name (3 ∷ []) one one-IsValid (room (omega arith)) refl

abbrev writes : List Write
writes = put_of 8 other_name five ∷ delete_of 9 name ∷ put_of 10 name (3 ∷ []) ∷ []

run_refines_example : seen (run writes one) ≡ replay writes (seen one)
run_refines_example = run_refines writes one refl

put_smaller_example :
    let m' = (put (some 9) name [] one).1 in
    let difference = Record.size stored - Record.size (written_entry 9 name (some []) one) in
    (m'.size ≡ one.size + difference) × (total m'.entries + difference ≡ total one.entries)
unfolding lookup compare_keys
put_smaller_example =
    put_smaller 9 name [] stored one one-IsValid (room (omega arith)) refl refl (omega arith)

reading :
    (contains_key name one ≡ true)
    × (contains_key other_name one ≡ false)
    × (should_flush one ≡ false)
    × (range_iter name other_name one ≡ ok one.entries)
    × (range_iter other_name name one ≡ panic)
    × (scan_from other_name one ≡ [])
    × (all_entries one ≡ one.entries)
    × ((memory_usage one).min_value_size ≡ 5)
    × ((memory_usage (make_immutable (empty_at 100 5 6))).min_key_size ≡ 0)
    × (new 100 (some 6) ≡ ok (empty_at 100 0 6))
    × (new 100 none ≡ panic)
unfolding contains_key should_flush range_iter scan_from all_entries memory_usage extremes or_zero
    make_immutable new with_sequence current_timestamp lookup compare_keys keep
reading = (refl, refl, refl, refl, refl, refl, refl, refl, refl, refl, refl)
