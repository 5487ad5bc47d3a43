-- ===== src/MemTable/Valid.antt =====
-- src/memtable.rs: the invariant of a memtable, which every write keeps.
use native.Mathlib.Nat.{mod-eq_of_lt}
use justdbd.Common.{
  ℕ, ◌+◌, ◌-◌, ◌%◌, ◌^◌, ◌≤◌, ◌<◌, ◌≡◌, refl, false, List, [], ◌∷◌, Option, none, some, arith, ltb,
  length, if◌then◌else◌,
}
use justdbd.Common.Outcome.{ok}
use justdbd.Entry.Record
use justdbd.Entry.Record.{Entry}
use justdbd.KeyMap.{KeyMap, lookup, insert}
use justdbd.KeyMap.Laws.{
  IsSorted, AllValues, insert-IsSorted, AllValues-insert, length-insert, found, AllValues-imp,
}
use justdbd.MemTable.{
  MemTable, empty_at, with_sequence, current_timestamp, next_sequence, timestamp, size_data, adjust,
  store, write, put, delete,
}

-- The exact size of the contents.
unfoldable pub total : KeyMap Entry → ℕ
total [] = 0
total ((k, e) ∷ m) = Record.size e + total m

pub old_size : Option Entry → ℕ
old_size none = 0
old_size (some e) = Record.size e

pub total-insert :
    (k : List ℕ) (e : Entry) (m : KeyMap Entry)
    → total (insert k e m) + old_size (lookup k m) ≡ total m + Record.size e
unfolding total old_size insert lookup
total-insert k e [] = omega arith
total-insert k e ((j, f) ∷ m) = ground (arith, total-insert k e m)

old_size-le : (k : List ℕ) (m : KeyMap Entry) → old_size (lookup k m) ≤ total m
unfolding total old_size lookup
old_size-le k [] = omega arith
old_size-le k ((j, f) ∷ m) = ground (arith, old_size-le k m)

pub old_size-some : (old : Entry) → old_size (some old) ≡ Record.size old
unfolding old_size
old_size-some old = refl

-- The keys are in order, an entry stands under its own key, the counter counts, the size is never
-- below that of the contents, and the next sequence number is above all that were used.
pub record IsValid (m : MemTable) : Type 0 where
  pub sorted : IsSorted m.entries
  pub keyed : AllValues (λ k e. e.key ≡ k) m.entries
  pub counted : m.count ≡ length m.entries
  pub covered : total m.entries ≤ m.size
  pub fresh : AllValues (λ _ e. e.sequence < m.sequence_counter) m.entries

-- There is room for one more write: no counter is near its limit.
pub record HasRoom (size : ℕ) (m : MemTable) : Type 0 where
  pub size_room : m.size < 2 ^ 61
  pub write_room : size < 2 ^ 61
  pub count_room : length m.entries < 2 ^ 63
  pub sequence_room : m.sequence_counter < 2 ^ 63

-- What a write adds to the size: it is the distance of the two sizes also when the entry shrinks.
pub charged : ℕ → Option Entry → ℕ
charged size none = size
charged size (some old) =
    if ltb (Record.size old) size then size - Record.size old else Record.size old - size

pub charged_smaller :
    (size : ℕ) (old : Entry)
    → size ≤ Record.size old
    → charged size (some old) ≡ Record.size old - size
unfolding charged
charged_smaller size old h = ground arith

charged_covers : (size : ℕ) (old : Option Entry) → size ≤ old_size old + charged size old
unfolding charged old_size
charged_covers size none = omega arith
charged_covers size (some old) = ground arith

adjust-charged :
    (e : Entry) (old : Option Entry) (size : ℕ)
    → size < 2 ^ 61
    → Record.size e < 2 ^ 61
    → old_size old ≤ size
    → adjust size (size_data e old) ≡ size + charged (Record.size e) old
unfolding adjust size_data charged old_size
adjust-charged e none size h k r = ground arith
adjust-charged e (some old) size h k r = ground arith

module _ (now : ℕ) (key : List ℕ) (value : Option (List ℕ)) (m : MemTable) where
  abbrev pub written_entry : Entry
  written_entry = Record.new key value (now % 2 ^ 64) m.sequence_counter

  -- The state after a write that meets no limit.
  abbrev pub written : MemTable
  written = record m {
    entries = insert key written_entry m.entries;
    size = m.size + charged (Record.size written_entry) (lookup key m.entries);
    count = m.count + 1 - found (lookup key m.entries);
    sequence_counter = m.sequence_counter + 1;
  }

  module _ (valid : IsValid m) (room : HasRoom (Record.size written_entry) m) where
    size-written : adjust m.size (size_data written_entry (lookup key m.entries)) ≡ written.size
    size-written =
        adjust-charged written_entry (lookup key m.entries) m.size room.size_room room.write_room
          (omega (arith, old_size-le key m.entries, valid.covered))

    count-written :
        (elim (lookup key m.entries) [ none ↦ (m.count + 1) % 2 ^ 64 | some _ ↦ m.count ])
        ≡ written.count
    count-written = ground (arith, valid.counted, room.count_room)

    sequence-written : (m.sequence_counter + 1) % 2 ^ 64 ≡ m.sequence_counter + 1
    sequence-written = mod-eq_of_lt (omega (arith, room.sequence_room))

    pub write-written : m.immutable ≡ false → write (some now) key value m ≡ (ok tt, written)
    unfolding write store next_sequence timestamp current_timestamp
    write-written writable = rw (writable, size-written, count-written, sequence-written)

    fresh-written : AllValues (λ _ e. e.sequence < m.sequence_counter + 1) written.entries
    fresh-written =
        AllValues-insert (λ _ e. e.sequence < m.sequence_counter + 1) key written_entry m.entries
          (omega arith)
          (AllValues-imp (λ _ e. e.sequence < m.sequence_counter) _ (λ _ e h. omega arith) m.entries
            valid.fresh)

    -- The invariant after the write.
    pub written-IsValid : IsValid written
    written-IsValid = record {
      sorted = insert-IsSorted key written_entry m.entries valid.sorted;
      keyed = AllValues-insert (λ k e. e.key ≡ k) key written_entry m.entries refl valid.keyed;
      counted = omega (arith, length-insert key written_entry m.entries, valid.counted);
      covered = omega (
        arith,
        total-insert key written_entry m.entries,
        charged_covers (Record.size written_entry) (lookup key m.entries),
        valid.covered,
      );
      fresh = fresh-written;
    }

-- A `put` into a memtable that is valid, has room and is not immutable, with a clock that stands
-- behind the epoch, succeeds and keeps the invariant.
pub put-IsValid :
    (now : ℕ) (key value : List ℕ) (m : MemTable)
    → IsValid m
    → HasRoom (Record.size (written_entry now key (some value) m)) m
    → m.immutable ≡ false
    → ((put (some now) key value m).0 ≡ ok tt) × IsValid (put (some now) key value m).1
unfolding put
put-IsValid now key value m valid room writable =
    rw (write-written now key (some value) m valid room writable)
      (refl, written-IsValid now key (some value) m valid room)

-- A `delete` in a memtable that is valid, has room and is not immutable, with a clock that stands
-- behind the epoch, succeeds and keeps the invariant.
pub delete-IsValid :
    (now : ℕ) (key : List ℕ) (m : MemTable)
    → IsValid m
    → HasRoom (Record.size (written_entry now key none m)) m
    → m.immutable ≡ false
    → ((delete (some now) key m).0 ≡ ok tt) × IsValid (delete (some now) key m).1
unfolding delete
delete-IsValid now key m valid room writable =
    rw (write-written now key none m valid room writable)
      (refl, written-IsValid now key none m valid room)

-- A new memtable, when the clock stands behind the epoch, satisfies the invariant, whatever its
-- limit and its first sequence number.
pub with_sequence-IsValid :
    (max_size start now : ℕ) {m : MemTable}
    → with_sequence max_size start (some now) ≡ ok m
    → IsValid m
unfolding with_sequence current_timestamp total
with_sequence-IsValid max_size start now {m} h =
    let e : m ≡ empty_at max_size start (now % 2 ^ 64) = cc in
    rw e (record { sorted = tt; keyed = tt; counted = refl; covered = omega arith; fresh = tt })
