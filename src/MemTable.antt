-- ===== src/MemTable.antt =====
-- src/memtable.rs: `MemTable` over an ordered map. A method of `&self` with atomic fields and a lock
-- is a function of the state, run without interruption. The iterator `iter`, which keeps the lock
-- by a forgotten guard, is read as its sequence of items. The clock is an argument: the
-- microseconds since the epoch, or `none` for a clock that stands before it.
pub mod Sizes
pub mod Valid
pub mod Contents
mod Tests
use justdbd.Common.{
  ℕ, ◌+◌, ◌-◌, ◌%◌, ◌^◌, min, max, Bool, true, false, ◌&&◌, List, [], ◌∷◌, Option, none, some, ltb,
  leb, ◌==◌, length, if◌then◌else◌,
}
use justdbd.Common.Outcome.{Outcome, ok, err, panic, Method, return, fail, ◌>>=◌}
use justdbd.Entry.{key_lt}
use justdbd.Entry.Record
use justdbd.Entry.Record.{Entry, value_size}
use justdbd.Error.{StorageError, read_only}
use justdbd.KeyMap.{KeyMap, lookup, insert, range, range_from, values}

pub record MemTable : Type 0 where
  pub entries : KeyMap Entry
  pub size : ℕ
  pub count : ℕ
  pub created_at : ℕ
  pub sequence_counter : ℕ
  pub max_size : ℕ
  pub immutable : Bool

abbrev pub MemTableMethod : Type 0 → Type 0
MemTableMethod A = Method MemTable StorageError A

abbrev pub Clock : Type 0
Clock = Option ℕ

-- `unwrap` panics for a clock before the epoch; `as Timestamp` keeps 64 bits
current_timestamp : Clock → Outcome StorageError ℕ
current_timestamp none = panic
current_timestamp (some micros) = ok (micros % 2 ^ 64)

abbrev empty_at : ℕ → ℕ → ℕ → MemTable
empty_at max_size start_sequence now = record {
  entries = [];
  size = 0;
  count = 0;
  created_at = now;
  sequence_counter = start_sequence;
  max_size = max_size;
  immutable = false;
}

unfoldable pub with_sequence : ℕ → ℕ → Clock → Outcome StorageError MemTable
unfolding current_timestamp
with_sequence max_size start_sequence clock = elim (current_timestamp clock) [
  | ok now ↦ ok (empty_at max_size start_sequence now)
  | err e ↦ err e
  | panic ↦ panic
]

unfoldable pub new : ℕ → Clock → Outcome StorageError MemTable
unfolding with_sequence
new max_size clock = with_sequence max_size 0 clock

-- `fetch_add` wraps
next_sequence : MemTableMethod ℕ
next_sequence m =
    (ok m.sequence_counter, record m { sequence_counter = (m.sequence_counter + 1) % 2 ^ 64 })

timestamp : Clock → MemTableMethod ℕ
unfolding current_timestamp
timestamp clock m = (current_timestamp clock, m)

-- The difference of the sizes as an `i64`, by its bit pattern.
size_data : Entry → Option Entry → ℕ
size_data e none = Record.size e
size_data e (some old) = (Record.size e + 2 ^ 64 - Record.size old) % 2 ^ 64

-- `fetch_add` of a positive difference, and `fetch_sub` of any other: the cast `as usize` keeps the
-- pattern, and both wrap.
adjust : ℕ → ℕ → ℕ
adjust size pattern_of =
    if ltb 0 pattern_of && ltb pattern_of (2 ^ 63)
    then (size + pattern_of) % 2 ^ 64
    else (size + 2 ^ 64 - pattern_of) % 2 ^ 64

-- What `put` and `delete` do under the write lock.
store : Entry → MemTableMethod (Unit {0})
unfolding size_data adjust
store e m =
    let old = lookup e.key m.entries in
    (
      ok tt,
      record m {
        entries = insert e.key e m.entries;
        count = elim old [ none ↦ (m.count + 1) % 2 ^ 64 | some _ ↦ m.count ];
        size = adjust m.size (size_data e old);
      },
    )

-- The body that `put` and `delete` share: they differ in the value of the entry.
unfoldable pub write : Clock → List ℕ → Option (List ℕ) → MemTableMethod (Unit {0})
unfolding next_sequence timestamp store
write clock key value m =
    if m.immutable
    then (err read_only, m)
    else (do
      sequence ← next_sequence
      now ← timestamp clock
      store (Record.new key value now sequence))
        m

unfoldable pub put : Clock → List ℕ → List ℕ → MemTableMethod (Unit {0})
unfolding write
put clock key value = write clock key (some value)

pub delete : Clock → List ℕ → MemTableMethod (Unit {0})
unfolding write
delete clock key = write clock key none

unfoldable pub get : List ℕ → MemTable → Option Entry
get key m = lookup key m.entries

pub contains_key : List ℕ → MemTable → Bool
contains_key key m = elim (lookup key m.entries) [ none ↦ false | some _ ↦ true ]

unfoldable pub should_flush : MemTable → Bool
should_flush m = leb m.max_size m.size

unfoldable pub make_immutable : MemTable → MemTable
make_immutable m = record m { immutable = true }

-- `BTreeMap::range` panics, by its documentation, on a start behind the end
unfoldable pub range_iter : List ℕ → List ℕ → MemTable → Outcome StorageError (KeyMap Entry)
range_iter start end m = if key_lt end start then panic else ok (range start end m.entries)

pub scan_from : List ℕ → MemTable → KeyMap Entry
scan_from start m = range_from start m.entries

pub all_entries : MemTable → KeyMap Entry
all_entries m = m.entries

pub record MemtableStats : Type 0 where
  pub entry_count : ℕ
  pub approximate_size : ℕ
  pub min_key_size : ℕ
  pub max_key_size : ℕ
  pub min_value_size : ℕ
  pub max_value_size : ℕ
  pub creation_time : ℕ
  pub is_immutable : Bool

abbrev usize_max : ℕ
usize_max = 2 ^ 64 - 1

-- the fold over the values: least and greatest key size, least and greatest value size
extremes : List Entry → ℕ × ℕ × ℕ × ℕ → ℕ × ℕ × ℕ × ℕ
extremes [] acc = acc
extremes (e ∷ es) (min_key, max_key, min_value, max_value) = extremes es (
  min min_key (length e.key),
  max max_key (length e.key),
  min min_value (value_size e.value),
  max max_value (value_size e.value),
)

or_zero : ℕ → ℕ
or_zero n = if n == usize_max then 0 else n

pub memory_usage : MemTable → MemtableStats
unfolding extremes or_zero
memory_usage m =
    let (min_key, max_key, min_value, max_value) =
      extremes (values m.entries) (usize_max, 0, usize_max, 0) in
    record {
      entry_count = length m.entries;
      approximate_size = m.size;
      min_key_size = or_zero min_key;
      max_key_size = max_key;
      min_value_size = or_zero min_value;
      max_value_size = max_value;
      creation_time = m.created_at;
      is_immutable = m.immutable;
    }
