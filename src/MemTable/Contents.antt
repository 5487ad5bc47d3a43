-- ===== src/MemTable/Contents.antt =====
-- src/memtable.rs: what a reader sees of the contents, and the refinement of a map.
use justdbd.Common.{
  ℕ, ◌%◌, ◌^◌, ◌≡◌, refl, fun_ext, ◌∙◌, ap, false, List, [], ◌∷◌, Option, none, some, arith,
  if◌then◌else◌, if-false,
}
use justdbd.Common.Outcome.{ok, err}
use justdbd.Entry.{key_eq, key_lt}
use justdbd.Entry.Record
use justdbd.Entry.Record.{Entry}
use justdbd.Error.{read_only}
use justdbd.KeyMap.{lookup, insert, range}
use justdbd.KeyMap.Laws.{lookup-insert}
use justdbd.MemTable.{
  empty_at, with_sequence, range_iter, MemTable, current_timestamp, next_sequence, timestamp, store,
  write, put, delete, get, make_immutable,
}

-- The entry that a write leaves behind.
abbrev pub entry_of : ℕ → List ℕ → Option (List ℕ) → MemTable → Entry
entry_of now key value m = Record.new key value (now % 2 ^ 64) m.sequence_counter

entries-write :
    (now : ℕ) (key : List ℕ) (value : Option (List ℕ)) (m : MemTable)
    → m.immutable ≡ false
    → (write (some now) key value m).1.entries ≡ insert key (entry_of now key value m) m.entries
unfolding write store next_sequence timestamp current_timestamp
entries-write now key value m writable = rw writable

-- After `put` into a memtable that is not immutable the key reads as the new entry, with the value, the time and the sequence number of
-- the write; every other key reads as before.
pub get-put :
    (now : ℕ) (key value q : List ℕ) (m : MemTable)
    → m.immutable ≡ false
    → get q (put (some now) key value m).1
      ≡ (if key_eq q key then some (entry_of now key (some value) m) else get q m)
unfolding get put
get-put now key value q m writable =
    ap (lookup q) (entries-write now key (some value) m writable)
    ∙ lookup-insert key q (entry_of now key (some value) m) m.entries

-- After `delete` in a memtable that is not immutable the key reads as a tombstone: an entry without
-- a value, not an absent one. Every other key reads as before.
pub get-delete :
    (now : ℕ) (key q : List ℕ) (m : MemTable)
    → m.immutable ≡ false
    → get q (delete (some now) key m).1
      ≡ (if key_eq q key then some (entry_of now key none m) else get q m)
unfolding get delete
get-delete now key q m writable =
    ap (lookup q) (entries-write now key none m writable)
    ∙ lookup-insert key q (entry_of now key none m) m.entries

pub data Write : Type 0 where
  put_of : ℕ → List ℕ → List ℕ → Write
  delete_of : ℕ → List ℕ → Write

apply : Write → MemTable → MemTable
unfolding put delete
apply (put_of now key value) m = (put (some now) key value m).1
apply (delete_of now key) m = (delete (some now) key m).1

pub run : List Write → MemTable → MemTable
unfolding apply
run [] m = m
run (w ∷ ws) m = run ws (apply w m)

-- What a reader sees at a key: nothing, a tombstone, or a value.
abbrev Seen : Type 0
Seen = Option (Option (List ℕ))

pub seen : MemTable → List ℕ → Seen
seen m q = elim (get q m) [ none ↦ none | some e ↦ some e.value ]

-- The same writes on a function.
abbrev update : List ℕ → Seen → (List ℕ → Seen) → List ℕ → Seen
update key v f q = if key_eq q key then v else f q

pub replay : List Write → (List ℕ → Seen) → List ℕ → Seen
replay [] f = f
replay (put_of now key value ∷ ws) f = replay ws (update key (some (some value)) f)
replay (delete_of now key ∷ ws) f = replay ws (update key (some none) f)

immutable-apply : (w : Write) (m : MemTable) → (apply w m).immutable ≡ m.immutable
unfolding apply write store next_sequence timestamp current_timestamp
immutable-apply (put_of now key value) m = ground arith
immutable-apply (delete_of now key) m = ground arith

seen-put :
    (now : ℕ) (key value : List ℕ) (m : MemTable)
    → m.immutable ≡ false
    → seen (put (some now) key value m).1 ≡ update key (some (some value)) (seen m)
unfolding seen
seen-put now key value m writable = fun_ext λ q. ground (arith, get-put now key value q m writable)

seen-delete :
    (now : ℕ) (key : List ℕ) (m : MemTable)
    → m.immutable ≡ false
    → seen (delete (some now) key m).1 ≡ update key (some none) (seen m)
unfolding seen
seen-delete now key m writable = fun_ext λ q. ground (arith, get-delete now key q m writable)

-- Any sequence of writes to a memtable that is not immutable reads like the same writes on a
-- function from keys to what is seen.
pub run_refines :
    (ws : List Write) (m : MemTable) → m.immutable ≡ false → seen (run ws m) ≡ replay ws (seen m)
unfolding run replay apply
run_refines [] m writable = refl
run_refines (put_of now key value ∷ ws) m writable =
    run_refines ws (apply (put_of now key value) m)
      (immutable-apply (put_of now key value) m ∙ writable)
    ∙ ap (replay ws) (seen-put now key value m writable)
run_refines (delete_of now key ∷ ws) m writable =
    run_refines ws (apply (delete_of now key) m) (immutable-apply (delete_of now key) m ∙ writable)
    ∙ ap (replay ws) (seen-delete now key m writable)

-- An immutable memtable refuses `put` and `delete` with `ReadOnly`, stays as it is, and reads as
-- before it was made immutable.
pub writes_refused :
    (m : MemTable) (now : Option ℕ) (key value : List ℕ)
    → (put now key value (make_immutable m) ≡ (err read_only, make_immutable m))
      × (delete now key (make_immutable m) ≡ (err read_only, make_immutable m))
      × (get key (make_immutable m) ≡ get key m)
unfolding put delete write make_immutable get
writes_refused m now key value = (refl, refl, refl)

-- A new memtable, with a clock behind the epoch, has no entry and takes writes.
pub fresh_memtable :
    (max_size start now : ℕ)
    → (m : MemTable) × (with_sequence max_size start (some now) ≡ ok m)
      × ((key : List ℕ) → get key m ≡ none)
      × (m.immutable ≡ false)
unfolding with_sequence current_timestamp get lookup
fresh_memtable max_size start now =
    (empty_at max_size start (now % 2 ^ 64), refl, (λ key. refl), refl)

-- A write to a memtable that is not immutable, with a clock behind the epoch, succeeds.
pub write_succeeds :
    (now : ℕ) (key : List ℕ) (value : Option (List ℕ)) (m : MemTable)
    → m.immutable ≡ false
    → (write (some now) key value m).0 ≡ ok tt
unfolding write store next_sequence timestamp current_timestamp
write_succeeds now key value m writable = rw writable

pub put_succeeds :
    (now : ℕ) (key value : List ℕ) (m : MemTable)
    → m.immutable ≡ false
    → (put (some now) key value m).0 ≡ ok tt
unfolding put
put_succeeds now key value m writable = write_succeeds now key (some value) m writable

pub delete_succeeds :
    (now : ℕ) (key : List ℕ) (m : MemTable)
    → m.immutable ≡ false
    → (delete (some now) key m).0 ≡ ok tt
unfolding delete
delete_succeeds now key m writable = write_succeeds now key none m writable

pub get-make_immutable : (key : List ℕ) (m : MemTable) → get key (make_immutable m) ≡ get key m
unfolding get make_immutable
get-make_immutable key m = refl

-- `get` is a lookup, and `range_iter` selects the keys of a range that does not end before it starts.
pub get-lookup : (key : List ℕ) (m : MemTable) → get key m ≡ lookup key m.entries
unfolding get
get-lookup key m = refl

pub range_iter-range :
    (start end : List ℕ) (m : MemTable)
    → key_lt end start ≡ false
    → range_iter start end m ≡ ok (range start end m.entries)
unfolding range_iter
range_iter-range start end m h = if-false _ _ h
