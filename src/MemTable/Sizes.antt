-- ===== src/MemTable/Sizes.antt =====
-- src/memtable.rs: the accounting of `put` and `delete`, and the statistics.
use justdbd.Common.{ℕ, ◌+◌, ◌-◌, ◌≤◌, ◌≡◌, ap, ◌∙◌, false, List, some, arith}
use justdbd.Entry.Record
use justdbd.Entry.Record.{Entry}
use justdbd.KeyMap.{lookup}
use justdbd.MemTable.{MemTable, put}
use justdbd.MemTable.Valid.{
  IsValid, HasRoom, total, total-insert, old_size, old_size-some, charged, charged_smaller,
  written_entry, write-written,
}

-- In a memtable that is valid, has room and is not immutable, overwriting an entry by one that is not
-- larger makes the contents smaller by the difference, and the reported size larger by it.
pub put_smaller :
    (now : ℕ) (key value : List ℕ) (old : Entry) (m : MemTable)
    → IsValid m
    → HasRoom (Record.size (written_entry now key (some value) m)) m
    → m.immutable ≡ false
    → lookup key m.entries ≡ some old
    → Record.size (written_entry now key (some value) m) ≤ Record.size old
    → let m' = (put (some now) key value m).1 in
      let difference = Record.size old - Record.size (written_entry now key (some value) m) in
      (m'.size ≡ m.size + difference) × (total m'.entries + difference ≡ total m.entries)
unfolding put
put_smaller now key value old m valid room writable hit smaller =
    let e = written_entry now key (some value) m in
    rw (write-written now key (some value) m valid room writable) (
      ap (λ o. m.size + charged (Record.size e) o) hit
          ∙ ap (λ n. m.size + n) (charged_smaller (Record.size e) old smaller),
      omega (arith, total-insert key e m.entries, ap old_size hit, old_size-some old, smaller),
    )
