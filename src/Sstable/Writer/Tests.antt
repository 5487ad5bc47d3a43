-- ===== src/Sstable/Writer/Tests.antt =====
-- src/sstable.rs: examples of entries that are added.
use justdbd.Common.{◌≡◌, refl, [], ◌∷◌, none}
use justdbd.Common.Outcome.{err}
use justdbd.Entry.{compare_keys}
use justdbd.Entry.Record
use justdbd.Entry.Record.{Entry}
use justdbd.Error.{invalid_operation}
use justdbd.Sstable.Index.Search.{IsAscending}
use justdbd.Sstable.Sample.{plain, no_hashes, writer}
use justdbd.Sstable.Writer.{add, add_all, is_out_of_order}
use justdbd.Sstable.Writer.Order.{IsOrdered, Ascending, IsBounded, add_all-IsAscending}

abbrev a : Entry
a = Record.new (b'a' ∷ []) none 1 1

abbrev b : Entry
b = Record.new (b'b' ∷ []) none 1 2

-- The writer has the key `a`.
refused :
    add plain no_hashes a writer
    ≡ (err (invalid_operation "keys must be added in sorted order"), writer)
unfolding add is_out_of_order compare_keys
refused = refl

writer-IsOrdered : IsOrdered writer
unfolding Ascending IsBounded compare_keys
writer-IsOrdered = record { ascending = (tt, tt); bounded = (refl, tt) }

add_all-IsAscending_example :
    let w' = (add_all plain no_hashes (b ∷ a ∷ []) writer).1 in IsOrdered w' × IsAscending w'.index
add_all-IsAscending_example =
    add_all-IsAscending plain no_hashes (b ∷ a ∷ []) writer writer-IsOrdered
