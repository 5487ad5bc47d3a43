-- ===== src/Sstable/Block/RoundTrip.antt =====
-- src/sstable.rs: what is written into a block is found in it.
use native.Mathlib.Nat.{mod-eq_of_lt}
use justdbd.Common.{
  ℕ, ◌^◌, ◌<◌, ◌≡◌, refl, sym, ap, ◌∙◌, ◌&&◌, List, [], ◌∷◌, ◌++◌, append_assoc, append-nil, Option,
  none, some, length, All, Bool-cases, inl, inr, if◌then◌else◌,
}
use justdbd.Common.Bytes.{le_bytes}
use justdbd.Common.Outcome.{ok, return, ◌>>=◌}
use justdbd.Entry.{key_lt, key_le, key_eq}
use justdbd.Entry.Record.{Entry}
use justdbd.Serialization.Reader.{new, Reader, read_u32}
use justdbd.Serialization.Reader.Consumes.{
  Consumes, Consumes-bind, Consumes-bind_last, Consumes-then, Consumes-return, Yields, Yields-bind,
  Yields-then, Yields-new, Consumes-Yields, read_u32-Consumes,
}
use justdbd.Serialization.Writer.{write_u32, finish}
use justdbd.Sstable.Block.Layout.{
  IsStorable, key_layout, value_layout, stamp_layout, layout, read_key-Consumes,
  read_fields-Consumes, skip_fields-Consumes,
}
use justdbd.Sstable.Block.{
  block_data, read_key, read_fields, skip_fields, search_entries, search_from, search_in_block,
  range_entries, range_reader, get_entries_in_range_from_block, load_entries, block_reader,
  parse_block,
}

-- The entries of a block, one after the other.
unfoldable pub layouts : List Entry → List ℕ
layouts [] = []
layouts (e ∷ es) = layout e ++ layouts es

pub layouts-append : (xs ys : List Entry) → layouts (xs ++ ys) ≡ layouts xs ++ layouts ys
unfolding layouts
layouts-append [] ys = refl
layouts-append (x ∷ xs) ys =
    ap (λ l. layout x ++ l) (layouts-append xs ys)
    ∙ sym (append_assoc (layout x) (layouts xs) (layouts ys))

-- The first entry under a key.
unfoldable pub find : List ℕ → List Entry → Option Entry
find target [] = none
find target (e ∷ es) = let later = find target es in if key_eq e.key target then some e else later

-- The entries with a key from `start` and before `end`.
pub between : List ℕ → List ℕ → List Entry → List Entry
between start end [] = []
between start end (e ∷ es) =
    let later = between start end es in
    if key_le start e.key && key_lt e.key end then e ∷ later else later

search_entries-Yields :
    (es : List Entry) (target : List ℕ)
    → All IsStorable es
    → Yields (search_entries (length es) target) (layouts es) (find target es)
unfolding search_entries layouts find layout
search_entries-Yields [] target h = Consumes-Yields (return none) [] [] (Consumes-return none)
search_entries-Yields (e ∷ es) target h =
    let fields = value_layout e.value ++ stamp_layout e in
    let key_read = read_key-Consumes e.key h.0.key_fits in
    let regroup = append_assoc (key_layout e.key) fields (layouts es) in
    elim (Bool-cases (key_eq e.key target)) [
      | inl hit ↦
          rw (hit, regroup)
            (Yields-bind read_key _ (key_layout e.key) (fields ++ layouts es) key_read (
              rw hit (
                Consumes-Yields _ fields (layouts es) (
                  Consumes-bind_last (read_fields e.key) _ fields (read_fields-Consumes e h.0)
                    (Consumes-return (some e))))))
      | inr miss ↦
          rw (miss, regroup)
            (Yields-bind read_key _ (key_layout e.key) (fields ++ layouts es) key_read (
              rw miss (
                Yields-then skip_fields _ fields (layouts es) (skip_fields-Consumes e h.0)
                  (search_entries-Yields es target h.1))))
    ]

-- A block that `flush_current_block` builds from entries.
abbrev pub block_of : List Entry → List ℕ
block_of es = block_data (length es) (layouts es)

-- The head of a block, and the entries behind it.
head-Yields :
    {A : Type 0} (body : ℕ → Reader A) (es : List Entry) {a : A}
    → length es < 2 ^ 32
    → length (block_of es) < 2 ^ 63
    → Yields (body (length es)) (layouts es) a
    → ((read_u32 >>= body) (new (block_of es))).0 ≡ ok a
unfolding block_data write_u32 finish
head-Yields body es few small y =
    let count = mod-eq_of_lt few in
    rw count (
      Yields-new (read_u32 >>= body) (le_bytes 4 (length es) ++ layouts es)
        (Yields-bind read_u32 body (le_bytes 4 (length es)) (layouts es)
          (read_u32-Consumes (length es) few) y)
        (rw count at small))

module _ (es : List Entry) (storable : All IsStorable es) (few : length es < 2 ^ 32)
    (small : length (block_of es) < 2 ^ 63) where
  -- In a block of fewer than 2 ^ 32 entries that fit the format, shorter than 2 ^ 63 bytes,
  -- `search_in_block` finds the first entry under the key, with its value, time and sequence number,
  -- and finds nothing for a key that is not there.
  pub search_in_block-block_of :
      (target : List ℕ) → search_in_block (block_of es) target ≡ ok (find target es)
  unfolding search_in_block search_from
  search_in_block-block_of target =
      head-Yields (λ n. search_entries n target) es few small
        (search_entries-Yields es target storable)

range_entries-Consumes :
    (es : List Entry) (start end : List ℕ) (results : List Entry)
    → All IsStorable es
    → Consumes
        (range_entries (length es) start end results)
        (layouts es)
        (results ++ between start end es)
unfolding range_entries layouts between layout
range_entries-Consumes [] start end results h = rw append-nil (Consumes-return results)
range_entries-Consumes (e ∷ es) start end results h =
    let fields = value_layout e.value ++ stamp_layout e in
    let key_read = read_key-Consumes e.key h.0.key_fits in
    let regroup = append_assoc (key_layout e.key) fields (layouts es) in
    elim (Bool-cases (key_le start e.key && key_lt e.key end)) [
      | inl inside ↦
          rw (inside, regroup, ← append_assoc results (e ∷ []) (between start end es))
            (Consumes-bind read_key _ (key_layout e.key) (fields ++ layouts es) key_read (
              rw inside (
                Consumes-bind (read_fields e.key) _ fields (layouts es) (read_fields-Consumes e h.0)
                  (range_entries-Consumes es start end (results ++ e ∷ []) h.1))))
      | inr outside ↦
          rw (outside, regroup)
            (Consumes-bind read_key _ (key_layout e.key) (fields ++ layouts es) key_read (
              rw outside (
                Consumes-then skip_fields _ fields (layouts es) (skip_fields-Consumes e h.0)
                  (range_entries-Consumes es start end results h.1))))
    ]

load_entries-Consumes :
    (es entries : List Entry)
    → All IsStorable es
    → Consumes (load_entries (length es) entries) (layouts es) (entries ++ es)
unfolding load_entries layouts layout
load_entries-Consumes [] entries h = rw append-nil (Consumes-return entries)
load_entries-Consumes (e ∷ es) entries h =
    let fields = value_layout e.value ++ stamp_layout e in
    let regroup = append_assoc (key_layout e.key) fields (layouts es) in
    rw (regroup, ← append_assoc entries (e ∷ []) es)
      (Consumes-bind read_key _ (key_layout e.key) (fields ++ layouts es)
        (read_key-Consumes e.key h.0.key_fits)
        (Consumes-bind (read_fields e.key) _ fields (layouts es) (read_fields-Consumes e h.0)
          (load_entries-Consumes es (entries ++ e ∷ []) h.1)))

Consumes-all :
    {A : Type 0} (m : Reader A) (bytes : List ℕ) {a : A} → Consumes m bytes a → Yields m bytes a
Consumes-all m bytes c = rw append-nil at (Consumes-Yields m bytes [] c)

module _ (es : List Entry) (storable : All IsStorable es) (few : length es < 2 ^ 32)
    (small : length (block_of es) < 2 ^ 63) where
  -- In a block of fewer than 2 ^ 32 entries that fit the format, shorter than 2 ^ 63 bytes,
  -- `get_entries_in_range_from_block` finds, in their order, the entries whose keys lie from the
  -- start and before the end.
  pub get_entries_in_range-block_of :
      (start end : List ℕ)
      → get_entries_in_range_from_block (block_of es) start end ≡ ok (between start end es)
  unfolding get_entries_in_range_from_block range_reader
  get_entries_in_range-block_of start end =
      head-Yields (λ n. range_entries n start end []) es few small
        (Consumes-all _ (layouts es) (range_entries-Consumes es start end [] storable))

  -- The iterator's `load_current_block` reads back the entries of a block of fewer than 2 ^ 32
  -- entries that fit the format, shorter than 2 ^ 63 bytes.
  pub parse_block-block_of : parse_block (block_of es) ≡ ok es
  unfolding parse_block block_reader
  parse_block-block_of =
      head-Yields (λ n. load_entries n []) es few small
        (Consumes-all _ (layouts es) (load_entries-Consumes es [] storable))
