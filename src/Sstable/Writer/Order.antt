-- ===== src/Sstable/Writer/Order.antt =====
-- src/sstable.rs: the index of a writer is in the order of its keys.
use Prim.Native.Nat.Ordering.{lt}
use justdbd.Common.{
  ℕ, ◌≡◌, refl, ap, ◌∙◌, subst, true, false, List, [], ◌∷◌, ◌++◌, map, Option, none, some, arith,
  All, All-append, Bool-cases, inl, inr, ◌==◌, length,
}
use justdbd.Common.Outcome.{ok, err, panic, resume, ◌>>◌}
use justdbd.Sstable.Block.{entry_data}
use justdbd.Bloom.{Hashes}
use justdbd.Entry.{
  compare_keys, compare_keys_self, compare_keys-lt, key_lt, key_le, compare_keys-gt,
  compare_keys-eq, compare_keys_trans,
}
use justdbd.Entry.Record.{Entry}
use justdbd.Error.{Result}
use justdbd.KeyMap.Laws.{compare_cases}
use justdbd.Sstable.Codec.{Codec}
use justdbd.Sstable.Index.{IndexEntry}
use justdbd.Sstable.Writer.Keys.{index_keys, SameKeys, flush_if_full-Keeps, add_to_filter-Keeps}
use justdbd.Sstable.Index.Search.{IsAscending}
use justdbd.Sstable.Writer.{
  add_all, SstableWriter, WriterMethod, flush_if_full, note_keys, append_entry, add_to_filter,
  is_out_of_order, add,
}

-- Keys that ascend.
unfoldable pub Ascending : List (List ℕ) → Type 0
Ascending [] = Unit
Ascending (k ∷ ks) = All (λ j. key_lt k j ≡ true) ks × Ascending ks

-- No key is above the greatest, and without a greatest there is none.
unfoldable pub IsBounded : List (List ℕ) → Option (List ℕ) → Type 0
IsBounded ks none = ks ≡ []
IsBounded ks (some m) = All (λ j. key_lt m j ≡ false) ks

-- The index of a writer ascends, up to its greatest key.
pub record IsOrdered (w : SstableWriter) : Type 0 where
  pub ascending : Ascending (index_keys w)
  pub bounded : IsBounded (index_keys w) w.max_key

-- The keys of the index lie below the key that is added.
record IsBelow (key : List ℕ) (w : SstableWriter) : Type 0 where
  ascending : Ascending (index_keys w)
  below : All (λ j. key_lt j key ≡ true) (index_keys w)
  noted : w.max_key ≡ some key

key_lt-swap : (j k : List ℕ) → key_lt j k ≡ true → key_lt k j ≡ false
key_lt-swap j k h = elim (compare_cases j k) [
  | inl below ↦ ground (arith, compare_keys-lt j k below)
  | inr (inl same) ↦ ground (arith, same)
  | inr (inr above) ↦ ground (arith, above)
]

key_lt-through : (j m k : List ℕ) → key_lt m j ≡ false → key_le k m ≡ false → key_lt j k ≡ true
key_lt-through j m k h l = elim (compare_cases k m) [
  | inl below ↦ ground (arith, below)
  | inr (inl same) ↦ ground (arith, same)
  | inr (inr above) ↦
      let up = compare_keys-gt k m above in
      elim (compare_cases m j) [
        | inl less ↦ ground (arith, less)
        | inr (inl here) ↦
            let through : compare_keys j k ≡ lt =
              subst (λ x. compare_keys x k ≡ lt) (compare_keys-eq m j here) up in
            ground (arith, through)
        | inr (inr more) ↦
            let through = compare_keys_trans j m k (compare_keys-gt m j more) up in
            ground (arith, through)
      ]
]

All-imp :
    {A : Type 0} (P Q : A → Type 0) (xs : List A) → ((x : A) → P x → Q x) → All P xs → All Q xs
All-imp P Q [] f h = tt
All-imp P Q (x ∷ xs) f h = (f x h.0, All-imp P Q xs f h.1)

Ascending-append :
    (ks : List (List ℕ)) (k : List ℕ)
    → Ascending ks
    → All (λ j. key_lt j k ≡ true) ks
    → Ascending (ks ++ k ∷ [])
unfolding Ascending
Ascending-append [] k h b = (tt, tt)
Ascending-append (j ∷ ks) k h b =
    (All-append _ ks (k ∷ []) h.0 (b.0, tt), Ascending-append ks k h.1 b.1)

IsBelow-IsOrdered : (key : List ℕ) (w : SstableWriter) → IsBelow key w → IsOrdered w
unfolding IsBounded
IsBelow-IsOrdered key w b = record {
  ascending = b.ascending;
  bounded = rw b.noted (All-imp _ _ (index_keys w) (λ j. key_lt-swap j key) b.below);
}

IsBelow-SameKeys :
    (key : List ℕ) (w w' : SstableWriter) → SameKeys w w' → IsBelow key w → IsBelow key w'
IsBelow-SameKeys key w w' s b = record {
  ascending = rw s.same_index b.ascending;
  below = rw s.same_index b.below;
  noted = s.same_max ∙ b.noted;
}

keys-append :
    (es : List IndexEntry) (e : IndexEntry)
    → map (λ (x : IndexEntry). x.key) (es ++ e ∷ []) ≡ map (λ x. x.key) es ++ e.key ∷ []
keys-append [] e = refl
keys-append (x ∷ es) e = ap (λ l. x.key ∷ l) (keys-append es e)

key_lt_self : (k : List ℕ) → key_lt k k ≡ false
key_lt_self k = rw (compare_keys_self k, key_lt)

append_entry-IsOrdered :
    (e : Entry) (w : SstableWriter) → IsBelow e.key w → IsOrdered (append_entry e w).1
unfolding append_entry IsBounded
append_entry-IsOrdered e w b = elim (Bool-cases (w.current_block_entries == 0)) [
  | inl first ↦
      let place : IndexEntry = record { key = e.key; offset = w.position; size = 0 } in
      rw first (record {
        ascending =
            rw (keys-append w.index place)
              (Ascending-append (index_keys w) e.key b.ascending b.below);
        bounded =
            rw (keys-append w.index place, b.noted)
              (All-append _ (index_keys w) (e.key ∷ [])
                (All-imp _ _ (index_keys w) (λ j. key_lt-swap j e.key) b.below)
                (key_lt_self e.key, tt));
      })
  | inr later ↦
      let kept = IsBelow-IsOrdered e.key w b in
      rw later (record { ascending = kept.ascending; bounded = kept.bounded })
]

note_keys-IsBelow :
    (key : List ℕ) (w : SstableWriter)
    → IsOrdered w
    → is_out_of_order key w.max_key ≡ false
    → IsBelow key (note_keys key w).1
unfolding note_keys IsBounded is_out_of_order
note_keys-IsBelow key w v h = record {
  ascending = v.ascending;
  below = go w.max_key (index_keys w) v.bounded h;
  noted = refl;
}
  where
    go :
        (o : Option (List ℕ)) (ks : List (List ℕ))
        → IsBounded ks o
        → is_out_of_order key o ≡ false
        → All (λ j. key_lt j key ≡ true) ks
    go none ks b h = rw b tt
    go (some m) ks b h = All-imp _ _ ks (λ j a. key_lt-through j m key a h) b

-- a step that may end the method
resume-IsOrdered :
    {A : Type 0} (key : List ℕ) (r : Result A) (f : A → WriterMethod (Unit {0})) (w : SstableWriter)
    → IsBelow key w
    → ((a : A) → IsOrdered (f a w).1)
    → IsOrdered (resume r f w).1
resume-IsOrdered key (ok a) f w b h = h a
resume-IsOrdered key (err e) f w b h = IsBelow-IsOrdered key w b
resume-IsOrdered key panic f w b h = IsBelow-IsOrdered key w b

-- An entry that is refused, accepted, or ends the method on the way leaves an index that ascends up to
-- the greatest key, if it was so before.
add-IsOrdered :
    (codec : Codec) (hashes : Hashes) (e : Entry) (w : SstableWriter)
    → IsOrdered w
    → IsOrdered (add codec hashes e w).1
unfolding add
add-IsOrdered codec hashes e w v = elim (Bool-cases (is_out_of_order e.key w.max_key)) [
  | inl refused ↦ rw refused v
  | inr fresh ↦
      let w1 = (note_keys e.key w).1 in
      let b1 = note_keys-IsBelow e.key w v fresh in
      let (r2, w2) = add_to_filter codec hashes e.key w1 in
      let b2 = IsBelow-SameKeys e.key w1 w2 (add_to_filter-Keeps codec hashes e.key w1) b1 in
      let (r3, w3) = flush_if_full codec (length (entry_data e)) w2 in
      let b3 =
        IsBelow-SameKeys e.key w2 w3 (flush_if_full-Keeps codec (length (entry_data e)) w2) b2 in
      rw fresh (
        resume-IsOrdered e.key r2
          (λ _. flush_if_full codec (length (entry_data e)) >> append_entry e) w2 b2
          (λ _.
            resume-IsOrdered e.key r3 (λ _. append_entry e) w3 b3
              (λ _. append_entry-IsOrdered e w3 b3)))
]

All-of_map :
    (P : List ℕ → Type 0) (es : List IndexEntry)
    → All P (map (λ (e : IndexEntry). e.key) es)
    → All (λ (e : IndexEntry). P e.key) es
All-of_map P [] h = tt
All-of_map P (e ∷ es) h = (h.0, All-of_map P es h.1)

IsAscending-keys :
    (es : List IndexEntry) → Ascending (map (λ (e : IndexEntry). e.key) es) → IsAscending es
unfolding Ascending IsAscending
IsAscending-keys [] h = tt
IsAscending-keys (e ∷ es) h = (All-of_map _ es h.0, IsAscending-keys es h.1)

resume_all-IsOrdered :
    (r : Result (Unit {0})) (f : WriterMethod (Unit {0})) (w : SstableWriter)
    → IsOrdered w
    → IsOrdered (f w).1
    → IsOrdered (resume r (λ _. f) w).1
resume_all-IsOrdered (ok a) f w v h = h
resume_all-IsOrdered (err e) f w v h = v
resume_all-IsOrdered panic f w v h = v

add_all-IsOrdered :
    (codec : Codec) (hashes : Hashes) (es : List Entry) (w : SstableWriter)
    → IsOrdered w
    → IsOrdered (add_all codec hashes es w).1
unfolding add_all
add_all-IsOrdered codec hashes [] w v = v
add_all-IsOrdered codec hashes (e ∷ es) w v =
    let (r, w') = add codec hashes e w in
    let v' = add-IsOrdered codec hashes e w v in
    resume_all-IsOrdered r (add_all codec hashes es) w' v' (add_all-IsOrdered codec hashes es w' v')

-- Entries are added one after the other, until one is refused or fails. If the keys of the index of the
-- writer ascended, up to its greatest key, then they do so at the end, whatever was added, and the
-- index is in the order that the search in it asks for.
pub add_all-IsAscending :
    (codec : Codec) (hashes : Hashes) (es : List Entry) (w : SstableWriter)
    → IsOrdered w
    → let w' = (add_all codec hashes es w).1 in IsOrdered w' × IsAscending w'.index
add_all-IsAscending codec hashes es w v =
    let v' = add_all-IsOrdered codec hashes es w v in
    (v', IsAscending-keys (add_all codec hashes es w).1.index v'.ascending)
