-- ===== src/Sstable/File/Find.antt =====
-- src/sstable.rs: the block that the index names has the entry of a key, if there is one.
use justdbd.Common.{
  ℕ, zero, suc, ◌+◌, ◌≡◌, refl, sym, ap, ◌∙◌, true, List, [], ◌∷◌, ◌++◌, Option, none, some, arith,
  get_elem?, All, Bool-cases, inl, inr,
}
use justdbd.Config.{CompressionType}
use justdbd.Entry.{key_lt}
use justdbd.Entry.Record.{Entry}
use justdbd.Sstable.Block.RoundTrip.{find}
use justdbd.Sstable.Codec.{Codec}
use justdbd.Sstable.File.Placed.{concat, Reads, Placed, IsBlock}
use justdbd.Sstable.Index.{IndexEntry}
use justdbd.Sstable.Index.Search.{IsAscending, not_behind, last_block}
use justdbd.Sstable.File.Sorted.{
  AreSorted, All-split, find-below, find-above, find-first, below-next, AreSorted-right,
  All-through, further,
}

-- A number of blocks that do not begin behind the key, and the last of them.
abbrev pub last_of : ℕ → Option ℕ
last_of zero = none
last_of (suc n) = some n

pub last_block-last_of :
    (key : List ℕ) (places : List IndexEntry)
    → last_block key places ≡ last_of (not_behind key places)
unfolding last_block
last_block-last_of key places = go (not_behind key places)
  where
    go : (n : ℕ) → ◌≡◌ {A = Option ℕ} (elim n [ zero ↦ none | suc m ↦ some m ]) (last_of n)
    go zero = refl
    go (suc n) = refl

module _ (codec : Codec) (c : CompressionType) where
  -- What the index says of a key: no block, and then no entry has the key, or a block, which then has
  -- the entry, if there is one.
  unfoldable pub Locates : List ℕ → List ℕ → List IndexEntry → List (List Entry) → Option ℕ → Type 0
  Locates content key places parts none = find key (concat parts) ≡ none
  Locates content key places parts (some i) =
      (place : IndexEntry) × (part : List Entry) × (get_elem? places i ≡ some place)
      × Reads codec c content place part
      × IsBlock part
      × (find key part ≡ find key (concat parts))

  reached-above :
      (content key : List ℕ) (start n : ℕ) (es : List Entry) (places : List IndexEntry)
      (parts : List (List Entry)) (end : ℕ)
      → Placed codec c content start places parts end
      → not_behind key places ≡ suc n
      → AreSorted (es ++ concat parts)
      → All (λ (y : Entry). key_lt y.key key ≡ true) es
  unfolding Placed concat not_behind
  reached-above content key start n es [] parts end h count sorted = absurd (omega (arith, count))
  reached-above content key start n es (q ∷ qs) [] end h count sorted = absurd h
  reached-above content key start n es (q ∷ qs) ([] ∷ ps) end h count sorted = absurd h.3
  reached-above content key start n es (q ∷ qs) ((x ∷ xs) ∷ ps) end h count sorted =
      elim (Bool-cases (key_lt key q.key)) [
        | inl behind ↦ absurd (omega (arith, rw behind at count))
        | inr reached ↦
            All-through x.key key es (ap (λ k. key_lt key k) (sym h.3) ∙ reached)
              (below-next es x (xs ++ concat ps) sorted)
      ]

  pub last_block-Locates :
      (content key : List ℕ) (start : ℕ) (places : List IndexEntry) (parts : List (List Entry))
      (end : ℕ)
      → Placed codec c content start places parts end
      → All IsBlock parts
      → AreSorted (concat parts)
      → Locates content key places parts (last_of (not_behind key places))
  unfolding Placed Locates concat not_behind AreSorted
  last_block-Locates content key start [] [] end h fits sorted = unfold find in refl
  last_block-Locates content key start [] (p ∷ ps) end h fits sorted = absurd h
  last_block-Locates content key start (q ∷ qs) [] end h fits sorted = absurd h
  last_block-Locates content key start (q ∷ qs) ([] ∷ ps) end h fits sorted = absurd h.3
  last_block-Locates content key start (q ∷ qs) ((e ∷ es) ∷ ps) end h fits sorted =
      let later =
        last_block-Locates content key (start + q.size) qs ps end h.4 fits.1
          (AreSorted-right (e ∷ es) (concat ps) sorted) in
      elim (Bool-cases (key_lt key q.key)) [
        | inl behind ↦ rw behind (
            let first : key_lt key e.key ≡ true = ap (λ k. key_lt key k) (sym h.3) ∙ behind in
            find-below key ((e ∷ es) ++ concat ps)
              (first, further key e.key (es ++ concat ps) first sorted.0))
        | inr reached ↦ rw reached (go (not_behind key qs) refl later)
      ]
    where
      go :
          (n : ℕ)
          → not_behind key qs ≡ n
          → Locates content key qs ps (last_of n)
          → Locates content key (q ∷ qs) ((e ∷ es) ∷ ps) (some n)
      go zero count missing =
          (q, e ∷ es, refl, h.2, fits.0, sym (find-first key (e ∷ es) (concat ps) missing))
      go (suc n) count (place, part, at, reads, block, same) = (
        place,
        part,
        at,
        reads,
        block,
        same
            ∙ sym (
                find-above key (e ∷ es) (concat ps) (
                  reached-above content key (start + q.size) n (e ∷ es) qs ps end h.4 count
                    sorted)),
      )

  places-above :
      (k content : List ℕ) (start : ℕ) (places : List IndexEntry) (parts : List (List Entry))
      (end : ℕ)
      → Placed codec c content start places parts end
      → All (λ (x : Entry). key_lt k x.key ≡ true) (concat parts)
      → All (λ (g : IndexEntry). key_lt k g.key ≡ true) places
  unfolding Placed concat
  places-above k content start [] parts end h a = tt
  places-above k content start (q ∷ qs) [] end h a = absurd h
  places-above k content start (q ∷ qs) ([] ∷ ps) end h a = absurd h.3
  places-above k content start (q ∷ qs) ((x ∷ xs) ∷ ps) end h a = (
    ap (λ m. key_lt k m) h.3 ∙ a.0,
    places-above k content (start + q.size) qs ps end h.4 ((All-split _ xs (concat ps) a.1).1),
  )

  -- The keys of the index ascend.
  pub Placed-IsAscending :
      (content : List ℕ) (start : ℕ) (places : List IndexEntry) (parts : List (List Entry))
      (end : ℕ)
      → Placed codec c content start places parts end
      → AreSorted (concat parts)
      → IsAscending places
  unfolding Placed concat AreSorted IsAscending
  Placed-IsAscending content start [] parts end h sorted = tt
  Placed-IsAscending content start (q ∷ qs) [] end h sorted = absurd h
  Placed-IsAscending content start (q ∷ qs) ([] ∷ ps) end h sorted = absurd h.3
  Placed-IsAscending content start (q ∷ qs) ((x ∷ xs) ∷ ps) end h sorted = (
    places-above q.key content (start + q.size) qs ps end h.4
        (rw h.3 ((All-split _ xs (concat ps) sorted.0).1)),
    Placed-IsAscending content (start + q.size) qs ps end h.4
        (AreSorted-right (x ∷ xs) (concat ps) sorted),
  )
