-- ===== src/Sstable/Reader/Iterator/Blocks.antt =====
-- src/sstable.rs: the entries that the iterator yields.
use justdbd.Common.{
  ℕ, zero, suc, ◌+◌, ◌≤◌, ◌≡◌, refl, sym, ap, ◌∙◌, true, false, List, [], ◌∷◌, ◌++◌, Option, none,
  some, arith, leb, length, drop, get_elem?, length-drop, drop-drop, get_elem?-of_drop, inl, inr,
}
use justdbd.Common.Outcome.{Outcome, ok, err, panic, and_then, Outcome-cases}
use justdbd.Entry.Record.{Entry}
use justdbd.Error.{StorageError, Result}
use justdbd.NumberMap.{NumberMap}
use justdbd.Sstable.Block.{parse_block}
use justdbd.Sstable.Codec.{Codec}
use justdbd.Sstable.Index.{IndexEntry}
use justdbd.Sstable.Reader.{SstableReader, load_block}
use justdbd.Sstable.Reader.Cache.{HasPlaces, IsCoherent, with_cache, read_block-load_block}
use justdbd.Sstable.Reader.Iterator.{
  SstableIterator, Answer, iter, take_or_advance, read_current, load_current_block, load_missing,
  round, next_within, next,
}

drop-suc {ℓ} :
    {A : Type ℓ} (k : ℕ) (xs : List A) {y : A} {ys : List A}
    → drop k xs ≡ y ∷ ys
    → drop (k + 1) xs ≡ ys
drop-suc k xs h = sym (drop-drop k 1 xs) ∙ ap (drop 1) h

get_elem?-drop {ℓ} : {A : Type ℓ} (k : ℕ) (xs : List A) → drop k xs ≡ [] → get_elem? xs k ≡ none
get_elem?-drop zero [] h = refl
get_elem?-drop zero (x ∷ xs) h = cc
get_elem?-drop (suc k) [] h = refl
get_elem?-drop (suc k) (x ∷ xs) h = get_elem?-drop k xs h

-- What a block adds to what the blocks behind it yield.
abbrev pub extend :
    Result (List Entry)
    → List Entry × Outcome StorageError (Option Entry)
    → List Entry × Outcome StorageError (Option Entry)
extend (ok entries) (later, end) = (entries ++ later, end)
extend (err error) later = ([], err error)
extend panic later = ([], panic)

module _ (codec : Codec) where
  -- The answer, and those of the calls of `next` behind it, are the entries one by one, and then the
  -- end.
  pub Yields : Answer → List Entry → Outcome StorageError (Option Entry) → Type 0
  Yields answer [] end = (it : SstableIterator) × (answer ≡ some (end, it))
  Yields answer (e ∷ es) end =
      (it : SstableIterator) × (answer ≡ some (ok (some e), it)) × Yields (next codec it) es end

  module _ (r : SstableReader) where
    -- The entries of a block of the file.
    abbrev pub block_entries : IndexEntry → Result (List Entry)
    block_entries e = and_then (load_block codec e r) parse_block

    -- The entries of the blocks in their order, up to the first block that cannot be read, and what
    -- comes then.
    unfoldable pub all_entries : List IndexEntry → List Entry × Outcome StorageError (Option Entry)
    all_entries [] = ([], ok none)
    all_entries (e ∷ rest) = extend (block_entries e) (all_entries rest)

    -- The iterator at an entry of a block.
    abbrev standing :
        NumberMap (List ℕ) → (block entry : ℕ) → Option (List ℕ) → List Entry → SstableIterator
    standing cache block entry loaded entries = record {
      reader = with_cache codec r cache;
      current_block = block;
      current_entry = entry;
      current_block_data = loaded;
      current_block_entries = entries;
    }

    -- What a round of the loop leads to.
    abbrev behind : ℕ → Outcome StorageError (Option (Option Entry)) × SstableIterator → Answer
    behind n (ok (some answer), it) = some (ok answer, it)
    behind n (ok none, it) = next_within codec n it
    behind n (err e, it) = some (err e, it)
    behind n (panic, it) = some (panic, it)

    next_within-behind :
        (n : ℕ) (it : SstableIterator) → next_within codec (suc n) it ≡ behind n (round codec it)
    unfolding next_within
    next_within-behind n it = go (round codec it)
      where
        go :
            (x : Outcome StorageError (Option (Option Entry)) × SstableIterator)
            → ◌≡◌ {A = Answer}
                (elim x.0 [
                  | ok (some answer) ↦ some (ok answer, x.1)
                  | ok none ↦ next_within codec n x.1
                  | err e ↦ some (err e, x.1)
                  | panic ↦ some (panic, x.1)
                ])
                (behind n x)
        go (ok (some a), it) = refl
        go (ok none, it) = refl
        go (err e, it) = refl
        go (panic, it) = refl

    module _ (places : HasPlaces r.index) where
      -- What is yielded by the round of an iterator that has left the blocks before `k` behind.
      abbrev Continues : ℕ → List IndexEntry → Type 0
      Continues k es =
          (n : ℕ) (cache : NumberMap (List ℕ)) (j : ℕ) (b : List ℕ) (entries : List Entry)
          → length es ≤ n
          → IsCoherent codec r cache
          → drop j entries ≡ []
          → Yields (behind n (take_or_advance (standing cache k j (some b) entries)))
              (all_entries es).0 (all_entries es).1

      next-loaded :
          (cache : NumberMap (List ℕ)) (k j : ℕ) (b : List ℕ) (entries : List Entry)
          → next codec (standing cache k j (some b) entries)
            ≡ behind (length r.index) (take_or_advance (standing cache k j (some b) entries))
      unfolding next round load_missing
      next-loaded cache k j b entries =
          next_within-behind (length r.index) (standing cache k j (some b) entries)

      -- The entries of a block that has been loaded, and then those of the blocks behind it.
      drain :
          (k : ℕ) (es : List IndexEntry) (todo : List Entry) (n : ℕ) (cache : NumberMap (List ℕ))
          (j : ℕ) (b : List ℕ) (entries : List Entry)
          → Continues k es
          → length es ≤ n
          → length es ≤ length r.index
          → IsCoherent codec r cache
          → drop j entries ≡ todo
          → Yields
              (behind n (take_or_advance (standing cache k j (some b) entries)))
              (todo ++ (all_entries es).0)
              (all_entries es).1
      unfolding Yields
      drain k es [] n cache j b entries more enough all c h = more n cache j b entries enough c h
      drain k es (e ∷ todo) n cache j b entries more enough all c h =
          let there : get_elem? entries j ≡ some e = get_elem?-of_drop j entries h in
          let it = standing cache k (j + 1) (some b) entries in
          (
            it,
            unfold take_or_advance in rw there,
            rw (next-loaded cache k (j + 1) b entries) (
                drain k es todo (length r.index) cache (j + 1) b entries more all all c
                  (drop-suc j entries h)),
          )

      -- The round of an iterator that has to load the block of an entry.
      fresh :
          (k : ℕ) (e : IndexEntry) (es : List IndexEntry) (n : ℕ) (cache : NumberMap (List ℕ))
          (j : ℕ)
          → drop k r.index ≡ e ∷ es
          → length es ≤ n
          → IsCoherent codec r cache
          → Continues k es
          → Yields
              (behind n (round codec (standing cache k j none [])))
              (all_entries (e ∷ es)).0
              (all_entries (e ∷ es)).1
      unfolding load_block round load_missing load_current_block read_current all_entries Yields
      fresh k e es n cache j h enough c more =
          let there : get_elem? r.index k ≡ some e = get_elem?-of_drop k r.index h in
          let all : length es ≤ length r.index =
            omega (arith, length-drop k r.index, ap length h) in
          let below : leb (length r.index) k ≡ false =
            ground (arith, get_elem?-of_drop k r.index h, length-drop k r.index, ap length h) in
          let (cache', run, kept) =
            read_block-load_block codec (with_cache codec r cache) k e places there c in
          elim (Outcome-cases (load_block codec e r)) [
            | inl (block, loaded) ↦ elim (Outcome-cases (parse_block block)) [
              | inl (entries, parsed) ↦
                  rw (all_entries, below, there, run, loaded, parsed)
                    (drain k es entries n cache' 0 block entries more enough all kept refl)
              | inr (inl (error, bad)) ↦ rw (all_entries, below, there, run, loaded, bad) (_, refl)
              | inr (inr bad) ↦ rw (all_entries, below, there, run, loaded, bad) (_, refl)
            ]
            | inr (inl (error, bad)) ↦ rw (all_entries, below, there, run, bad) (_, refl)
            | inr (inr bad) ↦ rw (all_entries, below, there, run, bad) (_, refl)
          ]

      blocks : (k : ℕ) (es : List IndexEntry) → drop (k + 1) r.index ≡ es → Continues k es
      unfolding take_or_advance Yields all_entries
      blocks k [] h n cache j b entries enough c done =
          let past : leb (length r.index) (k + 1) ≡ true =
            ground (arith, length-drop (k + 1) r.index, ap length h) in
          rw (get_elem?-drop j entries done, past) (_, refl)
      blocks k (e ∷ es) h zero cache j b entries enough c done = absurd (omega (arith, enough))
      blocks k (e ∷ es) h (suc n) cache j b entries enough c done =
          let inside : leb (length r.index) (k + 1) ≡ false =
            ground (arith, length-drop (k + 1) r.index, ap length h) in
          rw (get_elem?-drop j entries done, inside, next_within-behind)
            (fresh (k + 1) e es n cache j h (omega (arith, enough)) c
              (blocks (k + 1) es (drop-suc (k + 1) r.index h)))

      from_start :
          (es : List IndexEntry)
          → r.index ≡ es
          → IsCoherent codec r r.block_cache
          → Yields (next codec (iter r)) (all_entries es).0 (all_entries es).1
      unfolding next iter round load_missing load_current_block take_or_advance Yields all_entries
      from_start [] h c =
          let past : (k : ℕ) → leb (length r.index) k ≡ true = λ k. ground (arith, ap length h) in
          rw (next_within-behind (length r.index) (iter r), past 0, past 1) (_, refl)
      from_start (e ∷ es) h c = rw (next_within-behind (length r.index) (iter r)) (
          fresh 0 e es (length r.index) r.block_cache 0 h (omega (arith, ap length h)) c
            (blocks 0 es (drop-suc 0 r.index h)))

      -- On a reader whose cache is right, and in whose index entries with one place have one size, a new
      -- iterator yields the entries of the blocks in their order, each once, up to the first block that
      -- cannot be read or parsed, and then the error or the panic of that block, or the end behind the
      -- last block. No call of `next` runs out of its fuel.
      pub iter-Yields :
          IsCoherent codec r r.block_cache
          → Yields (next codec (iter r)) (all_entries r.index).0 (all_entries r.index).1
      iter-Yields c = from_start r.index refl c
