-- ===== src/Sstable/Reader/Cache.antt =====
-- src/sstable.rs: the block cache of a reader changes no answer.
use justdbd.Common.{
  ℕ, ◌≡◌, refl, sym, ap, ◌∙◌, Bool, true, false, List, Option, none, some, arith, ltb, ◌==◌, length,
  get_elem?, Bool-cases, Option-cases, inl, inr, if◌then◌else◌, if-true, if-false,
}
use mathlib.Core.Option.{some-injective}
use justdbd.Common.Outcome.{ok, err, panic, and_then, resume, return}
use justdbd.Bloom.{Hashes}
use justdbd.Entry.Record.{Entry}
use justdbd.Error.{Result}
use justdbd.NumberMap.{NumberMap, slot, set_slot, slot-set_slot}
use justdbd.Sstable.Block.{search_in_block}
use justdbd.Sstable.Codec.{Codec}
use justdbd.Sstable.Index.{IndexEntry, find_block_for_key}
use justdbd.Sstable.Reader.{
  SstableReader, load_block, read_block, fill_cache, cache_block, ReaderMethod, read_numbered,
  search_found, search_index, might_contain, get,
}

-- Entries of the index with one place have one size.
abbrev pub HasPlaces : List IndexEntry → Type 0
HasPlaces index =
    (i j : ℕ) (e e' : IndexEntry)
    → get_elem? index i ≡ some e
    → get_elem? index j ≡ some e'
    → e.offset ≡ e'.offset
    → e.size ≡ e'.size

module _ (codec : Codec) (r : SstableReader) where
  -- What a cache has for an entry of the index is what the file has there.
  abbrev pub IsCoherent : NumberMap (List ℕ) → Type 0
  IsCoherent cache =
      (i : ℕ) (e : IndexEntry) (block : List ℕ)
      → get_elem? r.index i ≡ some e
      → slot e.offset cache ≡ some block
      → load_block codec e r ≡ ok block

  -- The reader with another cache.
  abbrev pub with_cache : NumberMap (List ℕ) → SstableReader
  with_cache cache = record r { block_cache = cache }

  load_block-place :
      (e e' : IndexEntry)
      → e.offset ≡ e'.offset
      → e.size ≡ e'.size
      → load_block codec e' r ≡ load_block codec e r
  unfolding load_block
  load_block-place e e' p q = rw (p, q)

  set_slot-IsCoherent :
      (i : ℕ) (e : IndexEntry) (block : List ℕ)
      → HasPlaces r.index
      → get_elem? r.index i ≡ some e
      → load_block codec e r ≡ ok block
      → IsCoherent r.block_cache
      → IsCoherent (set_slot e.offset block r.block_cache)
  set_slot-IsCoherent i e block places at loaded old j e' b at' hit =
      let found = sym (slot-set_slot e'.offset e.offset block r.block_cache) ∙ hit in
      elim (Bool-cases (e.offset == e'.offset)) [
        | inl same ↦
            let place : e.offset ≡ e'.offset = ground (arith, same) in
            let here : block ≡ b = some-injective _ _ (sym (if-true _ _ same) ∙ found) in
            load_block-place e e' place (places i j e e' at at' place)
            ∙ loaded
            ∙ ap (λ x. ok x) here
        | inr other ↦ old j e' b at' (sym (if-false _ _ other) ∙ found)
      ]

  cache_block-IsCoherent :
      (i : ℕ) (e : IndexEntry) (block : List ℕ)
      → HasPlaces r.index
      → get_elem? r.index i ≡ some e
      → load_block codec e r ≡ ok block
      → IsCoherent r.block_cache
      → IsCoherent (cache_block e.offset block r.block_cache)
  unfolding cache_block
  cache_block-IsCoherent i e block places at loaded old =
      elim (Bool-cases (ltb 100 (length (set_slot e.offset block r.block_cache)))) [
        | inl full ↦ rw full (λ j e' b at' hit. unfold slot in cc)
        | inr small ↦ rw small (set_slot-IsCoherent i e block places at loaded old)
      ]

  fill_cache-IsCoherent :
      (i : ℕ) (e : IndexEntry) (l : Result (List ℕ))
      → HasPlaces r.index
      → get_elem? r.index i ≡ some e
      → load_block codec e r ≡ l
      → IsCoherent r.block_cache
      → (cache : NumberMap (List ℕ)) × (fill_cache codec e l r ≡ (l, with_cache cache))
        × IsCoherent cache
  unfolding fill_cache
  fill_cache-IsCoherent i e (ok block) places at loaded old = (
    cache_block e.offset block r.block_cache,
    refl,
    cache_block-IsCoherent i e block places at loaded old,
  )
  fill_cache-IsCoherent i e (err error) places at loaded old = (r.block_cache, refl, old)
  fill_cache-IsCoherent i e panic places at loaded old = (r.block_cache, refl, old)

  -- A read of a block answers what the file has, and leaves a cache that is right again.
  pub read_block-load_block :
      (i : ℕ) (e : IndexEntry)
      → HasPlaces r.index
      → get_elem? r.index i ≡ some e
      → IsCoherent r.block_cache
      → (cache : NumberMap (List ℕ)) × (read_block codec e r
          ≡ (load_block codec e r, with_cache cache))
        × IsCoherent cache
  unfolding read_block
  read_block-load_block i e places at old = elim (Option-cases (slot e.offset r.block_cache)) [
    | inl miss ↦
        let (cache, run, kept) =
          fill_cache-IsCoherent i e (load_block codec e r) places at refl old in
        (cache, rw (read_block, miss) run, kept)
    | inr (block, hit) ↦ (r.block_cache, rw (read_block, hit, old i e block at hit), old)
  ]

  -- `search_in_block` in a block of the file
  search_in_file : List ℕ → Option IndexEntry → Result (Option Entry)
  search_in_file key none = panic
  search_in_file key (some e) = and_then (load_block codec e r) λ block. search_in_block block key

  search_file_found : List ℕ → Option ℕ → Result (Option Entry)
  search_file_found key none = ok none
  search_file_found key (some i) = search_in_file key (get_elem? r.index i)

  search_file : List ℕ → Result (Option Entry)
  search_file key = and_then (find_block_for_key r.index key) (search_file_found key)

  -- `get` on the file alone
  pub get_uncached : Hashes → List ℕ → Result (Option Entry)
  unfolding search_file
  get_uncached hashes key =
      and_then (might_contain codec hashes key r)
        λ maybe. if maybe then search_file key else ok none

  -- The search on a reader without a filter, when the index names no block, and when it names one.
  pub get_uncached-no_block :
      (hashes : Hashes) (key : List ℕ)
      → r.bloom_filter ≡ none
      → find_block_for_key r.index key ≡ ok none
      → get_uncached hashes key ≡ ok none
  unfolding get_uncached might_contain search_file search_file_found
  get_uncached-no_block hashes key unfiltered found =
      rw (get_uncached, might_contain, unfiltered) (rw found refl)

  pub get_uncached-block :
      (hashes : Hashes) (key : List ℕ) (i : ℕ) (e : IndexEntry) (block : List ℕ)
      → r.bloom_filter ≡ none
      → find_block_for_key r.index key ≡ ok (some i)
      → get_elem? r.index i ≡ some e
      → load_block codec e r ≡ ok block
      → get_uncached hashes key ≡ search_in_block block key
  unfolding get_uncached might_contain search_file search_file_found search_in_file load_block
  get_uncached-block hashes key i e block unfiltered found at loaded =
      rw (get_uncached, might_contain, unfiltered)
        (rw (search_file, found) (rw (search_in_file, at) (rw loaded refl)))

  search_block :
      (l : Result (List ℕ)) (key : List ℕ) (s : SstableReader)
      → resume l (λ block. (λ s. (search_in_block block key, s))) s
        ≡ (and_then l λ block. search_in_block block key, s)
  search_block (ok block) key s = refl
  search_block (err e) key s = refl
  search_block panic key s = refl

  -- What a part of `get` does when its answer is that of the file alone.
  abbrev Agrees : ReaderMethod (Option Entry) → Result (Option Entry) → Type 0
  Agrees m l = (cache : NumberMap (List ℕ)) × (m r ≡ (l, with_cache cache)) × IsCoherent cache

  module _ (places : HasPlaces r.index) (old : IsCoherent r.block_cache) where
    search_found-search :
        (key : List ℕ) (found : Option ℕ)
        → Agrees (search_found codec key found) (search_file_found key found)
    unfolding search_found search_file_found search_in_file read_numbered
    search_found-search key none = (r.block_cache, refl, old)
    search_found-search key (some i) = elim (Option-cases (get_elem? r.index i)) [
      | inl out ↦ (r.block_cache, rw (read_numbered, search_in_file, out), old)
      | inr (e, at) ↦
          let (cache, run, kept) = read_block-load_block i e places at old in
          (
            cache,
            rw (read_numbered, search_in_file, at, run)
                (search_block (load_block codec e r) key (with_cache cache)),
            kept,
          )
    ]

    search_index-search :
        (key : List ℕ) (found : Result (Option ℕ))
        → Agrees
            (λ s. resume found (search_found codec key) s)
            (and_then found (search_file_found key))
    search_index-search key (ok found) = search_found-search key found
    search_index-search key (err e) = (r.block_cache, refl, old)
    search_index-search key panic = (r.block_cache, refl, old)

    get-search :
        (key : List ℕ) (maybe : Result Bool)
        → Agrees
            (λ s. resume maybe (λ b. if b then search_index codec key else return none) s)
            (and_then maybe λ b. if b then search_file key else ok none)
    unfolding search_index search_file
    get-search key (ok true) = search_index-search key (find_block_for_key r.index key)
    get-search key (ok false) = (r.block_cache, refl, old)
    get-search key (err e) = (r.block_cache, refl, old)
    get-search key panic = (r.block_cache, refl, old)

  -- On a reader whose cache is right, and in whose index entries with one place have one size, `get`
  -- answers what it answers from the file alone, and changes nothing but the cache, which is right again.
  pub get-uncached :
      (hashes : Hashes) (key : List ℕ)
      → HasPlaces r.index
      → IsCoherent r.block_cache
      → (cache : NumberMap (List ℕ)) × (get codec hashes key r
          ≡ (get_uncached hashes key, with_cache cache))
        × IsCoherent cache
  unfolding get get_uncached
  get-uncached hashes key places old = get-search places old key (might_contain codec hashes key r)
