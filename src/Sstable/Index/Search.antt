-- ===== src/Sstable/Index/Search.antt =====
-- src/sstable.rs: the binary search in the index.
use justdbd.Common.{
  ℕ, zero, suc, ◌+◌, ◌-◌, ◌/◌, ◌≤◌, ◌<◌, ◌≡◌, refl, ap, true, false, List, [], ◌∷◌, Option, none,
  some, arith, ltb, length, get_elem?, get_elem?-below, lt_cases, All, Bool-cases, inl, inr,
  if◌then◌else◌,
}
use justdbd.Common.Outcome.{ok}
use justdbd.Error.{Result}
use justdbd.Entry.{compare_keys_trans, key_lt}
use justdbd.Sstable.Index.{IndexEntry, bisect, first_block, find_block_for_key}

-- The first keys of the blocks ascend.
unfoldable pub IsAscending : List IndexEntry → Type 0
IsAscending [] = Unit
IsAscending (e ∷ es) = All (λ f. key_lt e.key f.key ≡ true) es × IsAscending es

-- The number of blocks, from the first, that do not begin behind the key.
unfoldable pub not_behind : List ℕ → List IndexEntry → ℕ
not_behind key [] = 0
not_behind key (e ∷ es) = let rest = not_behind key es in if key_lt key e.key then 0 else suc rest

-- The last of them.
unfoldable pub last_block : List ℕ → List IndexEntry → Option ℕ
unfolding not_behind
last_block key index = elim (not_behind key index) [ zero ↦ none | suc n ↦ some n ]

not_behind-le : (key : List ℕ) (es : List IndexEntry) → not_behind key es ≤ length es
unfolding not_behind
not_behind-le key [] = omega arith
not_behind-le key (e ∷ es) = ground (arith, not_behind-le key es)

pub key_lt_trans : (a b c : List ℕ) → key_lt a b ≡ true → key_lt b c ≡ true → key_lt a c ≡ true
key_lt_trans a b c h k = ground (arith, compare_keys_trans a b c)

all_behind :
    (key : List ℕ) (e f : IndexEntry) (es : List IndexEntry) (i : ℕ)
    → key_lt key e.key ≡ true
    → All (λ g. key_lt e.key g.key ≡ true) es
    → get_elem? es i ≡ some f
    → key_lt key f.key ≡ true
all_behind key e f [] i h all hit = cc
all_behind key e f (g ∷ es) zero h all hit = key_lt_trans key e.key f.key h (ground (arith, all.0))
all_behind key e f (g ∷ es) (suc i) h all hit = all_behind key e f es i h all.1 hit

-- A block before that number does not begin behind the key,
not_behind-below :
    (key : List ℕ) (e : IndexEntry) (es : List IndexEntry) (i : ℕ)
    → get_elem? es i ≡ some e
    → i < not_behind key es
    → key_lt key e.key ≡ false
unfolding not_behind
not_behind-below key e [] i hit h = cc
not_behind-below key e (f ∷ es) zero hit h = ground arith
not_behind-below key e (f ∷ es) (suc i) hit h = ground (arith, not_behind-below key e es i hit)

-- and any other does.
not_behind-above :
    (key : List ℕ) (e : IndexEntry) (es : List IndexEntry) (i : ℕ)
    → IsAscending es
    → get_elem? es i ≡ some e
    → not_behind key es ≤ i
    → key_lt key e.key ≡ true
unfolding not_behind IsAscending
not_behind-above key e [] i v hit h = cc
not_behind-above key e (f ∷ es) zero v hit h = ground arith
not_behind-above key e (f ∷ es) (suc i) v hit h = elim (Bool-cases (key_lt key f.key)) [
  | inl behind ↦ all_behind key f e es i behind v.0 hit
  | inr before ↦ not_behind-above key e es i v.1 hit (ground arith)
]

-- The loop ends at that number, with fuel for the distance of its two ends.
bisect-not_behind :
    (n : ℕ) (index : List IndexEntry) (key : List ℕ) (left right : ℕ)
    → IsAscending index
    → right - left ≤ n
    → left ≤ not_behind key index
    → not_behind key index ≤ right
    → right ≤ length index
    → bisect n index key left right ≡ ok (not_behind key index)
unfolding bisect
bisect-not_behind zero index key left right v hn hl hr hi = ground arith
bisect-not_behind (suc n) index key left right v hn hl hr hi = elim (Bool-cases (ltb left right)) [
  | inr done ↦ rw (done, bisect) (ap ok (ground arith))
  | inl open_range ↦
      let ends : left < right = ground arith in
      let mid = left + (right - left) / 2 in
      let (e, hit) = get_elem?-below mid index (omega arith) in
      elim (Bool-cases (key_lt key e.key)) [
        | inl lower ↦
            let upto : not_behind key index ≤ mid = elim (lt_cases mid (not_behind key index)) [
              | inl inside ↦ absurd (ground (arith, not_behind-below key e index mid hit inside))
              | inr outside ↦ outside
            ] in
            rw (open_range, hit, lower, bisect)
              (bisect-not_behind n index key left mid v (omega arith) hl upto (omega arith))
        | inr upper ↦
            let beyond : mid < not_behind key index = elim (lt_cases mid (not_behind key index)) [
              | inl inside ↦ inside
              | inr outside ↦
                  absurd (ground (arith, not_behind-above key e index mid v hit outside))
            ] in
            rw (open_range, hit, upper, bisect)
              (bisect-not_behind n index key (mid + 1) right v (omega arith) (omega arith) hr hi)
      ]
]

first_block-last_block :
    (index : List IndexEntry) (key : List ℕ)
    → not_behind key index ≡ 0
    → first_block index key ≡ last_block key index
unfolding first_block last_block not_behind
first_block-last_block [] key h = refl
first_block-last_block (e ∷ es) key h = ground arith

answer-last_block :
    (index : List IndexEntry) (key : List ℕ)
    → ◌≡◌ {A = Result (Option ℕ)}
        (if ltb 0 (not_behind key index)
          then ok (some (not_behind key index - 1))
          else ok (first_block index key))
        (ok (last_block key index))
unfolding last_block
answer-last_block index key = ground (arith, first_block-last_block index key)

-- On an index with ascending keys `find_block_for_key` ends, does not panic, and finds the last block
-- that does not begin behind the key, if there is one.
pub find_block_for_key-last_block :
    (index : List IndexEntry) (key : List ℕ)
    → IsAscending index
    → find_block_for_key index key ≡ ok (last_block key index)
unfolding find_block_for_key
find_block_for_key-last_block index key v =
    rw
      (bisect-not_behind (length index) index key 0 (length index) v (omega arith) (omega arith)
        (not_behind-le key index) (omega arith))
      (answer-last_block index key)
