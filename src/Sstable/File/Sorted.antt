-- ===== src/Sstable/File/Sorted.antt =====
-- src/sstable.rs: what is found in entries with ascending keys.
use justdbd.Common.{
  ℕ, ◌≡◌, refl, subst, ◌∙◌, true, false, List, [], ◌∷◌, ◌++◌, none, some, arith, All, Bool-cases,
  inl, inr,
}
use justdbd.Entry.{key_lt, key_le, key_eq, compare_keys-gt, compare_keys-lt, compare_keys-eq}
use justdbd.Entry.Record.{Entry}
use justdbd.KeyMap.Laws.{compare_cases}
use justdbd.Sstable.Block.RoundTrip.{find}
use justdbd.Sstable.Index.Search.{key_lt_trans}
use justdbd.Sstable.Writer.{is_out_of_order}
use justdbd.Sstable.Writer.Adding.{InOrder}

-- The keys ascend.
unfoldable pub AreSorted : List Entry → Type 0
AreSorted [] = Unit
AreSorted (e ∷ es) = All (λ (x : Entry). key_lt e.key x.key ≡ true) es × AreSorted es

key_le-false : (a b : List ℕ) → key_le a b ≡ false → key_lt b a ≡ true
key_le-false a b h = elim (compare_cases a b) [
  | inl below ↦ ground (arith, below)
  | inr (inl same) ↦ ground (arith, same)
  | inr (inr above) ↦ ground (arith, compare_keys-gt a b above)
]

pub further :
    (k m : List ℕ) (es : List Entry)
    → key_lt k m ≡ true
    → All (λ (x : Entry). key_lt m x.key ≡ true) es
    → All (λ (x : Entry). key_lt k x.key ≡ true) es
further k m [] h a = tt
further k m (e ∷ es) h a = (key_lt_trans k m e.key h a.0, further k m es h a.1)

InOrder-AreSorted :
    (k : List ℕ) (es : List Entry)
    → InOrder (some k) es
    → All (λ (x : Entry). key_lt k x.key ≡ true) es × AreSorted es
unfolding InOrder AreSorted is_out_of_order
InOrder-AreSorted k [] h = (tt, tt)
InOrder-AreSorted k (e ∷ es) (first, rest) =
    let (above, sorted) = InOrder-AreSorted e.key es rest in
    let here : key_lt k e.key ≡ true = key_le-false e.key k first in
    ((here, further k e.key es here above), (above, sorted))

pub InOrder-all : (es : List Entry) → InOrder none es → AreSorted es
unfolding InOrder AreSorted
InOrder-all [] h = tt
InOrder-all (e ∷ es) h = InOrder-AreSorted e.key es h.1

find-miss :
    (key : List ℕ) (e : Entry) (es : List Entry)
    → key_eq e.key key ≡ false
    → find key (e ∷ es) ≡ find key es
unfolding find
find-miss key e es h = rw (find, h) refl

-- No entry is found under a key below all keys, nor under one above them.
pub find-below :
    (key : List ℕ) (es : List Entry)
    → All (λ (x : Entry). key_lt key x.key ≡ true) es
    → find key es ≡ none
unfolding find
find-below key [] a = refl
find-below key (e ∷ es) a =
    let apart : key_eq e.key key ≡ false = elim (compare_cases key e.key) [
      | inl below ↦ ground (arith, compare_keys-lt key e.key below)
      | inr (inl same) ↦ ground (arith, same, a.0)
      | inr (inr above) ↦ ground (arith, above, a.0)
    ] in
    find-miss key e es apart ∙ find-below key es a.1

pub find-above :
    (key : List ℕ) (es rest : List Entry)
    → All (λ (x : Entry). key_lt x.key key ≡ true) es
    → find key (es ++ rest) ≡ find key rest
find-above key [] rest a = refl
find-above key (e ∷ es) rest a =
    let apart : key_eq e.key key ≡ false = ground (arith, a.0) in
    find-miss key e (es ++ rest) apart ∙ find-above key es rest a.1

-- Behind a list in which it is not, and in front of one.
pub find-first :
    (key : List ℕ) (es rest : List Entry)
    → find key rest ≡ none
    → find key (es ++ rest) ≡ find key es
unfolding find
find-first key [] rest h = h
find-first key (e ∷ es) rest h = elim (Bool-cases (key_eq e.key key)) [
  | inl hit ↦ rw (find, hit) refl
  | inr miss ↦ rw (find, miss) (find-first key es rest h)
]

-- Sorted entries in front of one more lie below it.
pub below-next :
    (es : List Entry) (x : Entry) (rest : List Entry)
    → AreSorted (es ++ x ∷ rest)
    → All (λ (y : Entry). key_lt y.key x.key ≡ true) es
unfolding AreSorted
below-next [] x rest s = tt
below-next (e ∷ es) x rest s = (beyond es s.0, below-next es x rest s.1)
  where
    beyond :
        (ys : List Entry)
        → All (λ (y : Entry). key_lt e.key y.key ≡ true) (ys ++ x ∷ rest)
        → key_lt e.key x.key ≡ true
    beyond [] a = a.0
    beyond (y ∷ ys) a = beyond ys a.1

pub AreSorted-right : (es rest : List Entry) → AreSorted (es ++ rest) → AreSorted rest
unfolding AreSorted
AreSorted-right [] rest s = s
AreSorted-right (e ∷ es) rest s = AreSorted-right es rest s.1

-- What lies below a key that is not above another lies below the other.
pub All-through :
    (k key : List ℕ) (es : List Entry)
    → key_lt key k ≡ false
    → All (λ (y : Entry). key_lt y.key k ≡ true) es
    → All (λ (y : Entry). key_lt y.key key ≡ true) es
All-through k key [] h a = tt
All-through k key (e ∷ es) h a = (
  elim (compare_cases k key) [
    | inl below ↦ key_lt_trans e.key k key a.0 (ground (arith, below))
    | inr (inl same) ↦ subst (λ m. key_lt e.key m ≡ true) (compare_keys-eq k key same) a.0
    | inr (inr above) ↦ let under = compare_keys-gt k key above in absurd (ground (arith, under, h))
  ],
  All-through k key es h a.1,
)

pub All-split {ℓ} :
    {A : Type 0} (P : A → Type ℓ) (xs ys : List A) → All P (xs ++ ys) → All P xs × All P ys
All-split P [] ys h = (tt, h)
All-split P (x ∷ xs) ys h = let (left, right) = All-split P xs ys h.1 in ((h.0, left), right)
