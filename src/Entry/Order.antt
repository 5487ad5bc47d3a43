-- ===== src/Entry/Order.antt =====
-- `Ord` of `Vec<u8>` in the standard library: the lexicographic order of the bytes.
use Prim.Native.Nat.Ordering.{lt, eq, gt}
use justdbd.Common.{ℕ, ◌≡◌, refl, ◌↔◌, Bool, true, false, List, [], ◌∷◌, compare, Ordering, arith}

unfoldable pub compare_keys : List ℕ → List ℕ → Ordering
compare_keys [] [] = eq
compare_keys [] (b ∷ bs) = lt
compare_keys (a ∷ as') [] = gt
compare_keys (a ∷ as') (b ∷ bs) = elim (compare a b) [
  | lt ↦ lt
  | eq ↦ compare_keys as' bs
  | gt ↦ gt
]

abbrev pub key_lt : List ℕ → List ℕ → Bool
key_lt a b = elim (compare_keys a b) [ lt ↦ true | _ ↦ false ]

abbrev pub key_le : List ℕ → List ℕ → Bool
key_le a b = elim (compare_keys a b) [ gt ↦ false | _ ↦ true ]

abbrev pub key_eq : List ℕ → List ℕ → Bool
key_eq a b = elim (compare_keys a b) [ eq ↦ true | _ ↦ false ]

pub compare_keys_self : (a : List ℕ) → compare_keys a a ≡ eq
unfolding compare_keys
compare_keys_self [] = refl
compare_keys_self (a ∷ xs) = ground (arith, compare_keys_self xs)

pub compare_keys-eq : (a b : List ℕ) → compare_keys a b ≡ eq → a ≡ b
unfolding compare_keys
compare_keys-eq [] [] h = refl
compare_keys-eq [] (b ∷ ys) h = cc
compare_keys-eq (a ∷ xs) [] h = cc
compare_keys-eq (a ∷ xs) (b ∷ ys) h = ground (arith, compare_keys-eq xs ys)

pub compare_keys-gt : (a b : List ℕ) → compare_keys a b ≡ gt → compare_keys b a ≡ lt
unfolding compare_keys
compare_keys-gt [] [] h = cc
compare_keys-gt [] (b ∷ ys) h = cc
compare_keys-gt (a ∷ xs) [] h = refl
compare_keys-gt (a ∷ xs) (b ∷ ys) h = ground (arith, compare_keys-gt xs ys)

pub compare_keys-lt : (a b : List ℕ) → compare_keys a b ≡ lt → compare_keys b a ≡ gt
unfolding compare_keys
compare_keys-lt [] [] h = cc
compare_keys-lt [] (b ∷ ys) h = refl
compare_keys-lt (a ∷ xs) [] h = cc
compare_keys-lt (a ∷ xs) (b ∷ ys) h = ground (arith, compare_keys-lt xs ys)

pub compare_keys_trans :
    (a b c : List ℕ) → compare_keys a b ≡ lt → compare_keys b c ≡ lt → compare_keys a c ≡ lt
unfolding compare_keys
compare_keys_trans [] [] c h k = cc
compare_keys_trans [] (b ∷ ys) [] h k = cc
compare_keys_trans [] (b ∷ ys) (c ∷ zs) h k = refl
compare_keys_trans (a ∷ xs) [] c h k = cc
compare_keys_trans (a ∷ xs) (b ∷ ys) [] h k = cc
compare_keys_trans (a ∷ xs) (b ∷ ys) (c ∷ zs) h k = ground (arith, compare_keys_trans xs ys zs)

pub key_eq_self : (a : List ℕ) → key_eq a a ≡ true
key_eq_self a = rw (compare_keys_self a, key_eq)

pub key_eq_iff : (a b : List ℕ) → (key_eq a b ≡ true) ↔ (a ≡ b)
key_eq_iff a b = (λ h. compare_keys-eq a b (ground arith), λ e. rw e (key_eq_self b))
