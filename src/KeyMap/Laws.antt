-- ===== src/KeyMap/Laws.antt =====
-- Laws of ordered maps.
use Prim.Native.Nat.Ordering.{lt, eq, gt}
use justdbd.Common.{
  ℕ, ◌+◌, ◌≡◌, refl, sym, ap, subst, Bool, Bool-cases, ◌⊎◌, inl, inr, Ordering, List, [], ◌∷◌,
  Option, none, some, arith, length, if◌then◌else◌,
}
use justdbd.Entry.{
  compare_keys, key_eq, compare_keys_self, compare_keys-eq, compare_keys-gt, compare_keys-lt,
  compare_keys_trans,
}
use justdbd.KeyMap.{KeyMap, lookup, insert, keep}

pub compare_cases :
    (a b : List ℕ) → (compare_keys a b ≡ lt) ⊎ ((compare_keys a b ≡ eq) ⊎ (compare_keys a b ≡ gt))
compare_cases a b = go (compare_keys a b)
  where
    go : (o : Ordering) → (o ≡ lt) ⊎ ((o ≡ eq) ⊎ (o ≡ gt))
    go lt = inl refl
    go eq = inr (inl refl)
    go gt = inr (inr refl)

module _ {ℓ} {V : Type ℓ} where
  -- Every key of the map lies above `k`.
  abbrev pub Above : List ℕ → KeyMap V → Type 0
  Above k [] = Unit
  Above k ((j, v) ∷ m) = (compare_keys k j ≡ lt) × Above k m

  abbrev pub IsSorted : KeyMap V → Type 0
  IsSorted [] = Unit
  IsSorted ((j, v) ∷ m) = Above j m × IsSorted m

  abbrev pub AllValues {κ} : (List ℕ → V → Type κ) → KeyMap V → Type κ
  AllValues P [] = Unit
  AllValues P ((j, v) ∷ m) = P j v × AllValues P m

  -- One key is changed, and no other.
  pub lookup-insert :
      (k q : List ℕ) (v : V) (m : KeyMap V)
      → lookup q (insert k v m) ≡ (if key_eq q k then some v else lookup q m)
  unfolding lookup insert
  lookup-insert k q v [] = ground arith
  lookup-insert k q v ((j, w) ∷ m) = ground (
    arith,
    lookup-insert k q v m,
    compare_keys-eq k j,
    compare_keys-eq q k,
    compare_keys-eq q j,
    compare_keys_self k,
    compare_keys_trans q k j,
    compare_keys-gt k j,
    compare_keys-gt q k,
    compare_keys-lt j k,
    compare_keys_trans j k q,
    compare_keys-lt k q,
  )

  Above-insert :
      (b k : List ℕ) (v : V) (m : KeyMap V)
      → compare_keys b k ≡ lt
      → Above b m
      → Above b (insert k v m)
  unfolding insert
  Above-insert b k v [] h a = (h, tt)
  Above-insert b k v ((j, w) ∷ m) h a = ground (arith, Above-insert b k v m h a.1)

  pub Above-trans : (b k : List ℕ) (m : KeyMap V) → compare_keys b k ≡ lt → Above k m → Above b m
  Above-trans b k [] h a = tt
  Above-trans b k ((j, w) ∷ m) h a = (compare_keys_trans b k j h a.0, Above-trans b k m h a.1)

  pub insert-IsSorted : (k : List ℕ) (v : V) (m : KeyMap V) → IsSorted m → IsSorted (insert k v m)
  unfolding insert
  insert-IsSorted k v [] s = (tt, tt)
  insert-IsSorted k v ((j, w) ∷ m) s =
      ground
        (arith, Above-trans k j m, Above-insert j k v m, compare_keys-gt k j, insert-IsSorted k v m)

  pub AllValues-imp {κ μ} :
      (P : List ℕ → V → Type κ) (Q : List ℕ → V → Type μ)
      → ((k : List ℕ) (v : V) → P k v → Q k v)
      → (m : KeyMap V) → AllValues P m
      → AllValues Q m
  AllValues-imp P Q f [] a = tt
  AllValues-imp P Q f ((j, v) ∷ m) a = (f j v a.0, AllValues-imp P Q f m a.1)

  pub AllValues-insert {κ} :
      (P : List ℕ → V → Type κ) (k : List ℕ) (v : V) (m : KeyMap V)
      → P k v
      → AllValues P m
      → AllValues P (insert k v m)
  unfolding insert
  AllValues-insert P k v [] p a = (p, tt)
  AllValues-insert P k v ((j, w) ∷ m) p a = elim (compare_cases k j) [
    | inl below ↦ rw (below, insert) (p, a)
    | inr (inl same) ↦ rw (same, insert) (subst (λ x. P x v) (compare_keys-eq k j same) p, a.1)
    | inr (inr above) ↦ rw (above, insert) (a.0, AllValues-insert P k v m p a.1)
  ]

  pub lookup-AllValues {κ} :
      (P : List ℕ → V → Type κ) (k : List ℕ) (m : KeyMap V) {v : V}
      → AllValues P m
      → lookup k m ≡ some v
      → P k v
  unfolding lookup
  lookup-AllValues P k [] a h = cc
  lookup-AllValues P k ((j, w) ∷ m) {v} a h = elim (compare_cases k j) [
    | inl below ↦ absurd (ground (arith, below))
    | inr (inl same) ↦
        let hit : w ≡ v = ground (arith, same) in
        subst (λ x. P x v) (sym (compare_keys-eq k j same)) (subst (P j) hit a.0)
    | inr (inr above) ↦ lookup-AllValues P k m a.1 (ground (arith, above))
  ]

  -- 1 for a hit and 0 for a miss
  abbrev pub found : Option V → ℕ
  found none = 0
  found (some _) = 1

  pub length-insert :
      (k : List ℕ) (v : V) (m : KeyMap V)
      → length (insert k v m) + found (lookup k m) ≡ length m + 1
  unfolding insert lookup
  length-insert k v [] = refl
  length-insert k v ((j, w) ∷ m) = ground (arith, length-insert k v m)

-- What a map has under a key that lies below all of its keys, and after a selection of keys.
module _ {ℓ} {V : Type ℓ} where
  pub lookup-Above : (q : List ℕ) (m : KeyMap V) → Above q m → lookup q m ≡ none
  unfolding lookup
  lookup-Above q [] a = refl
  lookup-Above q ((j, v) ∷ m) a = rw (a.0, lookup)

  Above-keep :
      (test : List ℕ → Bool) (q : List ℕ) (m : KeyMap V) → Above q m → Above q (keep test m)
  unfolding keep
  Above-keep test q [] a = tt
  Above-keep test q ((j, v) ∷ m) a = elim (Bool-cases (test j)) [
    | inl kept ↦ rw (kept, keep) (a.0, Above-keep test q m a.1)
    | inr left_out ↦ rw (left_out, keep) (Above-keep test q m a.1)
  ]

  pub keep-IsSorted : (test : List ℕ → Bool) (m : KeyMap V) → IsSorted m → IsSorted (keep test m)
  unfolding keep
  keep-IsSorted test [] s = tt
  keep-IsSorted test ((j, v) ∷ m) s = elim (Bool-cases (test j)) [
    | inl kept ↦ rw (kept, keep) (Above-keep test j m s.0, keep-IsSorted test m s.1)
    | inr left_out ↦ rw (left_out, keep) (keep-IsSorted test m s.1)
  ]

  pub lookup-keep :
      (test : List ℕ → Bool) (q : List ℕ) (m : KeyMap V)
      → IsSorted m
      → lookup q (keep test m) ≡ (if test q then lookup q m else none)
  unfolding lookup keep
  lookup-keep test q [] s = ground arith
  lookup-keep test q ((j, v) ∷ m) s = elim (compare_cases q j) [
    | inl below ↦
        let none_kept =
          lookup-Above q (keep test m) (Above-keep test q m (Above-trans q j m below s.0)) in
        ground (arith, none_kept)
    | inr (inl same) ↦
        let e = compare_keys-eq q j same in
        let none_kept = lookup-Above q (keep test m) (Above-keep test q m (rw e s.0)) in
        ground (arith, none_kept, ap test e)
    | inr (inr above) ↦ ground (arith, lookup-keep test q m s.1)
  ]
