-- ===== src/KeyMap.antt =====
-- `BTreeMap<Key, V>` of the standard library: a list of pairs in the order of their keys.
pub mod Laws
use Prim.Native.Nat.Ordering.{lt, eq, gt}
use justdbd.Common.{
  ℕ, Bool, true, false, ◌&&◌, List, [], ◌∷◌, Option, none, some, map, if◌then◌else◌,
}
use justdbd.Entry.{compare_keys, key_lt, key_le}

abbrev pub KeyMap {ℓ} : Type ℓ → Type ℓ
KeyMap V = List (List ℕ × V)

module _ {ℓ} {V : Type ℓ} where
  unfoldable pub lookup : List ℕ → KeyMap V → Option V
  lookup k [] = none
  lookup k ((j, v) ∷ m) = elim (compare_keys k j) [ lt ↦ none | eq ↦ some v | gt ↦ lookup k m ]

  -- the key that is there stays, and its value is replaced
  unfoldable pub insert : List ℕ → V → KeyMap V → KeyMap V
  insert k v [] = (k, v) ∷ []
  insert k v ((j, w) ∷ m) = elim (compare_keys k j) [
    | lt ↦ (k, v) ∷ (j, w) ∷ m
    | eq ↦ (j, v) ∷ m
    | gt ↦ (j, w) ∷ insert k v m
  ]

  unfoldable pub keep : (List ℕ → Bool) → KeyMap V → KeyMap V
  keep test [] = []
  keep test ((j, v) ∷ m) = let rest = keep test m in if test j then (j, v) ∷ rest else rest

  -- `range` from an included to an excluded key, and to the end
  abbrev pub range : List ℕ → List ℕ → KeyMap V → KeyMap V
  range start end m = keep (λ k. key_le start k && key_lt k end) m

  abbrev pub range_from : List ℕ → KeyMap V → KeyMap V
  range_from start m = keep (λ k. key_le start k) m

  abbrev pub values : KeyMap V → List V
  values m = map (λ e. e.1) m
