-- ===== src/NumberMap.antt =====
-- `HashMap<usize, V>` and `HashMap<u64, V>` of the standard library, as a list of pairs.
use justdbd.Common.{ℕ, ◌≡◌, refl, List, [], ◌∷◌, Option, none, some, arith, ◌==◌, if◌then◌else◌}

abbrev pub NumberMap {ℓ} : Type ℓ → Type ℓ
NumberMap V = List (ℕ × V)

module _ {ℓ} {V : Type ℓ} where
  unfoldable pub slot : ℕ → NumberMap V → Option V
  slot k [] = none
  slot k ((j, v) ∷ rest) = let later = slot k rest in if j == k then some v else later

  unfoldable pub set_slot : ℕ → V → NumberMap V → NumberMap V
  set_slot k v [] = (k, v) ∷ []
  set_slot k v ((j, w) ∷ rest) =
      let later = set_slot k v rest in if j == k then (j, v) ∷ rest else (j, w) ∷ later

  pub slot-set_slot :
      (q k : ℕ) (v : V) (m : NumberMap V)
      → slot q (set_slot k v m) ≡ (if k == q then some v else slot q m)
  unfolding slot set_slot
  slot-set_slot q k v [] = refl
  slot-set_slot q k v ((j, w) ∷ m) = ground (arith, slot-set_slot q k v m)
