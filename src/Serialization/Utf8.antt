-- ===== src/Serialization/Utf8.antt =====
-- `String::from_utf8` of the standard library: which byte sequences are UTF-8 (the table of
-- well-formed sequences in the Unicode standard).
use justdbd.Common.{
  ℕ, Bool, true, false, ◌&&◌, List, [], ◌∷◌, Option, none, some, ltb, leb, ◌==◌, if◌then◌else◌,
}

-- The ranges in which the bytes after the first have to lie.
abbrev tail : List (ℕ × ℕ)
tail = (0x80, 0xbf) ∷ []

abbrev lead : ℕ → Option (List (ℕ × ℕ))
lead c =
    if ltb c 0x80
    then some []
    else if leb 0xc2 c && leb c 0xdf
    then some tail
    else if c == 0xe0
    then some ((0xa0, 0xbf) ∷ tail)
    else if c == 0xed
    then some ((0x80, 0x9f) ∷ tail)
    else if leb 0xe1 c && leb c 0xef
    then some ((0x80, 0xbf) ∷ tail)
    else if c == 0xf0
    then some ((0x90, 0xbf) ∷ (0x80, 0xbf) ∷ tail)
    else if leb 0xf1 c && leb c 0xf3
    then some ((0x80, 0xbf) ∷ (0x80, 0xbf) ∷ tail)
    else if c == 0xf4
    then some ((0x80, 0x8f) ∷ (0x80, 0xbf) ∷ tail)
    else none

well_formed : List (ℕ × ℕ) → List ℕ → Bool
well_formed [] [] = true
well_formed (r ∷ rs) [] = false
well_formed [] (c ∷ cs) = elim (lead c) [ none ↦ false | some rs ↦ well_formed rs cs ]
well_formed ((lo, hi) ∷ rs) (c ∷ cs) = leb lo c && leb c hi && well_formed rs cs

unfoldable pub is_utf8 : List ℕ → Bool
unfolding well_formed
is_utf8 bytes = well_formed [] bytes
