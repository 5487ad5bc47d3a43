-- ===== src/Storage/FileName.antt =====
-- src/storage.rs: the names of the SSTable files, `L{level}_{timestamp:010}_{sequence}.sst`, as bytes.
pub mod RoundTrip
pub mod Padding
mod Tests
use justdbd.Common.{
  ℕ, zero, suc, ◌+◌, ◌-◌, ◌*◌, ◌/◌, ◌%◌, ◌^◌, Bool, true, false, ◌&&◌, List, [], ◌∷◌, ◌++◌, Option,
  none, some, ltb, leb, ◌==◌, length, replicate, if◌then◌else◌,
}

pub record FileName : Type 0 where
  pub level : ℕ
  pub timestamp : ℕ
  pub sequence : ℕ

-- The decimal digits of a number in front of a text. A number of 64 bits has at most twenty.
pub digits_before : ℕ → ℕ → List ℕ → List ℕ
digits_before zero n text = text
digits_before (suc fuel) n text =
    let shorter = digits_before fuel (n / 10) ((48 + n % 10) ∷ text) in
    if ltb n 10 then (48 + n) ∷ text else shorter

decimal : ℕ → List ℕ
unfolding digits_before
decimal n = digits_before 20 n []

-- `{:010}`
unfoldable pub padded : ℕ → List ℕ
unfolding decimal
padded n = let text = decimal n in replicate (10 - length text) 48 ++ text

unfoldable pub format : FileName → List ℕ
unfolding padded
format name =
    b'L'
    ∷ (decimal name.level
        ++ (b'_'
            ∷ (padded name.timestamp
                ++ (b'_' ∷ (decimal name.sequence ++ b'.' ∷ b's' ∷ b's' ∷ b't' ∷ [])))))

-- the text before the first `_`
before_underscore : List ℕ → Option (List ℕ)
before_underscore [] = none
before_underscore (c ∷ cs) =
    let rest = before_underscore cs in
    if c == b'_' then some [] else elim rest [ none ↦ none | some text ↦ some (c ∷ text) ]

-- The digits of a `usize`; an overflow is refused.
pub parse_digits : ℕ → List ℕ → Option ℕ
parse_digits n [] = some n
parse_digits n (c ∷ cs) =
    let more = parse_digits (n * 10 + (c - 48)) cs in
    if leb 48 c && leb c 57 then (if ltb (n * 10 + (c - 48)) (2 ^ 64) then more else none) else none

-- `str::parse::<usize>`: no digits are refused, and a sign `+` is skipped
parse_usize : List ℕ → Option ℕ
unfolding parse_digits
parse_usize [] = none
parse_usize (c ∷ []) = if c == b'+' then none else parse_digits 0 (c ∷ [])
parse_usize (c ∷ d ∷ cs) =
    if c == b'+' then parse_digits 0 (d ∷ cs) else parse_digits 0 (c ∷ d ∷ cs)

-- The slice from the second byte to the underscore. A first byte `L` is one character.
unfoldable pub parse_level_from_filename : List ℕ → Option ℕ
unfolding before_underscore parse_usize
parse_level_from_filename [] = none
parse_level_from_filename (c ∷ cs) =
    if c == b'L'
    then elim (before_underscore cs) [ none ↦ none | some level_str ↦ parse_usize level_str ]
    else none
