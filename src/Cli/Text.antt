-- ===== src/Cli/Text.antt =====
-- src/bin/cli.rs: what the loop uses of the strings of the standard library. A text is the list of its
-- characters, each the number of a Unicode scalar value.
pub mod Words
use justdbd.Common.{
  ℕ, ◌+◌, ◌-◌, ◌/◌, ◌%◌, Bool, true, false, ◌&&◌, ◌||◌, List, [], ◌∷◌, ◌++◌, ltb, leb, ◌==◌,
  if◌then◌else◌,
}

-- `char::is_whitespace`: the characters with the property `White_Space`
unfoldable pub is_whitespace : ℕ → Bool
is_whitespace c =
    (leb 0x09 c && leb c 0x0d)
    || (c == 0x20
        || (c == 0x85
            || (c == 0xa0
                || (c == 0x1680
                    || ((leb 0x2000 c && leb c 0x200a)
                        || (c == 0x2028
                            || (c == 0x2029 || (c == 0x202f || (c == 0x205f || c == 0x3000)))))))))

trim_start : List ℕ → List ℕ
trim_start [] = []
trim_start (c ∷ cs) = let rest = trim_start cs in if is_whitespace c then rest else c ∷ cs

trim_end : List ℕ → List ℕ
trim_end [] = []
trim_end (c ∷ cs) = elim (trim_end cs) [
  | [] ↦ if is_whitespace c then [] else c ∷ []
  | d ∷ ds ↦ c ∷ d ∷ ds
]

pub trim : List ℕ → List ℕ
unfolding trim_start trim_end
trim text = trim_start (trim_end text)

-- a word that has ended, in front of the words behind it
end_word : List ℕ → List (List ℕ) → List (List ℕ)
end_word [] words = words
end_word (c ∷ cs) words = (c ∷ cs) ∷ words

-- the words of a text behind the start of a word
words_from : List ℕ → List ℕ → List (List ℕ)
unfolding end_word
words_from word [] = end_word word []
words_from word (c ∷ cs) = elim (is_whitespace c) [
  | true ↦ end_word word (words_from [] cs)
  | false ↦ words_from (word ++ c ∷ []) cs
]

unfoldable pub split_whitespace : List ℕ → List (List ℕ)
unfolding words_from
split_whitespace text = words_from [] text

-- The upper case of a character, where it has letters of the commands: those of the letters from `a` to
-- `z`, of the dotless `i`, the long `s`, and the two ligatures of `s` and `t`. Any other character stands
-- for its upper case, which is in no command either.
upper_char : ℕ → List ℕ
upper_char c =
    if leb b'a' c && leb c b'z'
    then (c - 32) ∷ []
    else if c == 0x131
    then b'I' ∷ []
    else if c == 0x17f
    then b'S' ∷ []
    else if c == 0xfb05 || c == 0xfb06
    then b'S' ∷ b'T' ∷ []
    else c ∷ []

unfoldable pub to_uppercase : List ℕ → List ℕ
unfolding upper_char
to_uppercase [] = []
to_uppercase (c ∷ cs) = upper_char c ++ to_uppercase cs

encode_char : ℕ → List ℕ
encode_char c =
    if ltb c 0x80
    then c ∷ []
    else if ltb c 0x800
    then (0xc0 + c / 64) ∷ (0x80 + c % 64) ∷ []
    else if ltb c 0x10000
    then (0xe0 + c / 4096) ∷ (0x80 + c / 64 % 64) ∷ (0x80 + c % 64) ∷ []
    else (0xf0 + c / 262144) ∷ (0x80 + c / 4096 % 64) ∷ (0x80 + c / 64 % 64) ∷ (0x80 + c % 64) ∷ []

-- `as_bytes`: the text in UTF-8
unfoldable pub as_bytes : List ℕ → List ℕ
unfolding encode_char
as_bytes [] = []
as_bytes (c ∷ cs) = encode_char c ++ as_bytes cs
