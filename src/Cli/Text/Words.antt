-- ===== src/Cli/Text/Words.antt =====
-- src/bin/cli.rs: the words of a line.
use justdbd.Common.{
  ℕ, ◌≡◌, ◌≢◌, refl, ap, ◌∙◌, sym, Bool, true, false, List, [], ◌∷◌, ◌++◌, append_assoc, append-nil,
  All, if◌then◌else◌, Bool-cases, inl, inr,
}
use justdbd.Cli.Text.{
  is_whitespace, trim_start, trim_end, trim, end_word, words_from, split_whitespace,
}

words_from-space :
    (word cs : List ℕ) (c : ℕ)
    → is_whitespace c ≡ true
    → words_from word (c ∷ cs) ≡ end_word word (words_from [] cs)
unfolding words_from
words_from-space word cs c h = rw (words_from, h) refl

words_from-other :
    (word cs : List ℕ) (c : ℕ)
    → is_whitespace c ≡ false
    → words_from word (c ∷ cs) ≡ words_from (word ++ c ∷ []) cs
unfolding words_from
words_from-other word cs c h = rw (words_from, h) refl

-- The white space at the start and at the end is not seen.
words_from-trim_end : (word text : List ℕ) → words_from word (trim_end text) ≡ words_from word text
unfolding trim_end words_from end_word
words_from-trim_end word [] = refl
words_from-trim_end word (c ∷ cs) =
    go (trim_end cs) (λ w. words_from-trim_end w cs) (is_whitespace c) refl
  where
    go :
        (rest : List ℕ)
        → ((w : List ℕ) → words_from w rest ≡ words_from w cs)
        → (b : Bool) → is_whitespace c ≡ b
        → words_from word
            (elim rest [ [] ↦ if is_whitespace c then [] else c ∷ [] | d ∷ ds ↦ c ∷ d ∷ ds ])
          ≡ words_from word (c ∷ cs)
    go [] h true e = rw (e, words_from-space word cs c e, ← h []) refl
    go [] h false e =
        rw e
          (words_from-other word [] c e ∙ h (word ++ c ∷ []) ∙ sym (words_from-other word cs c e))
    go (d ∷ ds) h true e =
        words_from-space word (d ∷ ds) c e
        ∙ ap (end_word word) (h [])
        ∙ sym (words_from-space word cs c e)
    go (d ∷ ds) h false e =
        words_from-other word (d ∷ ds) c e ∙ h (word ++ c ∷ []) ∙ sym (words_from-other word cs c e)

words_from-trim_start : (text : List ℕ) → words_from [] (trim_start text) ≡ words_from [] text
unfolding trim_start words_from end_word
words_from-trim_start [] = refl
words_from-trim_start (c ∷ cs) = elim (Bool-cases (is_whitespace c)) [
  | inl space ↦ rw space (words_from-trim_start cs ∙ sym (words_from-space [] cs c space))
  | inr other ↦ rw other refl
]

pub split_whitespace-trim : (text : List ℕ) → split_whitespace (trim text) ≡ split_whitespace text
unfolding split_whitespace trim
split_whitespace-trim text = words_from-trim_start (trim_end text) ∙ words_from-trim_end [] text

-- A text that is not empty and has no white space.
abbrev pub IsWord : List ℕ → Type 0
IsWord word = (word ≢ []) × All (λ c. is_whitespace c ≡ false) word

-- Words with a space behind each.
unfoldable pub spaced : List (List ℕ) → List ℕ
spaced [] = []
spaced (word ∷ words) = word ++ 0x20 ∷ spaced words

words_from-append :
    (start word rest : List ℕ)
    → All (λ c. is_whitespace c ≡ false) word
    → words_from start (word ++ rest) ≡ words_from (start ++ word) rest
unfolding words_from
words_from-append start [] rest h = rw append-nil refl
words_from-append start (c ∷ cs) rest h =
    words_from-other start (cs ++ rest) c h.0
    ∙ words_from-append (start ++ c ∷ []) cs rest h.1
    ∙ ap (λ w. words_from w rest) (append_assoc start (c ∷ []) cs)

end_word-word :
    (word : List ℕ) (words : List (List ℕ)) → word ≢ [] → end_word word words ≡ word ∷ words
unfolding end_word
end_word-word [] words h = absurd (h refl)
end_word-word (c ∷ cs) words h = refl

pub split_whitespace-spaced :
    (words : List (List ℕ)) → All IsWord words → split_whitespace (spaced words) ≡ words
unfolding split_whitespace spaced words_from end_word
split_whitespace-spaced [] h = refl
split_whitespace-spaced (word ∷ words) h =
    words_from-append [] word (0x20 ∷ spaced words) h.0.1
    ∙ words_from-space word (spaced words) 0x20 (unfold is_whitespace in refl)
    ∙ end_word-word word (words_from [] (spaced words)) h.0.0
    ∙ ap (λ ws. word ∷ ws) (split_whitespace-spaced words h.1)
