-- ===== src/Cli/Interactive/Lines.antt =====
-- src/bin/cli.rs: what a line of the interactive mode does.
use justdbd.Common.{
  ℕ, ◌≤◌, ◌≡◌, refl, ap, ◌∙◌, Bool, true, false, List, [], ◌∷◌, ◌++◌, Option, some, length, if-true,
}
use justdbd.Common.Float.{F64}
use justdbd.Common.Outcome.{ok, bind-ok}
use justdbd.Cli.Interactive.{
  put_verb, get_verb, verb_of, value_lines, put_line, get_line, by_verb, respond, turn,
}
use justdbd.Cli.Session.{line, text, Session, SessionMethod, print, attempt}
use justdbd.Cli.Text.{trim, split_whitespace, to_uppercase, as_bytes}
use justdbd.Cli.Text.Words.{split_whitespace-trim}
use justdbd.Entry.{key_eq_self}
use justdbd.Entry.Record
use justdbd.MemTable.{Clock}
use justdbd.Serialization.Utf8.{is_utf8}
use justdbd.Storage.Engine.{put}
use justdbd.Storage.Lookup.{get}
use justdbd.Storage.Lookup.Writes.{IsReady, get-put_lem}
use justdbd.Storage.Tables.{Tables}

module _ {f : F64} (t : Tables f) where
  -- The words of the line are what the match sees.
  pub turn-respond :
      (now : Clock) (input : List ℕ) (s : Session t)
      → turn t now input s ≡ respond t now (split_whitespace input) s
  unfolding turn respond split_whitespace
  turn-respond now input s = go (trim input) (split_whitespace-trim input)
    where
      go :
          (trimmed : List ℕ)
          → split_whitespace trimmed ≡ split_whitespace input
          → (elim trimmed as (λ _. SessionMethod t Bool) [
            | [] ↦ (λ s. (ok false, s))
            | c ∷ cs ↦ respond t now (split_whitespace (c ∷ cs))
          ])
              s
            ≡ respond t now (split_whitespace input) s
      go [] h = ap (λ ws. respond t now ws s) h
      go (c ∷ cs) h = ap (λ ws. respond t now ws s) h

  put_line-ok :
      (now : Clock) (key value : List ℕ) (s : Session t)
      → (put t now (as_bytes key) (as_bytes value) s.engine).0 ≡ ok tt
      → put_line t now (key ∷ value ∷ []) s ≡ (
        ok tt,
        record s {
          engine = (put t now (as_bytes key) (as_bytes value) s.engine).1;
          printed = s.printed ++ line "OK" ∷ [];
        },
      )
  unfolding put_line attempt print
  put_line-ok now key value s h = rw h refl

  get_line-ok :
      (key : List ℕ) (found : Option (List ℕ)) (s : Session t)
      → get t (as_bytes key) s.engine ≡ ok found
      → get_line t (key ∷ []) s ≡ (ok tt, record s { printed = s.printed ++ value_lines found })
  unfolding get_line attempt print
  get_line-ok key found s h = rw h refl

  respond-put :
      (now : Clock) (word : List ℕ) (args : List (List ℕ)) (s : Session t)
      → verb_of (to_uppercase word) ≡ put_verb
      → (s' : Session t) → put_line t now args s ≡ (ok tt, s')
      → respond t now (word ∷ args) s ≡ (ok false, s')
  unfolding respond by_verb
  respond-put now word args s verb s' run =
      ap (λ v. by_verb t now word args v s) verb ∙ bind-ok (put_line t now args) _ s run

  respond-get :
      (now : Clock) (word : List ℕ) (args : List (List ℕ)) (s : Session t)
      → verb_of (to_uppercase word) ≡ get_verb
      → (s' : Session t) → get_line t args s ≡ (ok tt, s')
      → respond t now (word ∷ args) s ≡ (ok false, s')
  unfolding respond by_verb
  respond-get now word args s verb s' run =
      ap (λ v. by_verb t now word args v s) verb ∙ bind-ok (get_line t args) _ s run

  -- On an engine that is ready for writes, with a clock behind the epoch, a line `PUT key value`, its
  -- first word in any case, whose key and value are within their limits and whose value is UTF-8,
  -- prints `OK`. A line `GET key` right behind it prints the value, and changes nothing.
  pub turn-put_get :
      (now : ℕ) (later : Clock) (put_input get_input put_word get_word key value : List ℕ)
      (s : Session t)
      → split_whitespace put_input ≡ put_word ∷ key ∷ value ∷ []
      → split_whitespace get_input ≡ get_word ∷ key ∷ []
      → verb_of (to_uppercase put_word) ≡ put_verb
      → verb_of (to_uppercase get_word) ≡ get_verb
      → is_utf8 (as_bytes value) ≡ true
      → IsReady t s.engine
      → length (as_bytes key) ≤ Record.max_key_size
      → length (as_bytes value) ≤ Record.max_value_size
      → (s' : Session t) × (turn t (some now) put_input s ≡ (ok false, s'))
        × (s'.printed ≡ s.printed ++ line "OK" ∷ [])
        × (turn t later get_input s'
            ≡ (ok false, record s' { printed = s'.printed ++ text (as_bytes value) ∷ [] }))
  unfolding value_lines
  turn-put_get now later put_input get_input put_word get_word key value s words words' is_put
        is_get utf8 ready hk hv =
      let k = as_bytes key in
      let v = as_bytes value in
      let (run, reads) = get-put_lem t now k v s.engine ready hk hv in
      let s' : Session t = record {
        engine = (put t (some now) k v s.engine).1;
        printed = s.printed ++ line "OK" ∷ [];
      } in
      let found : get t k s'.engine ≡ ok (some v) = reads k ∙ if-true _ _ (key_eq_self k) in
      (
        s',
        turn-respond (some now) put_input s
            ∙ ap (λ ws. respond t (some now) ws s) words
            ∙ respond-put (some now) put_word (key ∷ value ∷ []) s is_put s'
                (put_line-ok (some now) key value s run),
        refl,
        turn-respond later get_input s'
            ∙ ap (λ ws. respond t later ws s') words'
            ∙ respond-get later get_word (key ∷ []) s' is_get _
                (get_line-ok key (some v) s' found ∙ rw utf8 refl),
      )
