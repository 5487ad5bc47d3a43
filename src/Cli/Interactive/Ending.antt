-- ===== src/Cli/Interactive/Ending.antt =====
-- src/bin/cli.rs: when the interactive mode ends.
use justdbd.Common.{
  ℕ, zero, suc, ◌+◌, ◌-◌, ◌<◌, ◌≡◌, refl, ap, ◌∙◌, true, false, List, [], ◌∷◌, ◌++◌, Option, none,
  some, arith, length,
}
use justdbd.Common.Float.{F64}
use justdbd.Common.Outcome.{ok}
use justdbd.Cli.Interactive.{
  quit_verb, verb_of, by_verb, respond, turn, next_line, behind_turn, prompted, rounds,
}
use justdbd.Cli.Interactive.Lines.{turn-respond}
use justdbd.Cli.Session.{line, prompt, Session, print}
use justdbd.Cli.Text.{split_whitespace, to_uppercase}
use justdbd.MemTable.{Clock}
use justdbd.Storage.Tables.{Tables}

module _ {f : F64} (t : Tables f) where
  -- The lines are read and none of them leaves the loop or panics: the session becomes another.
  unfoldable pub GoesOn : List (Clock × Option (List ℕ)) → Session t → Session t → Type 0
  GoesOn [] s s' = s ≡ s'
  GoesOn ((now, input) ∷ inputs) s s' =
      (entered : List ℕ) × (between : Session t) × (input ≡ some entered)
      × (turn t now entered (prompted t s) ≡ (ok false, between))
      × GoesOn inputs between s'

  -- One round of the loop that goes on.
  rounds-step :
      (n : ℕ) (now : Clock) (entered : List ℕ) (inputs : List (Clock × Option (List ℕ)))
      (s s' : Session t)
      → turn t now entered (prompted t s) ≡ (ok false, s')
      → rounds t (suc n) ((now, some entered) ∷ inputs) s ≡ rounds t n inputs s'
  unfolding rounds next_line
  rounds-step n now entered inputs s s' h = ap (λ x. behind_turn t x (rounds t n inputs)) h

  -- Behind the last line the loop goes round for ever.
  end_of_input : (n : ℕ) (s : Session t) → rounds t n [] s ≡ none
  unfolding rounds next_line respond split_whitespace
  end_of_input zero s = refl
  end_of_input (suc n) s =
      ap (λ x. behind_turn t x (rounds t n [])) (turn-respond t none [] (prompted t s))
      ∙ end_of_input n (prompted t s)

  rounds-GoesOn :
      (k : ℕ) (inputs more : List (Clock × Option (List ℕ))) (s s' : Session t)
      → GoesOn inputs s s'
      → rounds t (length inputs + k) (inputs ++ more) s ≡ rounds t k more s'
  unfolding GoesOn
  rounds-GoesOn k [] more s s' h =
      let none_read : 0 + k ≡ k = omega arith in rw none_read (ap (rounds t k more) h)
  rounds-GoesOn k ((now, input) ∷ inputs) more s s' (entered, between, read, run, rest) =
      let n : length ((now, input) ∷ inputs) + k ≡ suc (length inputs + k) = omega arith in
      rw (n, read)
        (rounds-step (length inputs + k) now entered (inputs ++ more) s between run
          ∙ rounds-GoesOn k inputs more between s' rest)

  -- If some lines are read and none of them leaves the loop or panics, a line `QUIT` or `EXIT` behind
  -- them, in any case, whatever else stands on it, ends the loop in its own round, with the prompt and
  -- `Goodbye!` printed and nothing else done; the lines behind it are not read.
  pub rounds-quit :
      (n : ℕ) (now : Clock) (entered word : List ℕ) (args : List (List ℕ))
      (inputs more : List (Clock × Option (List ℕ))) (s s' : Session t)
      → GoesOn inputs s s'
      → split_whitespace entered ≡ word ∷ args
      → verb_of (to_uppercase word) ≡ quit_verb
      → length inputs < n
      → rounds t n (inputs ++ (now, some entered) ∷ more) s
        ≡ some (ok tt, record s' { printed = (s'.printed ++ prompt ∷ []) ++ line "Goodbye!" ∷ [] })
  unfolding rounds next_line respond by_verb print
  rounds-quit n now entered word args inputs more s s' h words is_quit enough =
      let fuel : n ≡ length inputs + suc (n - length inputs - 1) = omega arith in
      let run : turn t now entered (prompted t s')
          ≡ (ok true, record s' { printed = (s'.printed ++ prompt ∷ []) ++ line "Goodbye!" ∷ [] }) =
        turn-respond t now entered (prompted t s')
        ∙ ap (λ ws. respond t now ws (prompted t s')) words
        ∙ ap (λ v. by_verb t now word args v (prompted t s')) is_quit in
      ap (λ m. rounds t m (inputs ++ (now, some entered) ∷ more) s) fuel
      ∙ rounds-GoesOn (suc (n - length inputs - 1)) inputs ((now, some entered) ∷ more) s s' h
      ∙ ap (λ x. behind_turn t x (rounds t (n - length inputs - 1) more)) run

  -- If some lines are read, none of them leaves the loop or panics, and no line comes behind them, then
  -- the loop never ends: at the end of the input it goes round for ever.
  pub rounds-end_of_input :
      (n : ℕ) (inputs : List (Clock × Option (List ℕ))) (s s' : Session t)
      → GoesOn inputs s s'
      → rounds t n inputs s ≡ none
  unfolding GoesOn
  rounds-end_of_input n [] s s' h = end_of_input n s
  rounds-end_of_input zero (input ∷ inputs) s s' h = unfold rounds in refl
  rounds-end_of_input (suc n) ((now, input) ∷ inputs) s s' (entered, between, read, run, rest) =
      rw read (
        rounds-step n now entered inputs s between run
        ∙ rounds-end_of_input n inputs between s' rest)
