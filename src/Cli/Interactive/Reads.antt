-- ===== src/Cli/Interactive/Reads.antt =====
-- src/bin/cli.rs: the lines that leave the engine as it was.
use justdbd.Common.{ℕ, ◌≡◌, ◌⊎◌, inl, inr, refl, ap, ◌∙◌, Bool, false, List, [], ◌∷◌, length}
use justdbd.Common.Float.{F64}
use justdbd.Common.Outcome.{Outcome, ok, err, panic, resume, ◌>>◌, return}
use justdbd.Cli.Interactive.{
  Verb, put_verb, get_verb, delete_verb, scan_verb, stats_verb, quit_verb, other_verb, verb_of,
  put_line, get_line, delete_line, scan_line, by_verb, respond, turn,
}
use justdbd.Cli.Interactive.Lines.{turn-respond}
use justdbd.Cli.Session.{
  Printed, CliError, Session, SessionMethod, print, attempt, reading, print_stats,
}
use justdbd.Cli.Text.{split_whitespace, to_uppercase}
use justdbd.Error.{StorageError, Result}
use justdbd.MemTable.{Clock}
use justdbd.Storage.Engine.{Engine}
use justdbd.Storage.Tables.{Tables}

-- An arm that writes: `PUT` with a key and a value, or `DELETE` with a key.
abbrev pub Writes : Verb → List (List ℕ) → Type 0
Writes v args = ((v ≡ put_verb) × (length args ≡ 2)) ⊎ ((v ≡ delete_verb) × (length args ≡ 1))

-- The words are those of a line that writes.
unfoldable pub WritesLine : List (List ℕ) → Type 0
WritesLine [] = ⊥
WritesLine (word ∷ args) = Writes (verb_of (to_uppercase word)) args

module _ {f : F64} (t : Tables f) where
  return-keeps :
      (m : SessionMethod t (Unit {0})) (b : Bool) (s : Session t)
      → (m s).1.engine ≡ s.engine
      → ((m >> return b) s).1.engine ≡ s.engine
  return-keeps m b s h = ap (λ (x : Session t). x.engine) (go (m s)) ∙ h
    where
      go :
          (x : Outcome CliError (Unit {0}) × Session t)
          → ◌≡◌ {A = Session t} (resume x.0 (λ _. return b) x.1).1 x.1
      go (ok _, s') = refl
      go (err _, s') = refl
      go (panic, s') = refl

  attempt-reading :
      {A : Type 0} (failed : StorageError → Printed) (r : Engine f t → Result A)
      (show : A → List Printed) (s : Session t)
      → (attempt t failed (reading t r) show s).1.engine ≡ s.engine
  unfolding attempt print
  attempt-reading {A} failed r show s = go (r s.engine)
    where
      go : (x : Result A) → (attempt t failed (reading t (λ _. x)) show s).1.engine ≡ s.engine
      go (ok a) = refl
      go (err e) = refl
      go panic = refl

  arms-keep :
      (now : Clock) (word : List ℕ) (args : List (List ℕ)) (v : Verb) (s : Session t)
      → ¬ Writes v args
      → (by_verb t now word args v s).1.engine ≡ s.engine
  unfolding by_verb put_line get_line delete_line scan_line print print_stats
  arms-keep now word [] put_verb s h = refl
  arms-keep now word (a ∷ []) put_verb s h = refl
  arms-keep now word (a ∷ b ∷ []) put_verb s h = absurd (h (inl (refl, refl)))
  arms-keep now word (a ∷ b ∷ c ∷ rest) put_verb s h = refl
  arms-keep now word [] get_verb s h = refl
  arms-keep now word (a ∷ []) get_verb s h =
      return-keeps (get_line t (a ∷ [])) false s (attempt-reading _ _ _ s)
  arms-keep now word (a ∷ b ∷ rest) get_verb s h = refl
  arms-keep now word [] delete_verb s h = refl
  arms-keep now word (a ∷ []) delete_verb s h = absurd (h (inr (refl, refl)))
  arms-keep now word (a ∷ b ∷ rest) delete_verb s h = refl
  arms-keep now word [] scan_verb s h = refl
  arms-keep now word (a ∷ []) scan_verb s h = refl
  arms-keep now word (a ∷ b ∷ []) scan_verb s h =
      return-keeps (scan_line t (a ∷ b ∷ [])) false s (attempt-reading _ _ _ s)
  arms-keep now word (a ∷ b ∷ c ∷ rest) scan_verb s h = refl
  arms-keep now word args stats_verb s h = refl
  arms-keep now word args quit_verb s h = refl
  arms-keep now word args other_verb s h = refl

  -- A line that is no `PUT` with a key and a value and no `DELETE` with a key, in any case of the
  -- letters, leaves the engine as it was, whatever it prints, and also when it panics.
  pub turn-keeps :
      (now : Clock) (input : List ℕ) (s : Session t)
      → ¬ WritesLine (split_whitespace input)
      → (turn t now input s).1.engine ≡ s.engine
  unfolding respond WritesLine
  turn-keeps now input s h =
      ap (λ (x : Outcome CliError Bool × Session t). x.1.engine) (turn-respond t now input s)
      ∙ go (split_whitespace input) h
    where
      go :
          (words : List (List ℕ)) → ¬ WritesLine words → (respond t now words s).1.engine ≡ s.engine
      go [] h = refl
      go (word ∷ args) h = arms-keep now word args _ s h
