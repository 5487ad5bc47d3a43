-- ===== src/Cli/Interactive.antt =====
-- src/bin/cli.rs: `run_intractive_mode`.
pub mod Lines
pub mod Reads
pub mod Ending
mod Tests
use justdbd.Common.{
  ℕ, zero, suc, ◌+◌, Bool, true, false, List, [], ◌∷◌, ◌++◌, Option, none, some, map, if◌then◌else◌,
}
use justdbd.Common.Float.{F64}
use justdbd.Common.Outcome.{Outcome, ok, err, panic, return, ◌>>=◌, ◌>>◌}
use justdbd.Cli.Session.{
  Printed, line, text, pair, unknown, prompt, error, error_plain, CliError, terminal, Session,
  SessionMethod, print, reading, attempt, print_stats,
}
use justdbd.Cli.Text.{trim, split_whitespace, to_uppercase, as_bytes}
use justdbd.Entry.{key_eq}
use justdbd.MemTable.{Clock}
use justdbd.Serialization.Utf8.{is_utf8}
use justdbd.Storage.Engine.{put, delete}
use justdbd.Storage.Lookup.{get}
use justdbd.Storage.Scan.{scan}
use justdbd.Storage.Tables.{Tables}

-- the arms of the match on the first word
pub data Verb : Type 0 where
  put_verb get_verb delete_verb scan_verb stats_verb quit_verb other_verb : Verb

pub verb_of : List ℕ → Verb
verb_of word =
    if key_eq word (b'P' ∷ b'U' ∷ b'T' ∷ [])
    then put_verb
    else if key_eq word (b'G' ∷ b'E' ∷ b'T' ∷ [])
    then get_verb
    else if key_eq word (b'D' ∷ b'E' ∷ b'L' ∷ b'E' ∷ b'T' ∷ b'E' ∷ [])
    then delete_verb
    else if key_eq word (b'S' ∷ b'C' ∷ b'A' ∷ b'N' ∷ [])
    then scan_verb
    else if key_eq word (b'S' ∷ b'T' ∷ b'A' ∷ b'T' ∷ b'S' ∷ [])
    then stats_verb
    else if key_eq word (b'Q' ∷ b'U' ∷ b'I' ∷ b'T' ∷ [])
    then quit_verb
    else if key_eq word (b'E' ∷ b'X' ∷ b'I' ∷ b'T' ∷ [])
    then quit_verb
    else other_verb

value_lines : Option (List ℕ) → List Printed
value_lines none = line "(nil)" ∷ []
value_lines (some value) = (if is_utf8 value then text value else line "(dataaaa)") ∷ []

pub pair_lines : List (List ℕ × List ℕ) → List Printed
pair_lines results = map (λ r. pair r.0 r.1) results

module _ {f : F64} (t : Tables f) where
  put_line : Clock → List (List ℕ) → SessionMethod t (Unit {0})
  put_line now (key ∷ value ∷ []) =
      attempt t error (put t now (as_bytes key) (as_bytes value)) λ _. line "OK" ∷ []
  put_line now _ = print t (line "Usage: PUT <key> <value>" ∷ [])

  get_line : List (List ℕ) → SessionMethod t (Unit {0})
  unfolding value_lines
  get_line (key ∷ []) = attempt t error (reading t (get t (as_bytes key))) value_lines
  get_line _ = print t (line "Usage: GET <key>" ∷ [])

  delete_line : Clock → List (List ℕ) → SessionMethod t (Unit {0})
  delete_line now (key ∷ []) =
      attempt t error_plain (delete t now (as_bytes key)) λ _. line "OK" ∷ []
  delete_line now _ = print t (line "Usage: DELETE <key>" ∷ [])

  scan_line : List (List ℕ) → SessionMethod t (Unit {0})
  unfolding pair_lines
  scan_line (start ∷ end ∷ []) =
      attempt t error (reading t (scan t (as_bytes start) (as_bytes end))) pair_lines
  scan_line _ = print t (line "Usage: SCAN <key> <value>" ∷ [])

  -- The arms of the match: `true` leaves the loop.
  by_verb : Clock → List ℕ → List (List ℕ) → Verb → SessionMethod t Bool
  unfolding put_line get_line delete_line scan_line
  by_verb now word args put_verb = do put_line now args; return false
  by_verb now word args get_verb = do get_line args; return false
  by_verb now word args delete_verb = do delete_line now args; return false
  by_verb now word args scan_verb = do scan_line args; return false
  by_verb now word args stats_verb = do print_stats t; return false
  by_verb now word args quit_verb = do print t (line "Goodbye!" ∷ []); return true
  by_verb now word args other_verb = do
    print t (unknown word ∷ line "Available commands: \nPUT, GET, DELETE, SCAN, STATS, QUIT" ∷ [])
    return false

  -- the words of a line
  pub respond : Clock → List (List ℕ) → SessionMethod t Bool
  unfolding verb_of by_verb
  respond now [] = return false
  respond now (word ∷ args) = by_verb now word args (verb_of (to_uppercase word))

  -- the body of the loop behind `read_line`
  pub turn : Clock → List ℕ → SessionMethod t Bool
  unfolding respond
  turn now input = elim (trim input) [
    | [] ↦ return false
    | c ∷ cs ↦ respond now (split_whitespace (c ∷ cs))
  ]

  -- What `read_line` answers, with the clock of the round; `none` is its error, or that of the flush in
  -- front of it. Behind the last line it answers an empty text.
  next_line :
      List (Clock × Option (List ℕ)) → (Clock × Option (List ℕ)) × List (Clock × Option (List ℕ))
  next_line [] = ((none, some []), [])
  next_line (input ∷ inputs) = (input, inputs)

  -- What the loop makes of a round: it is left, goes on, or ends in an error.
  abbrev pub Ending : Type 0
  Ending = Option (Outcome CliError (Unit {0}) × Session t)

  abbrev pub behind_turn : Outcome CliError Bool × Session t → (Session t → Ending) → Ending
  behind_turn (ok true, s) more = some (ok tt, s)
  behind_turn (ok false, s) more = more s
  behind_turn (err e, s) more = some (err e, s)
  behind_turn (panic, s) more = some (panic, s)

  abbrev pub prompted : Session t → Session t
  prompted s = record s { printed = s.printed ++ prompt ∷ [] }

  -- So many rounds of the loop. `none` says that it has not ended by then.
  pub rounds : ℕ → List (Clock × Option (List ℕ)) → Session t → Ending
  unfolding next_line turn
  rounds zero inputs s = none
  rounds (suc n) inputs s =
      let ((now, input), rest) = next_line inputs in
      elim input [
        | none ↦ some (err terminal, prompted s)
        | some entered ↦ behind_turn (turn now entered (prompted s)) (rounds n rest)
      ]

  unfoldable pub run_intractive_mode : ℕ → List (Clock × Option (List ℕ)) → Session t → Ending
  unfolding rounds
  run_intractive_mode n inputs s =
      let s' : Session t = record s {
        printed =
            s.printed
            ++ line "Interactive Mode"
              ∷ line
                  "\nCommands: PUT <key> <value>, GET <key>, DELETE <key>, SCAN <start> <end>, STATS, QUIT "
              ∷ [];
      } in
      rounds n inputs s'
