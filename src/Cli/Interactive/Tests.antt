-- ===== src/Cli/Interactive/Tests.antt =====
-- src/bin/cli.rs: examples of lines.
use justdbd.Common.{ℕ, ◌≡◌, refl, inl, inr, List, [], ◌∷◌, ◌++◌, Option, none, some, false, arith}
use justdbd.Common.Outcome.{ok}
use justdbd.Cli.Interactive.{turn, prompted, rounds, verb_of, respond, by_verb, put_line}
use justdbd.Cli.Interactive.Ending.{GoesOn, rounds-quit, rounds-end_of_input}
use justdbd.Cli.Interactive.Lines.{turn-respond, turn-put_get}
use justdbd.Cli.Interactive.Reads.{WritesLine, turn-keeps}
use justdbd.Cli.Session.{line, text, prompt, print, Session}
use justdbd.Cli.Text.{is_whitespace, split_whitespace, to_uppercase, as_bytes}
use justdbd.Entry.{compare_keys}
use justdbd.Entry.Record
use justdbd.MemTable.{Clock}
use justdbd.Serialization.Utf8.{is_utf8}
use justdbd.Storage.Lookup.Writes.{IsReady}
use justdbd.Storage.Sample.{samples, engine, holding}

abbrev start : Session samples
start = record {
  engine = engine (holding (Record.new (b'z' ∷ []) (some []) 1 9)) [] [] 4;
  printed = [];
}

start-IsReady : IsReady samples start.engine
start-IsReady = record { not_closed = refl; writable = refl; room = omega arith }

-- `put k é`
abbrev put_input : List ℕ
put_input = b'p' ∷ b'u' ∷ b't' ∷ 0x20 ∷ b'k' ∷ 0x20 ∷ 0xe9 ∷ 0x0a ∷ []

-- `Get  k`
abbrev get_input : List ℕ
get_input = b'G' ∷ b'e' ∷ b't' ∷ 0x20 ∷ 0x20 ∷ b'k' ∷ 0x0a ∷ []

turn-put_get_example :
    (s' : Session samples) × (turn samples (some 5) put_input start ≡ (ok false, s'))
    × (s'.printed ≡ line "OK" ∷ [])
    × (turn samples none get_input s'
        ≡ (ok false, record s' { printed = s'.printed ++ text (as_bytes (0xe9 ∷ [])) ∷ [] }))
unfolding split_whitespace is_whitespace to_uppercase as_bytes compare_keys is_utf8 verb_of
turn-put_get_example =
    turn-put_get samples 5 none put_input get_input (b'p' ∷ b'u' ∷ b't' ∷ [])
      (b'G' ∷ b'e' ∷ b't' ∷ []) (b'k' ∷ []) (0xe9 ∷ []) start refl refl refl refl refl start-IsReady
      (omega arith) (omega arith)

-- `put k`
abbrev short_input : List ℕ
short_input = b'p' ∷ b'u' ∷ b't' ∷ 0x20 ∷ b'k' ∷ 0x0a ∷ []

turn-keeps_example : (turn samples none short_input start).1.engine ≡ start.engine
unfolding split_whitespace is_whitespace to_uppercase compare_keys verb_of WritesLine
turn-keeps_example = turn-keeps samples none short_input start keeps
  where
    keeps : ¬ WritesLine (split_whitespace short_input)
    keeps (inl (_, two)) = omega (arith, two)
    keeps (inr (delete, _)) = cc

-- `Exit`
abbrev quit_input : List ℕ
quit_input = b'E' ∷ b'x' ∷ b'i' ∷ b't' ∷ 0x0a ∷ []

abbrev one_line : List (Clock × Option (List ℕ))
one_line = (some 5, some short_input) ∷ []

abbrev told : Session samples
told = record (start) { printed = prompt ∷ line "Usage: PUT <key> <value>" ∷ [] }

start-GoesOn : GoesOn samples one_line start told
unfolding GoesOn respond by_verb put_line print verb_of split_whitespace is_whitespace to_uppercase
    compare_keys
start-GoesOn = (
  short_input,
  told,
  refl,
  turn-respond samples (some 5) short_input (prompted samples start),
  refl,
)

rounds-quit_example :
    rounds samples 7 (one_line ++ (some 6, some quit_input) ∷ []) start
    ≡ some (ok tt, record told { printed = (told.printed ++ prompt ∷ []) ++ line "Goodbye!" ∷ [] })
unfolding split_whitespace is_whitespace to_uppercase compare_keys verb_of
rounds-quit_example =
    rounds-quit samples 7 (some 6) quit_input (b'E' ∷ b'x' ∷ b'i' ∷ b't' ∷ []) [] one_line [] start
      told start-GoesOn refl refl (omega arith)

rounds-end_of_input_example : rounds samples 9 one_line start ≡ none
rounds-end_of_input_example = rounds-end_of_input samples 9 one_line start told start-GoesOn
