-- ===== src/Stdlib/Commands/Tests.antt =====
-- Runs of programs/stdlib/src/peachos.c, and the witnesses.
use maer_os.Common.{ℕ, ◌≡◌, refl, none, some, true, List, [], ◌∷◌, arith, replicate}
use maer_os.Strings.Laws.{IsText, c_string}
use maer_os.Stdlib.Commands.{
  is_delimiter, skip_delimiters, token_end, token_at, token_from, strtok, peachos_parse_command,
  peachos_terminal_readline,
}
use maer_os.Stdlib.Commands.Words.{words, pieces, nonempty, Parsed, peachos_parse_command-Parsed}
use maer_os.Stdlib.Commands.Reading.{line_of, Holds, peachos_terminal_readline-Holds}

-- " ls  a"
abbrev command : List ℕ
command = 0x20 ∷ 0x6c ∷ 0x73 ∷ 0x20 ∷ 0x20 ∷ 0x61 ∷ []

words_runs : words command ≡ (0x6c ∷ 0x73 ∷ []) ∷ (0x61 ∷ []) ∷ []
unfolding words pieces nonempty
words_runs = refl

-- A string that is passed while the last one is not used up is not looked at.
strtok_stale :
    strtok (some (0x62 ∷ 0 ∷ [])) (0x20 ∷ 0 ∷ []) (some (0x61 ∷ 0 ∷ []))
    ≡ some (some (0x61 ∷ 0 ∷ []), some (0 ∷ []))
unfolding strtok token_from token_at skip_delimiters token_end is_delimiter
strtok_stale = refl

-- A backspace at the start of the line goes to the line.
backspace_runs : line_of 8 [] (0x08 ∷ 0x61 ∷ 13 ∷ []) ≡ some (0x08 ∷ 0x61 ∷ [])
unfolding line_of
backspace_runs = refl

command-IsText : IsText command
unfolding IsText
command-IsText = omega arith

peachos_parse_command-Parsed_example :
    Parsed 5 (words command) (peachos_parse_command (c_string command []) 1024 5 none)
peachos_parse_command-Parsed_example =
    peachos_parse_command-Parsed command 1024 5 command-IsText (omega arith) (omega arith)

peachos_terminal_readline-Holds_example :
    Holds 8
      (line_of 8 [] (0 ∷ 0x61 ∷ 0x62 ∷ 0x08 ∷ 13 ∷ []))
      (peachos_terminal_readline (0 ∷ 0x61 ∷ 0x62 ∷ 0x08 ∷ 13 ∷ []) 8 true (replicate 8 0xff))
peachos_terminal_readline-Holds_example =
    peachos_terminal_readline-Holds (0 ∷ 0x61 ∷ 0x62 ∷ 0x08 ∷ 13 ∷ []) 8 true (replicate 8 0xff)
      (omega arith) (omega arith)
