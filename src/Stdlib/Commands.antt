-- ===== src/Stdlib/Commands.antt =====
-- programs/stdlib/src/string.c: strtok; programs/stdlib/src/peachos.c: the parsing of a command and the
-- reading of a line. A pointer is the list of the bytes from it on, and what a token's pointer shows
-- ends at its terminator. `none` is a read behind the last byte.
pub mod Words
pub mod Reading
mod Tests
use maer_os.Common.{
  ℕ, zero, suc, ◌+◌, ◌-◌, Bool, true, false, ◌&&◌, ◌||◌, Option, none, some, List, [], ◌∷◌, set,
  ltb, leb, ◌==◌, if◌then◌else◌, ℤ, negsuc,
}
use maer_os.Strings.{strncpy, written}

-- The loop over the delimiters up to their terminator.
pub is_delimiter : ℕ → List ℕ → Bool
is_delimiter c [] = false
is_delimiter c (d ∷ ds) = if d == 0 then false else c == d || is_delimiter c ds

-- The first loop of `strtok`: where the pointer `p_start` stops.
pub skip_delimiters : List ℕ → List ℕ → Option (List ℕ)
skip_delimiters delimiters [] = none
skip_delimiters delimiters (c ∷ cs) =
    if is_delimiter c delimiters then skip_delimiters delimiters cs else some (c ∷ cs)

abbrev pub longer : ℕ → Option (List ℕ × List ℕ) → Option (List ℕ × List ℕ)
longer c none = none
longer c (some (token, sp)) = some (c ∷ token, sp)

-- The second loop: the token up to the terminator that stands or is put behind it, and where `sp` stops.
pub token_end : List ℕ → List ℕ → Option (List ℕ × List ℕ)
token_end delimiters [] = none
token_end delimiters (c ∷ cs) =
    if c == 0
    then some (0 ∷ [], c ∷ cs)
    else if is_delimiter c delimiters
    then some (0 ∷ [], cs)
    else longer c (token_end delimiters cs)

-- From the pointer that is taken: the token, or null, and the new `sp`.
abbrev pub Token : Type 0
Token = Option (List ℕ) × Option (List ℕ)

abbrev pub to_token : Option (List ℕ × List ℕ) → Option Token
to_token none = none
to_token (some (token, sp)) = some (some token, some sp)

pub token_at : List ℕ → Option (List ℕ) → Option Token
token_at delimiters none = none
token_at delimiters (some []) = none
token_at delimiters (some (c ∷ cs)) =
    if c == 0 then some (none, none) else to_token (token_end delimiters (c ∷ cs))

pub token_from : List ℕ → List ℕ → Option Token
token_from delimiters p = token_at delimiters (skip_delimiters delimiters p)

-- A string is taken only when `sp` is null.
pub strtok : Option (List ℕ) → List ℕ → Option (List ℕ) → Option Token
strtok none delimiters none = some (none, none)
strtok (some str) delimiters none = token_from delimiters str
strtok str delimiters (some sp) = token_from delimiters sp

-- The delimiters of a command.
abbrev pub blank : List ℕ
blank = 0x20 ∷ 0 ∷ []

-- `sizeof(root_command->argument)`
abbrev pub argument_size : ℕ
argument_size = 512

abbrev pub prefixed :
    List ℕ → Option (List (List ℕ) × Option (List ℕ)) → Option (List (List ℕ) × Option (List ℕ))
prefixed argument none = none
prefixed argument (some (arguments, sp)) = some (argument ∷ arguments, sp)

abbrev pub with_argument :
    Option (List ℕ)
    → Option (List (List ℕ) × Option (List ℕ))
    → Option (List (List ℕ) × Option (List ℕ))
with_argument none rest = none
with_argument (some argument) rest = prefixed argument rest

-- The arguments that are made of the tokens from one on, the root like the others, and the `sp` that is
-- left. `available` calls of `maeros_malloc` succeed; the first that fails ends the loop. On fuel for
-- the tokens: its end is `none` too.
pub arguments_loop : ℕ → ℕ → Option Token → Option (List (List ℕ) × Option (List ℕ))
arguments_loop fuel available none = none
arguments_loop zero available (some token) = none
arguments_loop (suc fuel) available (some (none, sp)) = some ([], sp)
arguments_loop (suc fuel) zero (some (some token, sp)) = some ([], sp)
arguments_loop (suc fuel) (suc available) (some (some token, sp)) =
    with_argument (strncpy token argument_size)
      (arguments_loop fuel available (strtok none blank sp))

-- `sizeof(scommand)`
abbrev pub command_size : ℕ
command_size = 1025

-- The list of arguments is empty where the code returns null.
pub peachos_parse_command :
    List ℕ → ℕ → ℕ → Option (List ℕ) → Option (List (List ℕ) × Option (List ℕ))
peachos_parse_command command max available sp =
    if leb command_size max then some ([], sp) else elim (strncpy command command_size) [
      | none ↦ none
      | some scommand ↦ arguments_loop command_size available (strtok (some scommand) blank sp)
    ]

-- `maeros_system_run` with `sizeof(buf)` 1024. `maeros_system` is the system call, whose result is
-- returned, with the `sp` that is left.
pub maeros_system_run :
    (List (List ℕ) → ℤ) → List ℕ → ℕ → Option (List ℕ) → Option (ℤ × Option (List ℕ))
maeros_system_run maeros_system command available sp = elim (strncpy command 1024) [
  | none ↦ none
  | some buf ↦ elim (peachos_parse_command buf 1024 available sp) [
    | none ↦ none
    | some ([], sp') ↦ some (negsuc 0, sp')
    | some (root ∷ arguments, sp') ↦ some (maeros_system (root ∷ arguments), sp')
  ]
]

-- The line that is read: the buffer, the index of its terminator, what was shown, and the keys behind.
pub record ReadLine : Type 0 where
  pub out : List ℕ
  pub index : ℕ
  pub shown : List ℕ
  pub keys : List ℕ

abbrev pub showing : Bool → ℕ → Option ReadLine → Option ReadLine
showing output_while_typing key none = none
showing output_while_typing key (some l) =
    some (if output_while_typing then record l { shown = key ∷ l.shown } else l)

abbrev pub terminated : List ℕ → ℕ → List ℕ → ReadLine
terminated out i keys = record { out = set out i 0x00; index = i; shown = []; keys = keys }

-- The loop of `peachos_terminal_readline` at index `i`, over what the calls of `peachos_getkey` return,
-- 0 while no key is pressed. `none` waits for more.
pub readline_loop : List ℕ → ℕ → ℕ → Bool → List ℕ → Option ReadLine
readline_loop [] max i shows out = if ltb (i + 1) max then none else some (terminated out i [])
readline_loop (key ∷ keys) max i shows out =
    let waiting = readline_loop keys max i shows out in
    let erased = readline_loop keys max (i - 1) shows (set out (i - 1) 0x00) in
    let stored = readline_loop keys max (i + 1) shows (set out i key) in
    if ltb (i + 1) max
    then if key == 0
      then waiting
      else if key == 13
      then some (terminated out i keys)
      else showing shows key (if key == 0x08 && leb 1 i then erased else stored)
    else some (terminated out i (key ∷ keys))

pub peachos_terminal_readline : List ℕ → ℕ → Bool → List ℕ → Option ReadLine
peachos_terminal_readline keys max shows out = readline_loop keys max 0 shows out
