-- ===== src/Strings.antt =====
-- src/string/string.c: the functions on C strings. A pointer is the list of the bytes from it on;
-- `none` is a read behind the last of them.
pub mod Laws
pub mod Case
mod Tests
use maer_os.Common.{
  ℕ, zero, suc, ◌+◌, ◌-◌, Bool, Option, none, some, List, [], ◌∷◌, leb, ◌==◌, ◌&&◌, ◌||◌, not,
  if◌then◌else◌, ltb, ℤ, pos, diff, u8,
}

-- On a `char`; a byte of 128 or more is negative there, and no capital.
unfoldable pub tolower : ℕ → ℕ
tolower c = if leb 65 c && leb c 90 then u8 (c + 32) else c

abbrev pub counted : Option ℕ → Option ℕ
counted none = none
counted (some n) = some (n + 1)

unfoldable pub strlen : List ℕ → Option ℕ
strlen [] = none
strlen (c ∷ cs) = if c == 0 then some 0 else counted (strlen cs)

unfoldable pub strnlen : List ℕ → ℕ → Option ℕ
strnlen s zero = some 0
strnlen [] (suc max) = none
strnlen (c ∷ cs) (suc max) = if c == 0 then some 0 else counted (strnlen cs max)

pub strnlen_terminator : List ℕ → ℕ → ℕ → Option ℕ
strnlen_terminator s zero terminator = some 0
strnlen_terminator [] (suc max) terminator = none
strnlen_terminator (c ∷ cs) (suc max) terminator =
    if c == 0 || c == terminator then some 0 else counted (strnlen_terminator cs max terminator)

unfoldable pub strncmp : List ℕ → List ℕ → ℕ → Option ℤ
strncmp s1 s2 zero = some (pos 0)
strncmp [] s2 (suc n) = none
strncmp (u1 ∷ s1) [] (suc n) = none
strncmp (u1 ∷ s1) (u2 ∷ s2) (suc n) =
    if not (u1 == u2) then some (diff u1 u2) else if u1 == 0 then some (pos 0) else strncmp s1 s2 n

unfoldable pub istrncmp : List ℕ → List ℕ → ℕ → Option ℤ
istrncmp s1 s2 zero = some (pos 0)
istrncmp [] s2 (suc n) = none
istrncmp (u1 ∷ s1) [] (suc n) = none
istrncmp (u1 ∷ s1) (u2 ∷ s2) (suc n) =
    if not (u1 == u2) && not (tolower u1 == tolower u2)
    then some (diff u1 u2)
    else if u1 == 0
    then some (pos 0)
    else istrncmp s1 s2 n

abbrev pub written : ℕ → Option (List ℕ) → Option (List ℕ)
written c none = none
written c (some cs) = some (c ∷ cs)

-- What `strcpy` and `strncpy` give is the bytes that they write from `dest` on.
pub strcpy : List ℕ → Option (List ℕ)
strcpy [] = none
strcpy (c ∷ cs) = if c == 0 then some (0x00 ∷ []) else written c (strcpy cs)

-- The loop of `strncpy` with `left` bytes to go.
pub strncpy_loop : List ℕ → ℕ → Option (List ℕ)
strncpy_loop s zero = some (0x00 ∷ [])
strncpy_loop [] (suc left) = none
strncpy_loop (c ∷ cs) (suc left) =
    if c == 0x00 then some (0x00 ∷ []) else written c (strncpy_loop cs left)

-- With a count of 0 the loop does not run, and the terminator is written all the same.
pub strncpy : List ℕ → ℕ → Option (List ℕ)
strncpy src count = strncpy_loop src (count - 1)

unfoldable pub isdigit : ℕ → Bool
isdigit c = leb 48 c && leb c 57

-- A `char` is signed: a byte from 128 on is negative.
unfoldable pub tonumericdigit : ℕ → ℤ
tonumericdigit c = if ltb c 128 then diff c 48 else diff c 304
