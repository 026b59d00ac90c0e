-- ===== src/Stdlib.antt =====
-- programs/stdlib/src/stdlib.c: the print of a number. The number is held as the code holds it, negated:
-- here by the distance below 0, so that the least `int` has one too. The buffer is static, so a call
-- starts with what the last one left.
pub mod Print
pub mod Commands
mod Tests
use maer_os.Common.{
  ℕ, zero, suc, ◌+◌, ◌-◌, ◌/◌, ◌%◌, Bool, true, false, Option, none, some, List, set, ◌==◌,
  if◌then◌else◌, ℤ, pos, negsuc,
}

-- `text` and `loc`
pub record Text : Type 0 where
  pub text : List ℕ
  pub loc : ℕ

abbrev pub stored : ℕ → Text → Text
stored c s = record { text = set s.text (s.loc - 1) c; loc = s.loc - 1 }

-- `text[--loc] = c`; `none` is a store before the buffer.
pub put_char : ℕ → Text → Option Text
put_char c s = if s.loc == 0 then none else some (stored c s)

abbrev pub and_then : Option Text → (Text → Option Text) → Option Text
and_then none f = none
and_then (some s) f = f s

-- The loop on fuel: at most one round for each digit.
pub digits_loop : ℕ → ℕ → Text → Option Text
digits_loop zero i s = if i == 0 then some s else none
digits_loop (suc fuel) i s =
    let rest = and_then (put_char (48 + i % 10) s) (λ s'. digits_loop fuel (i / 10) s') in
    if i == 0 then some s else rest

pub put_zero : Text → Option Text
put_zero s = if s.loc == 11 then put_char 48 s else some s

pub put_sign : Bool → Text → Option Text
put_sign negative s = if negative then put_char 45 s else some s

abbrev pub has_sign : ℤ → Bool
has_sign (pos n) = false
has_sign (negsuc n) = true

abbrev pub below_zero : ℤ → ℕ
below_zero (pos n) = n
below_zero (negsuc n) = suc n

-- The string that `itoa` returns starts at `loc` of the text.
pub itoa : ℤ → List ℕ → Option Text
itoa i text =
    and_then (digits_loop 10 (below_zero i) (record { text = set text 11 0; loc = 11 }))
      (λ s. and_then (put_zero s) (put_sign (has_sign i)))
