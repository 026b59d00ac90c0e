-- ===== src/Stdlib/Print.antt =====
-- programs/stdlib/src/stdlib.c: what `itoa` prints is the number.
use maer_os.Common.{
  ℕ, zero, suc, ◌+◌, ◌-◌, ◌*◌, ◌/◌, ◌%◌, ◌^◌, ◌≤◌, ◌<◌, ◌≡◌, refl, sym, ◌∙◌, ap, Bool, true, false,
  Option, none, some, List, [], ◌∷◌, set, drop, length, length-set, ◌==◌, ◌&&◌, leb, if◌then◌else◌,
  ℤ, pos, negsuc, neg, arith, ℕ_discrete, if_eq, if_ne,
}
use native.Mathlib.Numerals.{unary_clauses}
use maer_os.Stdlib.{
  Text, stored, put_char, and_then, digits_loop, put_zero, put_sign, has_sign, below_zero, itoa,
}

-- The number of a decimal numeral behind the digits read so far, up to the terminator.
abbrev pub read_digits : ℕ → List ℕ → Option ℕ
read_digits n [] = none
read_digits n (c ∷ cs) =
    if c == 0
    then some n
    else if leb 48 c && leb c 57
    then read_digits (n * 10 + (c - 48)) cs
    else none

abbrev signed : Bool → Option ℕ → Option ℤ
signed minus none = none
signed minus (some n) = some (if minus then neg n else pos n)

-- The number of a string: a minus sign may stand before the numeral.
abbrev pub read_int : List ℕ → Option ℤ
read_int [] = none
read_int (c ∷ cs) =
    if c == 45 then signed true (read_digits 0 cs) else signed false (read_digits 0 (c ∷ cs))

drop-set : (xs : List ℕ) (i v : ℕ) → i < length xs → drop i (set xs i v) ≡ v ∷ drop (suc i) xs
drop-set [] i v h = absurd (omega arith)
drop-set (x ∷ xs) zero v h = refl
drop-set (x ∷ xs) (suc i) v h = drop-set xs i v (omega arith)

-- A text of which `n` is left to print and `room` bytes are free, which reads as the number `m` then.
record IsPrinting (m n room : ℕ) (s : Text) : Type 0 where
  size : length s.text ≡ 12
  start : s.loc ≤ 11
  free : room ≤ s.loc
  number : read_digits n (drop s.loc s.text) ≡ some m
  unsigned :
      s.loc < 11 → read_int (drop s.loc s.text) ≡ signed false (read_digits 0 (drop s.loc s.text))

step : (n : ℕ) → 1 ≤ n → suc (n - 1) ≡ n
step n h = omega arith

drop-stored :
    (c : ℕ) (s : Text)
    → 1 ≤ s.loc
    → s.loc ≤ length s.text
    → drop (s.loc - 1) (set s.text (s.loc - 1) c) ≡ c ∷ drop s.loc s.text
drop-stored c s h l =
    drop-set s.text (s.loc - 1) c (omega arith) ∙ ap (λ k. c ∷ drop k s.text) (step s.loc h)

put_char-stored : (c : ℕ) (s : Text) → 1 ≤ s.loc → put_char c s ≡ some (stored c s)
unfolding put_char
put_char-stored c s h = ground arith

digit : (n : ℕ) (cs : List ℕ) → read_digits (n / 10) ((48 + n % 10) ∷ cs) ≡ read_digits n cs
digit n cs = ground arith

no_sign :
    (n : ℕ) (cs : List ℕ)
    → read_int ((48 + n % 10) ∷ cs) ≡ signed false (read_digits 0 ((48 + n % 10) ∷ cs))
no_sign n cs = ground arith

stored-IsPrinting :
    (m n room : ℕ) (s : Text)
    → IsPrinting m n (suc room) s
    → IsPrinting m (n / 10) room (stored (48 + n % 10) s)
stored-IsPrinting m n room s v =
    let free = v.free in
    let start = v.start in
    let size = v.size in
    let d = drop-stored (48 + n % 10) s (omega arith) (omega arith) in
    record {
      size = length-set s.text (s.loc - 1) (48 + n % 10) ∙ v.size;
      start = omega arith;
      free = omega arith;
      number = rw d (digit n (drop s.loc s.text) ∙ v.number);
      unsigned = λ l. rw d (no_sign n (drop s.loc s.text));
    }

tenth : (n fuel : ℕ) → n < 10 ^ suc fuel → n / 10 < 10 ^ fuel
tenth n fuel h =
    let p : 10 ^ suc fuel ≡ 10 ^ fuel * 10 = simp unary_clauses refl in omega (arith, p)

ended : (m n room : ℕ) (s : Text) → n ≡ 0 → 1 ≤ room → IsPrinting m n room s → IsPrinting m 0 1 s
ended m n room s e h v =
    let free = v.free in
    record {
      size = v.size;
      start = v.start;
      free = omega arith;
      number = ap (λ k. read_digits k (drop s.loc s.text)) (sym e) ∙ v.number;
      unsigned = v.unsigned;
    }

-- The loop ends, with the whole number printed.
abbrev IsLoop : ℕ → Option Text → Type 0
IsLoop m none = ⊥
IsLoop m (some s) = IsPrinting m 0 1 s

digits_loop-IsLoop :
    (fuel m n : ℕ) (s : Text)
    → n < 10 ^ fuel
    → IsPrinting m n (suc fuel) s
    → IsLoop m (digits_loop fuel n s)
unfolding digits_loop
digits_loop-IsLoop zero m n s l v =
    rw (if_eq n 0 (some s) none (omega arith)) (ended m n 1 s (omega arith) (omega arith) v)
digits_loop-IsLoop (suc fuel) m n s l v =
    let rest = and_then (put_char (48 + n % 10) s) (λ s'. digits_loop fuel (n / 10) s') in
    elim (ℕ_discrete n 0) as (λ _. IsLoop m (if n == 0 then some s else rest)) [
      | yes e ↦ rw (if_eq n 0 (some s) rest e) (ended m n (suc (suc fuel)) s e (omega arith) v)
      | no ne ↦
          let free = v.free in
          rw (if_ne n 0 (some s) rest ne) (
            rw (put_char-stored (48 + n % 10) s (omega arith)) (
              digits_loop-IsLoop fuel m (n / 10) (stored (48 + n % 10) s) (tenth n fuel l)
                (stored-IsPrinting m n (suc fuel) s v)))
    ]

-- The text holds a string that reads as the number.
abbrev pub Prints : ℤ → Option Text → Type 0
Prints i none = ⊥
Prints i (some s) = (s.loc < 12) × (length s.text ≡ 12) × (read_int (drop s.loc s.text) ≡ some i)

-- The string of a number from 0 on, with room for a sign.
record IsNumeral (m : ℕ) (s : Text) : Type 0 where
  size : length s.text ≡ 12
  start : s.loc < 11
  free : 1 ≤ s.loc
  number : read_digits 0 (drop s.loc s.text) ≡ some m
  unsigned : read_int (drop s.loc s.text) ≡ some (pos m)

numeral : (m room : ℕ) (s : Text) → s.loc < 11 → 1 ≤ s.loc → IsPrinting m 0 room s → IsNumeral m s
numeral m room s l f v = record {
  size = v.size;
  start = l;
  free = f;
  number = v.number;
  unsigned = v.unsigned l ∙ ap (signed false) v.number;
}

abbrev IsZeroed : ℕ → Option Text → Type 0
IsZeroed m none = ⊥
IsZeroed m (some s) = IsNumeral m s

put_zero-IsZeroed : (m : ℕ) (s : Text) → IsPrinting m 0 1 s → IsZeroed m (put_zero s)
unfolding put_zero
put_zero-IsZeroed m s v =
    elim (ℕ_discrete s.loc 11)
      as (λ _. IsZeroed m (if s.loc == 11 then put_char 48 s else some s)) [
        | yes e ↦ rw (if_eq s.loc 11 (put_char 48 s) (some s) e) (
            rw (put_char-stored 48 s (omega (arith, e))) (
              numeral m 1 (stored 48 s) (omega (arith, e)) (omega (arith, e)) (
                stored-IsPrinting m 0 1 s (record {
                  size = v.size;
                  start = v.start;
                  free = omega (arith, e);
                  number = v.number;
                  unsigned = v.unsigned;
                }))))
        | no ne ↦
            let free = v.free in
            let start = v.start in
            rw (if_ne s.loc 11 (put_char 48 s) (some s) ne)
              (numeral m 1 s (omega arith) (omega arith) v)
      ]

put_sign-Prints :
    (i : ℤ) (s : Text) → IsNumeral (below_zero i) s → Prints i (put_sign (has_sign i) s)
unfolding put_sign
put_sign-Prints (pos n) s v = (let start = v.start in omega arith, v.size, v.unsigned)
put_sign-Prints (negsuc n) s v =
    let free = v.free in
    let start = v.start in
    let size = v.size in
    rw (put_char-stored 45 s (omega arith)) (
      omega arith,
      length-set s.text (s.loc - 1) 45 ∙ v.size,
      rw (drop-stored 45 s (omega arith) (omega arith)) (ap (signed true) v.number),
    )

begun :
    (m : ℕ) (text : List ℕ)
    → length text ≡ 12
    → IsPrinting m m 11 (record { text = set text 11 0; loc = 11 })
begun m text h = record {
  size = length-set text 11 0 ∙ h;
  start = omega arith;
  free = omega arith;
  number = rw (drop-set text 11 0 (omega (arith, h))) refl;
  unsigned = λ l. absurd (omega (arith, l));
}

then_zero :
    (i : ℤ) (o : Option Text)
    → IsZeroed (below_zero i) o
    → Prints i (and_then o (put_sign (has_sign i)))
then_zero i none v = absurd v
then_zero i (some s) v = put_sign-Prints i s v

then_loop :
    (i : ℤ) (o : Option Text)
    → IsLoop (below_zero i) o
    → Prints i (and_then o (λ s. and_then (put_zero s) (put_sign (has_sign i))))
then_loop i none v = absurd v
then_loop i (some s) v = then_zero i (put_zero s) (put_zero-IsZeroed (below_zero i) s v)

-- For every `int` and whatever the buffer holds, `itoa` ends and stays inside the buffer of 12 bytes,
-- and the string that it returns is a terminated decimal numeral of the number, the least `int` too.
pub itoa-Prints :
    (i : ℤ) (text : List ℕ) → length text ≡ 12 → below_zero i ≤ 2 ^ 31 → Prints i (itoa i text)
unfolding itoa
itoa-Prints i text h l = then_loop i _ (
    digits_loop-IsLoop 10 (below_zero i) (below_zero i) (record { text = set text 11 0; loc = 11 })
      (omega arith) (begun (below_zero i) text h))
