-- ===== src/Stdlib/Commands/Reading.antt =====
-- programs/stdlib/src/peachos.c: the line that peachos_terminal_readline leaves in the buffer.
use maer_os.Common.{
  ℕ, zero, suc, ◌+◌, ◌-◌, ◌<◌, ◌≤◌, ◌≡◌, refl, sym, ap, ◌∙◌, Bool, true, false, ◌&&◌, Option, none,
  some, List, [], ◌∷◌, ◌++◌, take, length, length-set, set, get_or, get_or-set_self, ltb, leb, ◌==◌,
  if◌then◌else◌, arith, Bool-cases, inl, inr, ltb→lt, length-append, take-take, length-take_inside,
}
use maer_os.Stdlib.Commands.{
  ReadLine, showing, terminated, readline_loop, peachos_terminal_readline,
}

-- What is on the line behind a key: a backspace takes the last character away, but goes to the line as
-- a character at its start.
abbrev pub typed : List ℕ → ℕ → List ℕ
typed line key =
    if key == 0x08 && leb 1 (length line) then take (length line - 1) line else line ++ (key ∷ [])

-- The line that the keys give, behind the one there is, up to a carriage return or `max` - 1 characters;
-- none while neither has come.
unfoldable pub line_of : ℕ → List ℕ → List ℕ → Option (List ℕ)
line_of max line [] = if ltb (length line + 1) max then none else some line
line_of max line (key ∷ keys) =
    let next = line_of max (if key == 0 then line else typed line key) keys in
    if ltb (length line + 1) max then if key == 13 then some line else next else some line

-- The buffer holds the line and its terminator.
abbrev pub Holds : ℕ → Option (List ℕ) → Option ReadLine → Type 0
Holds size none none = Unit {0}
Holds size none (some l) = ⊥
Holds size (some line) none = ⊥
Holds size (some line) (some l) =
    (l.index ≡ length line)
    × (take l.index l.out ≡ line)
    × (get_or l.out l.index 0xff ≡ 0)
    × (length l.out ≡ size)

take-set_beyond : (xs : List ℕ) (i v : ℕ) → take i (set xs i v) ≡ take i xs
take-set_beyond [] i v = refl
take-set_beyond (x ∷ xs) zero v = refl
take-set_beyond (x ∷ xs) (suc i) v = ap (λ l. x ∷ l) (take-set_beyond xs i v)

take-set_next :
    (xs : List ℕ) (i v : ℕ) → i < length xs → take (suc i) (set xs i v) ≡ take i xs ++ (v ∷ [])
take-set_next [] i v h = absurd (omega arith)
take-set_next (x ∷ xs) zero v h = refl
take-set_next (x ∷ xs) (suc i) v h = ap (λ l. x ∷ l) (take-set_next xs i v (omega arith))

-- The buffer holds a line up to an index.
record IsBuffer (size max i : ℕ) (out line : List ℕ) : Type 0 where
  sized : length out ≡ size
  kept : take i out ≡ line
  long : length line ≡ i
  inside : i < size
  fits : max ≤ size

module _ (size max i : ℕ) (out line : List ℕ) (v : IsBuffer size max i out line) where
  terminated-Holds : (keys : List ℕ) → Holds size (some line) (some (terminated out i keys))
  terminated-Holds keys = (
    sym v.long,
    take-set_beyond out i 0 ∙ v.kept,
    get_or-set_self out i 0 0xff (let s = v.sized in let h = v.inside in omega arith),
    length-set out i 0 ∙ v.sized,
  )

  stored-IsBuffer :
      (key : ℕ) → i + 1 < max → IsBuffer size max (i + 1) (set out i key) (line ++ (key ∷ []))
  stored-IsBuffer key h =
      let s = v.sized in
      let l = v.long in
      let m = v.fits in
      let e : i + 1 ≡ suc i = omega arith in
      record {
        sized = length-set out i key ∙ v.sized;
        kept = rw e (take-set_next out i key (omega arith) ∙ ap (λ x. x ++ (key ∷ [])) v.kept);
        long = omega (arith, length-append line (key ∷ []));
        inside = omega arith;
        fits = v.fits;
      }

  erased-IsBuffer : IsBuffer size max (i - 1) (set out (i - 1) 0) (take (i - 1) line)
  erased-IsBuffer =
      let l = v.long in
      let h = v.inside in
      record {
        sized = length-set out (i - 1) 0 ∙ v.sized;
        kept =
            take-set_beyond out (i - 1) 0
            ∙ sym (take-take out (i - 1) i (omega arith))
            ∙ ap (take (i - 1)) v.kept;
        long = length-take_inside line (i - 1) (omega arith);
        inside = omega arith;
        fits = v.fits;
      }

showing-Holds :
    (shows : Bool) (key size : ℕ) (line : Option (List ℕ)) (o : Option ReadLine)
    → Holds size line o
    → Holds size line (showing shows key o)
showing-Holds shows key size none none v = v
showing-Holds shows key size none (some l) v = absurd v
showing-Holds shows key size (some line) none v = absurd v
showing-Holds true key size (some line) (some l) v = v
showing-Holds false key size (some line) (some l) v = v

readline_loop-Holds :
    (keys : List ℕ) (size max i : ℕ) (shows : Bool) (out line : List ℕ)
    → IsBuffer size max i out line
    → Holds size (line_of max line keys) (readline_loop keys max i shows out)
unfolding line_of readline_loop
readline_loop-Holds [] size max i shows out line v =
    rw (v.long) (elim (Bool-cases (ltb (i + 1) max)) [
      | inl more ↦ rw more tt
      | inr full ↦ rw full (terminated-Holds size max i out line v [])
    ])
readline_loop-Holds (key ∷ keys) size max i shows out line v =
    rw (v.long) (elim (Bool-cases (ltb (i + 1) max)) [
      | inr full ↦ rw full (terminated-Holds size max i out line v (key ∷ keys))
      | inl more ↦ rw more (elim (Bool-cases (key == 0)) [
        | inl waits ↦
            let d : (key == 13) ≡ false = ground arith in
            rw (waits, d) (readline_loop-Holds keys size max i shows out line v)
        | inr pressed ↦ rw pressed (elim (Bool-cases (key == 13)) [
          | inl ends ↦ rw ends (terminated-Holds size max i out line v keys)
          | inr other ↦ rw other (
              showing-Holds shows key size _ _ (elim (Bool-cases (key == 0x08 && leb 1 i)) [
                | inl back ↦ rw back (
                    readline_loop-Holds keys size max (i - 1) shows (set out (i - 1) 0)
                      (take (i - 1) line) (erased-IsBuffer size max i out line v))
                | inr new ↦ rw new (
                    readline_loop-Holds keys size max (i + 1) shows (set out i key)
                      (line ++ (key ∷ []))
                      (stored-IsBuffer size max i out line v key (ltb→lt (i + 1) max more)))
              ]))
        ])
      ])
    ])

-- For every sequence of keys, a line that is read into a buffer with room for `max` bytes waits exactly
-- while the keys give no line, and then leaves the line that they give, backspaces included, in the
-- buffer with its terminator behind it.
pub peachos_terminal_readline-Holds :
    (keys : List ℕ) (max : ℕ) (shows : Bool) (out : List ℕ)
    → 0 < length out
    → max ≤ length out
    → Holds (length out) (line_of max [] keys) (peachos_terminal_readline keys max shows out)
unfolding peachos_terminal_readline
peachos_terminal_readline-Holds keys max shows out h m =
    readline_loop-Holds keys (length out) max 0 shows out []
      (record { sized = refl; kept = refl; long = refl; inside = h; fits = m })
