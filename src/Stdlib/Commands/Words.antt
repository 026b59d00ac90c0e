-- ===== src/Stdlib/Commands/Words.antt =====
-- programs/stdlib/src/string.c and peachos.c: the arguments of a command are its words.
use maer_os.Common.{
  ℕ, zero, suc, ◌<◌, ◌≤◌, ◌≡◌, refl, ap, ◌∙◌, true, false, Option, none, some, List, [], ◌∷◌, ◌++◌,
  take, length, ◌==◌, if◌then◌else◌, arith, leb, inl, inr, Bool-cases, ◌↔◌, if_ne, subst, take_all,
}
use maer_os.Strings.Laws.{IsText, c_string, strncpy_lem}
use maer_os.Stdlib.Commands.{
  is_delimiter, skip_delimiters, longer, token_end, Token, token_from, to_token, token_at, strtok,
  blank, argument_size, prefixed, arguments_loop, peachos_parse_command,
}

-- The pieces of a text between its blanks, also the empty ones between two of them.
unfoldable pub pieces : List ℕ → List (List ℕ)
pieces [] = [] ∷ []
pieces (c ∷ cs) =
    if c == 0x20 then [] ∷ pieces cs else elim (pieces cs) [ [] ↦ [] | p ∷ ps ↦ (c ∷ p) ∷ ps ]

-- Those that are not empty.
unfoldable pub nonempty : List (List ℕ) → List (List ℕ)
nonempty [] = []
nonempty ([] ∷ ps) = nonempty ps
nonempty ((c ∷ p) ∷ ps) = (c ∷ p) ∷ nonempty ps

unfoldable pub words : List ℕ → List (List ℕ)
words cs = nonempty (pieces cs)

-- The text before the first blank, and behind it.
before : List ℕ → List ℕ
before [] = []
before (c ∷ cs) = if c == 0x20 then [] else c ∷ before cs

behind : List ℕ → List ℕ
behind [] = []
behind (c ∷ cs) = if c == 0x20 then cs else behind cs

-- The pieces behind the first.
later : List ℕ → List (List ℕ)
later [] = []
later (c ∷ cs) = if c == 0x20 then pieces cs else later cs

pieces-before : (cs : List ℕ) → pieces cs ≡ before cs ∷ later cs
unfolding pieces before later
pieces-before [] = refl
pieces-before (c ∷ cs) = elim (Bool-cases (c == 0x20)) [
  | inl e ↦ rw e refl
  | inr e ↦ rw e (rw (pieces-before cs) refl)
]

nonempty-later : (cs : List ℕ) → nonempty (later cs) ≡ words (behind cs)
unfolding later behind words nonempty pieces
nonempty-later [] = refl
nonempty-later (c ∷ cs) = elim (Bool-cases (c == 0x20)) [
  | inl e ↦ rw e refl
  | inr e ↦ rw e (nonempty-later cs)
]

words_blank : (c : ℕ) (cs : List ℕ) → (c == 0x20) ≡ true → words (c ∷ cs) ≡ words cs
unfolding words pieces nonempty
words_blank c cs e = rw e refl

words_start :
    (c : ℕ) (cs : List ℕ)
    → (c == 0x20) ≡ false
    → words (c ∷ cs) ≡ (c ∷ before cs) ∷ words (behind cs)
unfolding words nonempty pieces
words_start c cs e =
    rw (e, words) (rw (pieces-before cs) (ap (λ ps. (c ∷ before cs) ∷ ps) (nonempty-later cs)))

behind-IsText : (cs : List ℕ) → IsText cs → IsText (behind cs)
unfolding behind IsText
behind-IsText [] t = tt
behind-IsText (c ∷ cs) t = elim (Bool-cases (c == 0x20)) [
  | inl e ↦ rw e t.1
  | inr e ↦ rw e (behind-IsText cs t.1)
]

before-IsText : (cs : List ℕ) → IsText cs → IsText (before cs)
unfolding before IsText
before-IsText [] t = tt
before-IsText (c ∷ cs) t = elim (Bool-cases (c == 0x20)) [
  | inl e ↦ rw e tt
  | inr e ↦ rw e (t.0, before-IsText cs t.1)
]

length-behind : (cs : List ℕ) → length (behind cs) ≤ length cs
unfolding behind
length-behind [] = omega arith
length-behind (c ∷ cs) = ground (arith, length-behind cs)

delimiter_blank : (c : ℕ) → is_delimiter c blank ≡ (c == 0x20)
unfolding is_delimiter
delimiter_blank c = ground arith

token_end_lem :
    (cs : List ℕ)
    → IsText cs
    → token_end blank (c_string cs []) ≡ some (before cs ++ (0 ∷ []), behind cs ++ (0 ∷ []))
unfolding token_end before behind IsText
token_end_lem [] t = refl
token_end_lem (c ∷ cs) t = if_ne c 0 _ _ t.0 ∙ elim (Bool-cases (c == 0x20)) [
  | inl e ↦ rw (delimiter_blank c ∙ e) (rw e refl)
  | inr e ↦ rw (delimiter_blank c ∙ e) (rw e (ap (longer c) (token_end_lem cs t.1)))
]

-- What a call of `strtok` from a text on gives.
abbrev pub Taken : List (List ℕ) → Option Token → Type 0
Taken ws none = ⊥
Taken [] (some (token, sp)) = (token ≡ none) × (sp ≡ none)
Taken (w ∷ ws) (some (token, sp)) =
    (token ≡ some (c_string w []))
    × IsText w
    × (rest : List ℕ) × IsText rest
    × (sp ≡ some (c_string rest []))
    × (words rest ≡ ws)

skip_blank :
    (c : ℕ) (cs : List ℕ) → (c == 0x20) ≡ true → token_from blank (c ∷ cs) ≡ token_from blank cs
unfolding token_from skip_delimiters
skip_blank c cs e =
    ap (λ b. token_at blank (if b then skip_delimiters blank cs else some (c ∷ cs)))
      (delimiter_blank c ∙ e)

take_word :
    (c : ℕ) (cs : List ℕ)
    → IsText (c ∷ cs)
    → (c == 0x20) ≡ false
    → token_from blank (c_string (c ∷ cs) [])
      ≡ some (some (c_string (c ∷ before cs) []), some (c_string (behind cs) []))
unfolding token_from skip_delimiters token_at IsText before behind
take_word c cs t e =
    ap
      (λ b.
        token_at blank
          (if b then skip_delimiters blank (c_string cs []) else some (c_string (c ∷ cs) [])))
      (delimiter_blank c ∙ e)
    ∙ if_ne c 0 _ _ t.0
    ∙ ap to_token (
        token_end_lem (c ∷ cs) t
        ∙ ap
            (λ b. some (
              (if b then [] else c ∷ before cs) ++ (0 ∷ []),
              (if b then cs else behind cs) ++ (0 ∷ []),
            ))
            e)

token_from-Taken : (cs : List ℕ) → IsText cs → Taken (words cs) (token_from blank (c_string cs []))
unfolding IsText words pieces nonempty token_from skip_delimiters token_at is_delimiter
token_from-Taken [] t = (refl, refl)
token_from-Taken (c ∷ cs) t = elim (Bool-cases (c == 0x20)) [
  | inl e ↦ rw (words_blank c cs e) (rw (skip_blank c (c_string cs []) e) (token_from-Taken cs t.1))
  | inr e ↦ rw (words_start c cs e) (
      rw (take_word c cs t e)
        (refl, (t.0, before-IsText cs t.1), behind cs, behind-IsText cs t.1, refl, refl))
]

-- The text that a command's argument holds of a word: at most 511 bytes.
abbrev pub argument : List ℕ → List ℕ
argument w = take 511 w ++ (0 ∷ [])

abbrev pub arguments : ℕ → List (List ℕ) → List (List ℕ)
arguments zero ws = []
arguments (suc n) [] = []
arguments (suc n) (w ∷ ws) = argument w ∷ arguments n ws

-- What is left for the next call: nothing, if memory for all words was there.
abbrev pub Parsed : ℕ → List (List ℕ) → Option (List (List ℕ) × Option (List ℕ)) → Type 0
Parsed available ws none = ⊥
Parsed available ws (some (args, sp)) =
    (args ≡ arguments available ws) × ((sp ≡ none) ↔ (length ws ≤ available))

prefixed-Parsed :
    (available : ℕ) (w : List ℕ) (ws : List (List ℕ)) (o : Option (List (List ℕ) × Option (List ℕ)))
    → Parsed available ws o
    → Parsed (suc available) (w ∷ ws) (prefixed (argument w) o)
prefixed-Parsed available w ws none v = v
prefixed-Parsed available w ws (some (args, sp)) v =
    (ap (λ l. argument w ∷ l) v.0, (λ e. let h = v.1.0 e in omega arith, λ h. v.1.1 (omega arith)))

none_left : (available : ℕ) → ◌≡◌ {A = List (List ℕ)} [] (arguments available [])
none_left zero = refl
none_left (suc n) = refl

arguments_loop-Parsed :
    (fuel available : ℕ) (ws : List (List ℕ)) (t : Option Token)
    → length ws < fuel
    → Taken ws t
    → Parsed available ws (arguments_loop fuel available t)
unfolding arguments_loop strtok
arguments_loop-Parsed fuel available ws none l v = absurd v
arguments_loop-Parsed zero available ws (some t) l v = absurd (omega arith)
arguments_loop-Parsed (suc fuel) available [] (some (token, sp)) l v =
    rw (v.0, v.1) (none_left available, (λ e. omega arith, λ h. refl))
arguments_loop-Parsed (suc fuel) zero (w ∷ ws) (some (token, sp)) l (e, t, rest, r, s, q) =
    rw (e, s) (refl, (λ n. cc, λ h. absurd (omega arith)))
arguments_loop-Parsed (suc fuel) (suc available) (w ∷ ws) (some (token, sp)) l
      (e, t, rest, r, s, q) =
    rw (e, s)
      (rw ((strncpy_lem w [] argument_size t).0) (
        prefixed-Parsed available w ws
          (arguments_loop fuel available (token_from blank (c_string rest [])))
          (arguments_loop-Parsed fuel available ws (token_from blank (c_string rest []))
            (omega arith)
            (subst (λ us. Taken us (token_from blank (c_string rest []))) q
              (token_from-Taken rest r)))))

length-words : (n : ℕ) (cs : List ℕ) → length cs ≤ n → length (words cs) ≤ length cs
unfolding words pieces nonempty
length-words n [] h = omega arith
length-words zero (c ∷ cs) h = absurd (omega arith)
length-words (suc n) (c ∷ cs) h = elim (Bool-cases (c == 0x20)) [
  | inl e ↦ rw (words_blank c cs e) (omega (arith, length-words n cs (omega arith)))
  | inr e ↦ rw (words_start c cs e) (
      omega (arith, length-behind cs, length-words n (behind cs) (omega (arith, length-behind cs))))
]

-- When strtok has no string saved, a command of at most 1024 bytes, with a maximum of at most 1024, gives
-- its words in order, each cut to 511 bytes, as long as memory is there for them, and the call leaves
-- no pointer saved exactly when there was memory for all.
pub peachos_parse_command-Parsed :
    (cs : List ℕ) (max available : ℕ)
    → IsText cs
    → length cs ≤ 1024
    → max < 1025
    → Parsed available (words cs) (peachos_parse_command (c_string cs []) max available none)
unfolding peachos_parse_command strtok
peachos_parse_command-Parsed cs max available t l h =
    rw (let b : leb 1025 max ≡ false = ground arith in b) (
      rw ((strncpy_lem cs [] 1025 t).0) (
        rw (take_all 1024 cs l) (
          arguments_loop-Parsed 1025 available (words cs) (token_from blank (c_string cs []))
            (let k = length-words 1024 cs l in omega arith) (token_from-Taken cs t))))
