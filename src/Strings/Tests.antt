-- ===== src/Strings/Tests.antt =====
-- The theorems on strings at short ones.
use maer_os.Common.{ℕ, ◌≡◌, refl, arith, some, List, [], ◌∷◌, pos}
use maer_os.Strings.{strnlen_terminator, istrncmp, tolower}
use maer_os.Strings.Laws.{IsText, c_string}

-- "abc" and "abd"
abbrev abc : List ℕ
abc = 97 ∷ 98 ∷ 99 ∷ []

abbrev abd : List ℕ
abd = 97 ∷ 98 ∷ 100 ∷ []

abc-IsText : IsText abc
unfolding IsText
abc-IsText = ((λ e. omega (arith, e)), ((λ e. omega (arith, e)), ((λ e. omega (arith, e)), tt)))

abd-IsText : IsText abd
unfolding IsText
abd-IsText = ((λ e. omega (arith, e)), ((λ e. omega (arith, e)), ((λ e. omega (arith, e)), tt)))

-- The string "ABC" is the same but for the case.
istrncmp_runs : istrncmp (c_string abc []) (65 ∷ 66 ∷ 67 ∷ 0 ∷ []) 8 ≡ some (pos 0)
unfolding istrncmp tolower
istrncmp_runs = refl

terminator_runs : strnlen_terminator (c_string abc []) 8 98 ≡ some 1
unfolding strnlen_terminator
terminator_runs = refl
