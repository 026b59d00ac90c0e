-- ===== src/PathParser/Tests.antt =====
-- The theorems on paths at "0:/ab/c".
use maer_os.Common.{ℕ, ◌≤◌, ◌≡◌, arith, some, List, [], ◌∷◌, length, pos}
use maer_os.Strings.Laws.{IsText, c_string}
use maer_os.PathParser.{pathparser_parse}
use maer_os.PathParser.Print.{IsName, AreNames, joined, printed, pathparser_parse-printed}

abbrev ab_c : List (List ℕ)
ab_c = (97 ∷ 98 ∷ []) ∷ (99 ∷ []) ∷ []

ab_c-AreNames : AreNames ab_c
unfolding AreNames IsName
ab_c-AreNames = (
  omega arith,
  (
    (λ e. omega (arith, e)),
    (λ e. omega (arith, e)),
    ((λ e. omega (arith, e)), (λ e. omega (arith, e)), tt),
  ),
  (omega arith, ((λ e. omega (arith, e)), (λ e. omega (arith, e)), tt), tt),
)

printed_short : length (printed 0 ab_c) ≤ 20
unfolding printed joined
printed_short = omega arith

abbrev x_only : List ℕ
x_only = 120 ∷ []

x-IsText : IsText x_only
unfolding IsText
x-IsText = ((λ e. omega (arith, e)), tt)

pathparser_parse-printed_example :
    pathparser_parse (c_string (printed 0 ab_c) [])
    ≡ some (some (record { drive_no = pos 0; parts = ab_c }))
pathparser_parse-printed_example =
    pathparser_parse-printed 0 ab_c [] (omega arith) ab_c-AreNames (omega (arith, printed_short))
