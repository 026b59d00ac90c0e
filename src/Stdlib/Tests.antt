-- ===== src/Stdlib/Tests.antt =====
-- Runs of programs/stdlib/src/stdlib.c, and the witness.
use maer_os.Common.{◌≡◌, refl, Option, none, some, List, [], ◌∷◌, replicate, drop, negsuc, ℕ, arith}
use maer_os.Stdlib.{Text, put_char, digits_loop, put_zero, put_sign, itoa}
use maer_os.Stdlib.Print.{Prints, itoa-Prints}

abbrev string_of : Option Text → List ℕ
string_of none = []
string_of (some s) = drop s.loc s.text

minus_forty_two : string_of (itoa (negsuc 41) (replicate 12 0xff)) ≡ 0x2d ∷ 0x34 ∷ 0x32 ∷ 0 ∷ []
unfolding itoa put_char digits_loop put_zero put_sign
minus_forty_two = refl

-- The least `int`, over a buffer that is not cleared.
itoa-Prints_example : Prints (negsuc 2147483647) (itoa (negsuc 2147483647) (replicate 12 0xff))
itoa-Prints_example = itoa-Prints (negsuc 2147483647) (replicate 12 0xff) refl (omega arith)
