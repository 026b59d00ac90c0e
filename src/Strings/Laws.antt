-- ===== src/Strings/Laws.antt =====
-- The functions on strings that end with a zero byte.
use maer_os.Common.{
  ℕ, zero, suc, ◌+◌, ◌-◌, ◌≤◌, ◌<◌, ◌≡◌, ◌≢◌, ◌↔◌, refl, sym, ap, ap₂, get_or, drop, negsuc, ◌∙◌,
  min, Option, none, some, List, [], ◌∷◌, ◌++◌, take, length, arith, ◌==◌, if_ne, ℤ, pos, diff,
  true, false, ==_false, ℕ_discrete,
}
use maer_os.Strings.{counted, strlen, strnlen, strncmp, written, strcpy, strncpy_loop, strncpy}

-- The bytes of a string before its terminator.
unfoldable pub IsText : List ℕ → Type 0
IsText [] = Unit
IsText (c ∷ cs) = (c ≢ 0) × IsText cs

pub IsText-append : (xs ys : List ℕ) → IsText xs → IsText ys → IsText (xs ++ ys)
unfolding IsText
IsText-append [] ys a b = b
IsText-append (x ∷ xs) ys a b = (a.0, IsText-append xs ys a.1 b)

-- The memory from the start of a string on.
abbrev pub c_string : List ℕ → List ℕ → List ℕ
c_string cs rest = cs ++ (0 ∷ rest)

pub strlen_lem : (cs rest : List ℕ) → IsText cs → strlen (c_string cs rest) ≡ some (length cs)
unfolding strlen IsText
strlen_lem [] rest t = refl
strlen_lem (c ∷ cs) rest t =
    if_ne c 0 _ _ t.0 ∙ ap counted (strlen_lem cs rest t.1) ∙ ap some (omega arith)

-- The length of a string is found up to the given maximum.
pub strnlen_lem :
    (cs rest : List ℕ) (max : ℕ)
    → IsText cs
    → strnlen (c_string cs rest) max ≡ some (min (length cs) max)
unfolding strnlen IsText
strnlen_lem cs rest zero t = ap some (omega arith)
strnlen_lem [] rest (suc max) t = ap some (omega arith)
strnlen_lem (c ∷ cs) rest (suc max) t =
    if_ne c 0 _ _ t.0 ∙ ap counted (strnlen_lem cs rest max t.1) ∙ ap some (omega arith)

-- The whole string is copied, its terminator included.
pub strcpy_lem : (cs rest : List ℕ) → IsText cs → strcpy (c_string cs rest) ≡ some (cs ++ (0 ∷ []))
unfolding strcpy IsText
strcpy_lem [] rest t = refl
strcpy_lem (c ∷ cs) rest t = if_ne c 0 _ _ t.0 ∙ ap (written c) (strcpy_lem cs rest t.1)

strncpy_loop_lem :
    (cs rest : List ℕ) (left : ℕ)
    → IsText cs
    → strncpy_loop (c_string cs rest) left ≡ some (take left cs ++ (0 ∷ []))
unfolding strncpy_loop IsText
strncpy_loop_lem cs rest zero t = refl
strncpy_loop_lem [] rest (suc left) t = refl
strncpy_loop_lem (c ∷ cs) rest (suc left) t =
    if_ne c 0 _ _ t.0 ∙ ap (written c) (strncpy_loop_lem cs rest left t.1)

length-take_le : (n : ℕ) (cs : List ℕ) → length (take n cs) ≤ n
length-take_le zero cs = omega arith
length-take_le (suc n) [] = omega arith
length-take_le (suc n) (c ∷ cs) = omega (arith, length-take_le n cs)

-- The copy is the string cut to one byte less than the count, with a terminator; for a count above 0
-- it stays within the count.
pub strncpy_lem :
    (cs rest : List ℕ) (count : ℕ)
    → IsText cs
    → (strncpy (c_string cs rest) count ≡ some (take (count - 1) cs ++ (0 ∷ [])))
      × (0 < count → length (take (count - 1) cs) + 1 ≤ count)
unfolding strncpy
strncpy_lem cs rest count t =
    (strncpy_loop_lem cs rest (count - 1) t, λ h. omega (arith, length-take_le (count - 1) cs))

-- How far a result of a comparison is from 0.
size : Option ℤ → ℕ
size none = 0
size (some (pos n)) = n
size (some (negsuc n)) = suc n

diff-size : (a b : ℕ) → a ≢ b → size (some (diff a b)) ≢ 0
unfolding size
diff-size a b h = ground arith

pub diff_ne_zero : (a b : ℕ) → a ≢ b → some (diff a b) ≢ some (pos 0)
unfolding size
diff_ne_zero a b h e = diff-size a b h (ap size e)

-- Two strings compare as equal within `n` bytes exactly when their first `n` bytes are the same.
pub strncmp-zero_iff :
    (n : ℕ) (xs ys r s : List ℕ)
    → IsText xs
    → IsText ys
    → (strncmp (c_string xs r) (c_string ys s) n ≡ some (pos 0)) ↔ (take n xs ≡ take n ys)
unfolding strncmp IsText size
strncmp-zero_iff zero xs ys r s ta tb = (λ e. refl, λ e. refl)
strncmp-zero_iff (suc n) [] [] r s ta tb = (λ e. refl, λ e. refl)
strncmp-zero_iff (suc n) [] (b ∷ bs) r s ta tb =
    let ne : (0 == b) ≡ false = ==_false 0 b (λ e. tb.0 (sym e)) in
    rw ne (
      λ e. absurd (diff-size 0 b (λ z. tb.0 (sym z)) (ap size e)),
      λ e. absurd (tb.0 (sym (ap (λ l. get_or l 0 0) e))),
    )
strncmp-zero_iff (suc n) (a ∷ xs) [] r s ta tb =
    let ne : (a == 0) ≡ false = ==_false a 0 ta.0 in
    rw ne
      (λ e. absurd (diff-size a 0 ta.0 (ap size e)), λ e. absurd (ta.0 (ap (λ l. get_or l 0 0) e)))
strncmp-zero_iff (suc n) (a ∷ xs) (b ∷ ys) r s ta tb = elim (ℕ_discrete a b) [
  | no d ↦
      let ne : (a == b) ≡ false = ==_false a b d in
      rw ne (λ e. absurd (diff-size a b d (ap size e)), λ e. absurd (d (ap (λ l. get_or l 0 0) e)))
  | yes e ↦
      let same : (a == b) ≡ true = ground arith in
      let z : (a == 0) ≡ false = ==_false a 0 ta.0 in
      let ih = strncmp-zero_iff n xs ys r s ta.1 tb.1 in
      rw (same, z) (λ p. ap₂ (λ c l. c ∷ l) e (ih.0 p), λ p. ih.1 (ap (drop 1) p))
]
