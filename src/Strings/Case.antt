-- ===== src/Strings/Case.antt =====
-- The comparison that does not tell a capital from the small letter.
use maer_os.Common.{
  ℕ, zero, ◌≡◌, ◌≢◌, ◌↔◌, refl, sym, ap, ap₂, ◌∙◌, get_or, drop, some, List, [], ◌∷◌, take, length,
  suc, arith, ◌==◌, ◌&&◌, not, Bool, true, false, ==_false, ℕ_discrete, pos, Bool-cases, inl, inr,
}
use maer_os.Strings.{istrncmp, tolower}
use maer_os.Strings.Laws.{IsText, c_string, diff_ne_zero}

unfoldable pub lowered : List ℕ → List ℕ
lowered [] = []
lowered (c ∷ cs) = tolower c ∷ lowered cs

pub length-lowered : (cs : List ℕ) → length (lowered cs) ≡ length cs
unfolding lowered
length-lowered [] = refl
length-lowered (c ∷ cs) = ap suc (length-lowered cs)

tolower-positive : (c : ℕ) → c ≢ 0 → tolower c ≢ 0
unfolding tolower
tolower-positive c h = ground arith

-- The test of one round.
abbrev differ : ℕ → ℕ → Bool
differ a b = not (a == b) && not (tolower a == tolower b)

differ-true : (a b : ℕ) → tolower a ≢ tolower b → differ a b ≡ true
differ-true a b h =
    let ne : (a == b) ≡ false = ==_false a b (λ e. h (ap tolower e)) in
    let nl : (tolower a == tolower b) ≡ false = ==_false _ _ h in rw (ne, nl) refl

differ-false : (a b : ℕ) → tolower a ≡ tolower b → differ a b ≡ false
differ-false a b h =
    let same : (tolower a == tolower b) ≡ true = ground arith in
    elim (Bool-cases (a == b)) [ inl e ↦ rw e refl | inr e ↦ rw (e, same) refl ]

-- A round that ends the comparison with a difference.
ended :
    (n a b : ℕ) (s t : List ℕ)
    → tolower a ≢ tolower b
    → istrncmp (a ∷ s) (b ∷ t) (suc n) ≢ some (pos 0)
unfolding istrncmp
ended n a b s t h = rw (differ-true a b h, istrncmp) (diff_ne_zero a b (λ d. h (ap tolower d)))

went_on :
    (n a b : ℕ) (s t : List ℕ)
    → tolower a ≡ tolower b
    → a ≢ 0
    → istrncmp (a ∷ s) (b ∷ t) (suc n) ≡ istrncmp s t n
unfolding istrncmp
went_on n a b s t h ne = rw (differ-false a b h, istrncmp) (rw (==_false a 0 ne) refl)

-- Two strings compare as equal within `n` bytes without regard to case exactly when their first `n`
-- bytes in small letters are the same.
pub istrncmp-zero_iff :
    (n : ℕ) (xs ys r s : List ℕ)
    → IsText xs
    → IsText ys
    → (istrncmp (c_string xs r) (c_string ys s) n ≡ some (pos 0))
      ↔ (take n (lowered xs) ≡ take n (lowered ys))
unfolding istrncmp IsText lowered tolower
istrncmp-zero_iff zero xs ys r s ta tb = (λ e. refl, λ e. refl)
istrncmp-zero_iff (suc n) [] [] r s ta tb = (λ e. refl, λ e. refl)
istrncmp-zero_iff (suc n) [] (b ∷ bs) r s ta tb =
    let ne : tolower 0 ≢ tolower b = λ e. tolower-positive b tb.0 (sym e) in
    (
      λ e. absurd (ended n 0 b r (c_string bs s) ne e),
      λ e. absurd (tolower-positive b tb.0 (sym (ap (λ l. get_or l 0 0) e))),
    )
istrncmp-zero_iff (suc n) (a ∷ xs) [] r s ta tb =
    let ne : tolower a ≢ tolower 0 = λ e. tolower-positive a ta.0 e in
    (
      λ e. absurd (ended n a 0 (c_string xs r) s ne e),
      λ e. absurd (tolower-positive a ta.0 (ap (λ l. get_or l 0 0) e)),
    )
istrncmp-zero_iff (suc n) (a ∷ xs) (b ∷ ys) r s ta tb = elim (ℕ_discrete (tolower a) (tolower b)) [
  | no d ↦ (
    λ e. absurd (ended n a b (c_string xs r) (c_string ys s) d e),
    λ e. absurd (d (ap (λ l. get_or l 0 0) e)),
  )
  | yes e ↦
      let ih = istrncmp-zero_iff n xs ys r s ta.1 tb.1 in
      let on = went_on n a b (c_string xs r) (c_string ys s) e ta.0 in
      (λ p. ap₂ (λ c l. c ∷ l) e (ih.0 (sym on ∙ p)), λ p. on ∙ ih.1 (ap (drop 1) p))
]
