-- ===== src/Isr80h/Print.antt =====
-- src/isr80h/io.c: the command that prints shows the program's string.
use maer_os.Common.{
  ℕ, zero, suc, ◌+◌, ◌^◌, ◌≤◌, ◌<◌, ◌≡◌, sym, ap, ◌∙◌, some, List, [], ◌∷◌, length, get_or, u32,
  arith, if_eq, if_ne,
}
use maer_os.Memory.{Memory}
use maer_os.Strings.Laws.{IsText}
use maer_os.Isr80h.{string_at}

-- A text with its terminator in the memory is the string at its address.
pub string_at_lem :
    (left : ℕ) (cs : List ℕ) (m : Memory) (a : ℕ)
    → IsText cs
    → length cs < left
    → a + left < 2 ^ 32
    → ((i : ℕ) → i ≤ length cs → m (a + i) ≡ get_or cs i 0)
    → string_at left m a ≡ some cs
unfolding string_at IsText
string_at_lem zero cs m a t l h b = absurd (omega arith)
string_at_lem (suc left) [] m a t l h b =
    let z : m a ≡ 0 = ap m (omega arith) ∙ b 0 (omega arith) in if_eq (m a) 0 _ _ z
string_at_lem (suc left) (c ∷ cs) m a t l h b =
    let z : m a ≡ c = ap m (omega arith) ∙ b 0 (omega arith) in
    let u : u32 (a + 1) ≡ a + 1 = omega arith in
    let ih =
      string_at_lem left cs m (a + 1) t.1 (omega arith) (omega arith)
        (λ i k. ap m (omega arith) ∙ b (suc i) (omega arith)) in
    if_ne (m a) 0 _ _ (λ e. t.0 (sym z ∙ e)) ∙ rw (u, ih) (ap (λ x. some (x ∷ cs)) z)
