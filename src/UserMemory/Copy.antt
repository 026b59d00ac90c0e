-- ===== src/UserMemory/Copy.antt =====
-- src/string/string.c: the copy of a string through a translation of addresses.
use maer_os.Common.{
  ℕ, zero, suc, ◌+◌, ◌^◌, ◌≤◌, ◌<◌, ◌≡◌, ◌≢◌, refl, sym, ap, ◌∙◌, ◌⊎◌, inl, inr, Option, some, List,
  [], ◌∷◌, ◌++◌, take, length, get_or, u32, arith, if_ne, if_eq, ap₂,
}
use maer_os.Memory.{Memory, write}
use maer_os.Memory.Laws.{write_self, write_ne}
use maer_os.Strings.Laws.{IsText}
use maer_os.UserMemory.{strncpy_at}

-- The bytes of a text and its terminator lie behind `src`, each at a place outside the target.
pub record IsSource (tr : ℕ → Option ℕ) (src left : ℕ) (cs : List ℕ) (place : ℕ → ℕ) (low high : ℕ)
    (m : Memory) : Type 0 where
  pub at : (i : ℕ) → i < left → i ≤ length cs → tr (src + i) ≡ some (place i)
  pub byte : (i : ℕ) → i < left → i ≤ length cs → m (place i) ≡ get_or cs i 0
  pub apart : (i : ℕ) → i < left → i ≤ length cs → (place i < low) ⊎ (high < place i)

-- The bytes of the target lie one behind the other.
abbrev pub IsTarget : (ℕ → Option ℕ) → ℕ → ℕ → ℕ → Type 0
IsTarget tr dest base left = (i : ℕ) → i ≤ left → tr (dest + i) ≡ some (base + i)

-- What is written: the text, cut to `left` bytes, and a terminator.
abbrev pub copied : ℕ → List ℕ → List ℕ
copied left cs = take left cs ++ (0 ∷ [])

pub record IsCopied (base : ℕ) (bytes : List ℕ) (high : ℕ) (m m' : Memory) : Type 0 where
  pub written : (i : ℕ) → i < length bytes → m' (base + i) ≡ get_or bytes i 0
  pub kept : (q : ℕ) → (q < base) ⊎ (high < q) → m' q ≡ m q

ends :
    (base high : ℕ) (m : Memory) → base ≤ high → IsCopied base (0 ∷ []) high m (write m base 0x00)
ends base high m h = record {
  written = elim [
    | zero ↦ λ l. write_self m base (base + 0) 0 (omega arith)
    | suc i ↦ λ l. absurd (omega arith)
  ];
  kept = λ q o.
      write_ne m base q 0
        (elim o [ inl a ↦ λ e. omega (arith, a, e) | inr a ↦ λ e. omega (arith, a, e) ]);
}

step_end :
    (left : ℕ) (tr : ℕ → Option ℕ) (dest src base p : ℕ) (m : Memory)
    → tr dest ≡ some base
    → tr src ≡ some p
    → m p ≡ 0
    → strncpy_at tr (suc left) dest src m ≡ some (write m base 0x00)
unfolding strncpy_at
step_end left tr dest src base p m d s z = rw (s, strncpy_at) (if_eq (m p) 0 _ _ z ∙ rw d refl)

step_on :
    (left : ℕ) (tr : ℕ → Option ℕ) (dest src base p : ℕ) (m : Memory)
    → tr dest ≡ some base
    → tr src ≡ some p
    → m p ≢ 0
    → strncpy_at tr (suc left) dest src m
      ≡ strncpy_at tr left (u32 (dest + 1)) (u32 (src + 1)) (write m base (m p))
unfolding strncpy_at
step_on left tr dest src base p m d s z = rw (s, strncpy_at) (if_ne (m p) 0 _ _ z ∙ rw d refl)

module _ (left c : ℕ) (cs : List ℕ) (tr : ℕ → Option ℕ) (dest src base : ℕ) (place : ℕ → ℕ)
    (m : Memory) where
  next-IsTarget : IsTarget tr dest base (suc left) → IsTarget tr (dest + 1) (base + 1) left
  next-IsTarget g i h = ap tr (omega arith) ∙ g (i + 1) (omega arith) ∙ ap some (omega arith)

  next-IsSource :
      IsSource tr src (suc left) (c ∷ cs) place base (base + suc left) m
      → IsSource tr
          (src + 1)
          left
          cs
          (λ i. place (suc i))
          (base + 1)
          (base + 1 + left)
          (write m base c)
  next-IsSource v = record {
    at = λ i h k. ap tr (omega arith) ∙ v.at (suc i) (omega arith) (omega arith);
    byte = λ i h k.
        write_ne m base (place (suc i)) c (elim (v.apart (suc i) (omega arith) (omega arith)) [
          | inl a ↦ λ e. omega (arith, a, e)
          | inr a ↦ λ e. omega (arith, a, e)
        ])
        ∙ v.byte (suc i) (omega arith) (omega arith);
    apart = λ i h k. elim (v.apart (suc i) (omega arith) (omega arith)) [
      | inl a ↦ inl (omega arith)
      | inr a ↦ inr (omega arith)
    ];
  }

  joined :
      (bytes : List ℕ) (m' : Memory)
      → IsCopied (base + 1) bytes (base + 1 + left) (write m base c) m'
      → IsCopied base (c ∷ bytes) (base + suc left) m m'
  joined bytes m' r = record {
    written = elim [
      | zero ↦
          λ l. r.kept (base + 0) (inl (omega arith)) ∙ write_self m base (base + 0) c (omega arith)
      | suc i ↦ λ l. ap m' (omega arith) ∙ r.written i (omega arith)
    ];
    kept = λ q o. elim o [
      | inl a ↦ r.kept q (inl (omega arith)) ∙ write_ne m base q c (λ e. omega (arith, a, e))
      | inr a ↦ r.kept q (inr (omega arith)) ∙ write_ne m base q c (λ e. omega (arith, a, e))
    ];
  }

first : (tr : ℕ → Option ℕ) (dest base left : ℕ) → IsTarget tr dest base left → tr dest ≡ some base
first tr dest base left g = ap tr (omega arith) ∙ g 0 (omega arith) ∙ ap some (omega arith)

pub strncpy_at-IsCopied :
    (left : ℕ) (cs : List ℕ) (tr : ℕ → Option ℕ) (dest src base : ℕ) (place : ℕ → ℕ) (m : Memory)
    → IsText cs
    → dest + left < 2 ^ 32
    → src + left < 2 ^ 32
    → IsTarget tr dest base left
    → IsSource tr src left cs place base (base + left) m
    → (m' : Memory) × (strncpy_at tr left dest src m ≡ some m')
      × IsCopied base (copied left cs) (base + left) m m'
unfolding strncpy_at IsText
strncpy_at-IsCopied zero cs tr dest src base place m t hd hs g v =
    (write m base 0, rw (first tr dest base 0 g) refl, ends base (base + 0) m (omega arith))
strncpy_at-IsCopied (suc left) [] tr dest src base place m t hd hs g v = (
  write m base 0,
  step_end left tr dest src base (place 0) m (first tr dest base (suc left) g)
      (ap tr (omega arith) ∙ v.at 0 (omega arith) (omega arith))
      (v.byte 0 (omega arith) (omega arith)),
  ends base (base + suc left) m (omega arith),
)
strncpy_at-IsCopied (suc left) (c ∷ cs) tr dest src base place m t hd hs g v =
    let b = v.byte 0 (omega arith) (omega arith) in
    let (m', run, r) =
      strncpy_at-IsCopied left cs tr (dest + 1) (src + 1) (base + 1) (λ i. place (suc i))
        (write m base c) t.1 (omega arith) (omega arith)
        (next-IsTarget left c cs tr dest src base place m g)
        (next-IsSource left c cs tr dest src base place m v) in
    let d : u32 (dest + 1) ≡ dest + 1 = omega arith in
    let s : u32 (src + 1) ≡ src + 1 = omega arith in
    (
      m',
      step_on left tr dest src base (place 0) m (first tr dest base (suc left) g)
            (ap tr (omega arith) ∙ v.at 0 (omega arith) (omega arith)) (λ e. t.0 (sym b ∙ e))
          ∙ ap (λ x. strncpy_at tr left (u32 (dest + 1)) (u32 (src + 1)) (write m base x)) b
          ∙ ap₂ (λ x y. strncpy_at tr left x y (write m base c)) d s
          ∙ run,
      joined left c cs tr dest src base place m (copied left cs) m' r,
    )
