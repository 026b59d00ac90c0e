-- ===== src/Common/Bits.antt =====
-- `&` and `|` as arithmetic: an `&` with shifted ones is taken on the shifted number, and an `|` of
-- fields that do not overlap is a sum.
use Prim.Native.Nat.{
  ℕ, zero, suc, ◌+◌, ◌-◌, ◌*◌, ◌/◌, ◌%◌, ◌^◌, ◌≤◌, ◌<◌, min, max, bit_and, bit_or, digits,
  bit_and-bitwise, bit_or-bitwise,
}
use mathlib.Core.Path.{◌≡◌, refl, ap, ap₂, ◌∙◌, sym}
use native.Mathlib.Nat.{pow-suc, div-add-mod', mod-lt, one-le-pow, div-div-eq-div-mul}
use native.Mathlib.Decide.{dec_lt}
use native.Mathlib.Omega.{arith}

-- Both operations fold the binary digits of their first argument, on fuel.
module _ (z : ℕ → ℕ) (f : ℕ → ℕ → ℕ) where
  fuel_enough : (n m a b : ℕ) → a ≤ n → a ≤ m → digits z f n a b ≡ digits z f m a b
  fuel_enough zero zero zero b p q = refl
  fuel_enough zero (suc m) zero b p q = refl
  fuel_enough zero m (suc a) b p q = absurd (omega arith)
  fuel_enough (suc n) zero zero b p q = refl
  fuel_enough (suc n) (suc m) zero b p q = refl
  fuel_enough (suc n) zero (suc a) b p q = absurd (omega arith)
  fuel_enough (suc n) (suc m) (suc a) b p q =
      let half = fuel_enough n m (suc a / 2) (b / 2) (omega arith) (omega arith) in
      omega (arith, half)

halve_and : (a b : ℕ) → bit_and a b ≡ bit_and (a / 2) (b / 2) * 2 + min (a % 2) (b % 2)
halve_and zero b = omega (arith, bit_and-bitwise 0 b, bit_and-bitwise 0 (b / 2))
halve_and (suc a) b = omega (
  arith,
  bit_and-bitwise (suc a) b,
  bit_and-bitwise (suc a / 2) (b / 2),
  fuel_enough (λ x. 0) min a (suc a / 2) (suc a / 2) (b / 2) (omega arith) (omega arith),
)

halve_or : (a b : ℕ) → bit_or a b ≡ bit_or (a / 2) (b / 2) * 2 + max (a % 2) (b % 2)
halve_or zero b = omega (arith, bit_or-bitwise 0 b, bit_or-bitwise 0 (b / 2))
halve_or (suc a) b = omega (
  arith,
  bit_or-bitwise (suc a) b,
  bit_or-bitwise (suc a / 2) (b / 2),
  fuel_enough (λ x. x) max a (suc a / 2) (suc a / 2) (b / 2) (omega arith) (omega arith),
)

and-zero_fuel : (n a : ℕ) → a ≤ n → bit_and a 0 ≡ 0
and-zero_fuel zero zero h = refl
and-zero_fuel zero (suc a) h = absurd (omega arith)
and-zero_fuel (suc n) a h = elim (dec_lt 0 a) [
  | yes p ↦ omega (arith, halve_and a 0, and-zero_fuel n (a / 2) (omega arith))
  | no p ↦ let none_left : a ≡ 0 = omega arith in rw none_left
]

or-zero_fuel : (n a : ℕ) → a ≤ n → bit_or a 0 ≡ a
or-zero_fuel zero zero h = refl
or-zero_fuel zero (suc a) h = absurd (omega arith)
or-zero_fuel (suc n) a h = elim (dec_lt 0 a) [
  | yes p ↦ omega (arith, halve_or a 0, or-zero_fuel n (a / 2) (omega arith))
  | no p ↦ let none_left : a ≡ 0 = omega arith in rw none_left
]

zero-or_fuel : (n a : ℕ) → a ≤ n → bit_or 0 a ≡ a
zero-or_fuel zero zero h = refl
zero-or_fuel zero (suc a) h = absurd (omega arith)
zero-or_fuel (suc n) a h = elim (dec_lt 0 a) [
  | yes p ↦ omega (arith, halve_or 0 a, zero-or_fuel n (a / 2) (omega arith))
  | no p ↦ let none_left : a ≡ 0 = omega arith in rw none_left
]

pub bit_and-zero : (a : ℕ) → bit_and a 0 ≡ 0
bit_and-zero a = and-zero_fuel a a (omega arith)

pub zero-bit_or : (a : ℕ) → bit_or 0 a ≡ a
zero-bit_or a = zero-or_fuel a a (omega arith)

pub bit_or-zero : (a : ℕ) → bit_or a 0 ≡ a
bit_or-zero a = or-zero_fuel a a (omega arith)

times-pow-suc : (q k : ℕ) → q * 2 ^ suc k ≡ 2 * (q * 2 ^ k)
times-pow-suc q k = omega (arith, ap (λ (t : ℕ). q * t) (pow-suc 2 k))

and_shifted : (k q r m : ℕ) → r < 2 ^ k → bit_and (q * 2 ^ k + r) (m * 2 ^ k) ≡ bit_and q m * 2 ^ k
and_shifted zero q r m h =
    let e : q * 1 + r ≡ q = omega arith in
    let f : m * 1 ≡ m = omega arith in rw (e, f) (omega arith)
and_shifted (suc k) q r m h =
    let e : (q * 2 ^ suc k + r) / 2 ≡ q * 2 ^ k + r / 2 = omega (arith, times-pow-suc q k) in
    let f : (m * 2 ^ suc k) / 2 ≡ m * 2 ^ k = omega (arith, times-pow-suc m k) in
    omega (
      arith,
      halve_and (q * 2 ^ suc k + r) (m * 2 ^ suc k),
      ap₂ bit_and e f,
      and_shifted k q (r / 2) m (omega (arith, pow-suc 2 k)),
      times-pow-suc m k,
      times-pow-suc (bit_and q m) k,
    )

-- A mask that ends in `k` zeros sees the number shifted by `k`.
pub bit_and_shift : (k a m : ℕ) → bit_and a (m * 2 ^ k) ≡ bit_and (a / 2 ^ k) m * 2 ^ k
bit_and_shift k a m =
    ap (λ t. bit_and t (m * 2 ^ k)) (sym (div-add-mod' a (2 ^ k)))
    ∙ and_shifted k (a / 2 ^ k) (a % 2 ^ k) m (mod-lt a (one-le-pow k 2 (omega arith)))

and_low : (k q r : ℕ) → r < 2 ^ k → bit_and (q * 2 ^ k + r) (2 ^ k - 1) ≡ r
and_low zero q r h = let e : r ≡ 0 = omega arith in rw e (bit_and-zero _)
and_low (suc k) q r h =
    let e : (q * 2 ^ suc k + r) / 2 ≡ q * 2 ^ k + r / 2 = omega (arith, times-pow-suc q k) in
    let f : (2 ^ suc k - 1) / 2 ≡ 2 ^ k - 1 = omega (arith, pow-suc 2 k) in
    omega (
      arith,
      halve_and (q * 2 ^ suc k + r) (2 ^ suc k - 1),
      ap₂ bit_and e f,
      and_low k q (r / 2) (omega (arith, pow-suc 2 k)),
      times-pow-suc q k,
      pow-suc 2 k,
      one-le-pow k 2 (omega arith),
    )

-- A mask of `k` ones is the remainder.
pub bit_and_mask : (k a : ℕ) → bit_and a (2 ^ k - 1) ≡ a % 2 ^ k
bit_and_mask k a =
    ap (λ t. bit_and t (2 ^ k - 1)) (sym (div-add-mod' a (2 ^ k)))
    ∙ and_low k (a / 2 ^ k) (a % 2 ^ k) (mod-lt a (one-le-pow k 2 (omega arith)))

-- Fields that do not overlap.
pub bit_or_fields : (k q r : ℕ) → r < 2 ^ k → bit_or (q * 2 ^ k) r ≡ q * 2 ^ k + r
bit_or_fields zero q r h = let e : r ≡ 0 = omega arith in rw e (bit_or-zero _ ∙ omega arith)
bit_or_fields (suc k) q r h =
    let e : (q * 2 ^ suc k) / 2 ≡ q * 2 ^ k = omega (arith, times-pow-suc q k) in
    omega (
      arith,
      halve_or (q * 2 ^ suc k) r,
      ap (λ t. bit_or t (r / 2)) e,
      bit_or_fields k q (r / 2) (omega (arith, pow-suc 2 k)),
      times-pow-suc q k,
    )

div_pow-suc : (k n : ℕ) → n / 2 ^ suc k ≡ n / 2 / 2 ^ k
div_pow-suc k n =
    let e : 2 ^ suc k ≡ 2 * 2 ^ k = omega (arith, pow-suc 2 k) in
    ap (λ t. n / t) e ∙ sym (div-div-eq-div-mul n 2 (2 ^ k))

-- An `|` with a number of `k` bits keeps the bits above.
pub bit_or_high : (k a b : ℕ) → b < 2 ^ k → bit_or a b / 2 ^ k ≡ a / 2 ^ k
bit_or_high zero a b h = let e : b ≡ 0 = omega arith in rw e (ap (λ t. t / 1) (bit_or-zero a))
bit_or_high (suc k) a b h =
    let half : bit_or a b / 2 ≡ bit_or (a / 2) (b / 2) = omega (arith, halve_or a b) in
    div_pow-suc k (bit_or a b)
    ∙ ap (λ t. t / 2 ^ k) half
    ∙ bit_or_high k (a / 2) (b / 2) (omega (arith, pow-suc 2 k))
    ∙ sym (div_pow-suc k a)
