-- ===== src/Memory/Laws.antt =====
-- What the block operations do to each byte.
use maer_os.Common.{
  ℕ, zero, suc, ◌+◌, ◌-◌, ◌^◌, ◌≤◌, ◌<◌, ◌≡◌, refl, ◌∙◌, ◌⊎◌, inl, ◌↔◌, arith, u32, u8, pos, ap,
  ℕ_discrete, ◌≢◌, sym,
}
use native.Mathlib.Nat.{add-zero}
use maer_os.Memory.{Memory, write, memset_loop, memset, memcmp, memcpy}

pub write_self : (m : Memory) (p q v : ℕ) → q ≡ p → write m p v q ≡ v
write_self m p q v e = ground arith

pub write_ne : (m : Memory) (p q v : ℕ) → q ≢ p → write m p v q ≡ m q
write_ne m p q v e = ground arith

u32_of_lt : (n : ℕ) → n < 2 ^ 32 → u32 n ≡ n
u32_of_lt n h = omega arith

memset_loop-inside :
    (left i ptr c q : ℕ) (m : Memory)
    → ptr + i + left ≤ 2 ^ 32
    → ((q < ptr + i) ⊎ (ptr + i + left ≤ q) → memset_loop left i ptr c m q ≡ m q)
      × (ptr + i ≤ q → q < ptr + i + left → memset_loop left i ptr c m q ≡ u8 c)
unfolding memset_loop
memset_loop-inside zero i ptr c q m h = (λ out. refl, λ p r. absurd (omega arith))
memset_loop-inside (suc left) i ptr c q m h =
    let ih =
      memset_loop-inside left (i + 1) ptr c q (write m (u32 (ptr + i)) (u8 c)) (omega arith) in
    (λ out. ground (arith, ih.0, out), λ p r. ground (arith, ih.0, ih.1))

-- `memset` sets each byte of the region to the low byte of `c`, and leaves every other as it was,
-- if the region does not run past the end of the address space.
pub memset_lem :
    (ptr c size q : ℕ) (m : Memory)
    → ptr + size ≤ 2 ^ 32
    → ((q < ptr) ⊎ (ptr + size ≤ q) → memset ptr c size m q ≡ m q)
      × (ptr ≤ q → q < ptr + size → memset ptr c size m q ≡ u8 c)
unfolding memset
memset_lem ptr c size q m h =
    let l = memset_loop-inside size 0 ptr c q m (omega arith) in
    (λ out. l.0 (omega (arith, out)), λ p r. l.1 (omega arith) (omega arith))

-- A forward copy is right when the regions are apart or the target starts below the source: each
-- byte of the target is the source's byte from before, and no other byte changes.
pub memcpy_lem :
    (len dest src q : ℕ) (m : Memory)
    → dest + len < 2 ^ 32
    → src + len < 2 ^ 32
    → (dest ≤ src) ⊎ (src + len ≤ dest)
    → ((q < dest) ⊎ (dest + len ≤ q) → memcpy dest src len m q ≡ m q)
      × (dest ≤ q → q < dest + len → memcpy dest src len m q ≡ m (src + (q - dest)))
unfolding memcpy
memcpy_lem zero dest src q m a b h = (λ out. refl, λ p r. absurd (omega arith))
memcpy_lem (suc len) dest src q m a b h =
    let m' = write m dest (m src) in
    let ih =
      memcpy_lem len (dest + 1) (src + 1) q m' (omega arith) (omega arith) (omega (arith, h)) in
    rw (u32_of_lt (dest + 1) (omega arith), u32_of_lt (src + 1) (omega arith))
      (
        λ out. ih.0 (omega (arith, out)) ∙ write_ne m dest q (m src) (omega (arith, out)),
        λ p r. elim (ℕ_discrete q dest) [
          | yes e ↦ ih.0 (inl (omega arith)) ∙ write_self m dest q (m src) e ∙ ap m (omega arith)
          | no e ↦
              ih.1 (omega arith) (omega arith)
              ∙ write_ne m dest _ (m src) (omega (arith, h))
              ∙ ap m (omega arith)
        ],
      )

bytes_cons :
    (m : Memory) (s1 s2 count : ℕ)
    → m s1 ≡ m s2
    → ((i : ℕ) → i < count → m (s1 + 1 + i) ≡ m (s2 + 1 + i))
    → (i : ℕ) → i < suc count
    → m (s1 + i) ≡ m (s2 + i)
bytes_cons m s1 s2 count e h zero p = rw (add-zero s1, add-zero s2) e
bytes_cons m s1 s2 count e h (suc i) p = ap m (omega arith) ∙ h i (omega arith) ∙ ap m (omega arith)

bytes_tail :
    (m : Memory) (s1 s2 count : ℕ)
    → ((i : ℕ) → i < suc count → m (s1 + i) ≡ m (s2 + i))
    → (i : ℕ) → i < count
    → m (s1 + 1 + i) ≡ m (s2 + 1 + i)
bytes_tail m s1 s2 count h i p = ap m (omega arith) ∙ h (suc i) (omega arith) ∙ ap m (omega arith)

bytes_head :
    (m : Memory) (s1 s2 count : ℕ)
    → ((i : ℕ) → i < suc count → m (s1 + i) ≡ m (s2 + i))
    → m s1 ≡ m s2
bytes_head m s1 s2 count h = ap m (omega arith) ∙ h 0 (omega arith) ∙ ap m (omega arith)

memcmp_eq :
    (count s1 s2 : ℕ) (m : Memory)
    → m s1 ≡ m s2
    → memcmp s1 s2 (suc count) m ≡ memcmp (u32 (s1 + 1)) (u32 (s2 + 1)) count m
unfolding memcmp
memcmp_eq count s1 s2 m e = ground arith

memcmp-zero-head : (count s1 s2 : ℕ) (m : Memory) → memcmp s1 s2 (suc count) m ≡ pos 0 → m s1 ≡ m s2
unfolding memcmp
memcmp-zero-head count s1 s2 m e = ground arith

-- `memcmp` is 0 exactly when the two regions hold the same bytes.
pub memcmp-zero_iff :
    (count s1 s2 : ℕ) (m : Memory)
    → s1 + count < 2 ^ 32
    → s2 + count < 2 ^ 32
    → (memcmp s1 s2 count m ≡ pos 0) ↔ ((i : ℕ) → i < count → m (s1 + i) ≡ m (s2 + i))
memcmp-zero_iff zero s1 s2 m a b = (λ e i h. absurd (omega arith), λ h. unfold memcmp in refl)
memcmp-zero_iff (suc count) s1 s2 m a b =
    let ih = memcmp-zero_iff count (u32 (s1 + 1)) (u32 (s2 + 1)) m (omega arith) (omega arith) in
    let e1 = u32_of_lt (s1 + 1) (omega arith) in
    let e2 = u32_of_lt (s2 + 1) (omega arith) in
    (
      λ e.
          let same = memcmp-zero-head count s1 s2 m e in
          bytes_cons m s1 s2 count same
            (rw (e1, e2) at (ih.0 (sym (memcmp_eq count s1 s2 m same) ∙ e))),
      λ h.
          memcmp_eq count s1 s2 m (bytes_head m s1 s2 count h)
          ∙ ih.1 (rw (e1, e2) (bytes_tail m s1 s2 count h)),
    )
