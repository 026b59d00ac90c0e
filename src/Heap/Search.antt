-- ===== src/Heap/Search.antt =====
-- `heap_get_start_block`: which run of free blocks it returns.
use maer_os.Common.{
  ℕ, zero, suc, ◌+◌, ◌-◌, ◌≤◌, ◌<◌, ◌≡◌, refl, ◌⊎◌, inl, inr, Option, none, some, List, arith, ◌==◌,
  get_or, Bool-cases, dec_le, ℕ_discrete, ==_iff, ap,
}
use maer_os.Heap.{
  HeapTable, entry_free, heap_get_entry_type, run_start, start_loop, heap_get_start_block,
}

-- Block `j` is free, by the test of the code.
abbrev pub IsFree : List ℕ → ℕ → Type 0
IsFree entries j = heap_get_entry_type (get_or entries j 0) ≡ 0

-- The `n` blocks from `s` on lie in the first `total` entries and are free.
pub record Fits (entries : List ℕ) (total n s : ℕ) : Type 0 where
  pub inside : s + n ≤ total
  pub free : (j : ℕ) → s ≤ j → j < s + n → IsFree entries j

-- What the search returns: the first run that fits, or else the start of the free run that ends
-- the table, however short, or nothing.
pub data Found (entries : List ℕ) (total n : ℕ) (r : Option ℕ) : Type 0 where
  fit :
      (s : ℕ)
      → r ≡ some s
      → Fits entries total n s
      → ((t : ℕ) → t < s → ¬ Fits entries total n t)
      → Found entries total n r
  short :
      (s : ℕ)
      → r ≡ some s
      → s < total
      → total < s + n
      → ((t : ℕ) → ¬ Fits entries total n t)
      → ((j : ℕ) → s ≤ j → j < total → IsFree entries j)
      → Found entries total n r
  full :
      r ≡ none
      → ((t : ℕ) → ¬ Fits entries total n t)
      → ((j : ℕ) → j + 1 ≡ total → ¬ IsFree entries j)
      → Found entries total n r

-- The variables of the loop at index `i`.
record Scanning (entries : List ℕ) (n i cur : ℕ) (start : Option ℕ) : Type 0 where
  below : cur < n
  within : cur ≤ i
  started : ((cur ≡ 0) × (start ≡ none)) ⊎ ((0 < cur) × (start ≡ some (i - cur)))
  run : (j : ℕ) → i ≤ j + cur → j < i → IsFree entries j
  blocked : (j : ℕ) → j + cur + 1 ≡ i → ¬ IsFree entries j
  none_before : (t : ℕ) → t + n ≤ i → ¬ Fits entries i n t

module _ (entries : List ℕ) (n : ℕ) where
  Fits-less : {i k s : ℕ} → s + n ≤ i → Fits entries k n s → Fits entries i n s
  Fits-less h f = record { inside = h; free = f.free }

  start_of :
      {i cur : ℕ} {start : Option ℕ} → Scanning entries n i cur start → run_start start i ≡ i - cur
  start_of {i} sc = ground (arith, sc.started)

  no_fit_later :
      {i cur t : ℕ} {start : Option ℕ}
      → Scanning entries n i cur start
      → cur + 1 < n
      → ¬ Fits entries (i + 1) n t
  no_fit_later {i} {cur} {t} sc h f = elim (dec_le (t + n) i) [
    | yes p ↦ sc.none_before t p (Fits-less p f)
    | no p ↦
        sc.blocked (i - cur - 1) (omega (arith, sc.within, f.inside))
          (f.free (i - cur - 1) (omega (arith, f.inside)) (omega (arith, f.inside)))
  ]

  no_fit_taken :
      {i cur t : ℕ} {start : Option ℕ}
      → Scanning entries n i cur start
      → ¬ IsFree entries i
      → ¬ Fits entries (i + 1) n t
  no_fit_taken {i} {cur} {t} sc h f = elim (dec_le (t + n) i) [
    | yes p ↦ sc.none_before t p (Fits-less p f)
    | no p ↦ h (f.free i (omega (arith, f.inside, sc.below)) (omega (arith, f.inside)))
  ]

  extend :
      {i cur : ℕ} {start : Option ℕ}
      → Scanning entries n i cur start
      → IsFree entries i
      → cur + 1 < n
      → Scanning entries n (i + 1) (cur + 1) (some (run_start start i))
  extend {i} {cur} sc e h = record {
    below = h;
    within = omega (arith, sc.within);
    started = inr (omega arith, ground (arith, start_of sc, sc.within));
    run = λ j p q. elim (ℕ_discrete j i) [
      | yes same ↦ rw same e
      | no other ↦ sc.run j (omega arith) (omega arith)
    ];
    blocked = λ j p. sc.blocked j (omega arith);
    none_before = λ t p. no_fit_later sc h;
  }

  restart :
      {i cur : ℕ} {start : Option ℕ}
      → Scanning entries n i cur start
      → ¬ IsFree entries i
      → Scanning entries n (i + 1) 0 none
  restart {i} {cur} sc h = record {
    below = omega (arith, sc.below);
    within = omega arith;
    started = inl (refl, refl);
    run = λ j p q. absurd (omega arith);
    blocked = λ j p. let same : j ≡ i = omega arith in rw same h;
    none_before = λ t p. no_fit_taken sc h;
  }

  loop_end :
      {i cur total : ℕ} {start : Option ℕ}
      → i ≡ total
      → Scanning entries n i cur start
      → Found entries total n start
  loop_end {i} {cur} {total} e sc = elim sc.started [
    | inl p ↦ full p.1 nowhere (λ j q. sc.blocked j (omega (arith, p.0)))
    | inr p ↦
        short (i - cur) p.1 (omega (arith, sc.within)) (omega (arith, sc.within, sc.below)) nowhere
          (λ j q r. sc.run j (omega arith) (omega arith))
  ]
    where
      nowhere : (t : ℕ) → ¬ Fits entries total n t
      nowhere t f =
          sc.none_before t (omega (arith, f.inside)) (Fits-less (omega (arith, f.inside)) f)

  filled :
      {i cur total : ℕ} {start : Option ℕ}
      → i < total
      → Scanning entries n i cur start
      → IsFree entries i
      → cur + 1 ≡ n
      → Found entries total n (some (run_start start i))
  filled {i} {cur} lt sc e last =
      fit (i - cur) (ap some (start_of sc))
        (record {
          inside = omega (arith, sc.within);
          free = λ j p q. elim (ℕ_discrete j i) [
            | yes same ↦ rw same e
            | no other ↦ sc.run j (omega (arith, sc.within)) (omega (arith, sc.within))
          ];
        })
        (λ t p f.
          sc.none_before t (omega (arith, sc.within)) (Fits-less (omega (arith, sc.within)) f))

  start_loop-Found :
      (left i cur : ℕ) (start : Option ℕ) {total : ℕ}
      → i + left ≡ total
      → Scanning entries n i cur start
      → Found entries total n (start_loop entries n left i cur start)
  unfolding start_loop
  start_loop-Found zero i cur start e sc = loop_end (omega arith) sc
  start_loop-Found (suc left) i cur start e sc =
      elim (Bool-cases (heap_get_entry_type (get_or entries i 0) == entry_free)) [
        | inr taken ↦
            rw (taken, start_loop)
              (start_loop-Found left (i + 1) 0 none (omega arith) (restart sc (λ q. ground arith)))
        | inl free ↦ elim (Bool-cases (cur + 1 == n)) [
          | inl last ↦
              rw (free, last, start_loop)
                (filled (omega arith) sc ((==_iff _ 0).0 free) ((==_iff _ n).0 last))
          | inr more ↦
              rw (free, more, start_loop)
                (start_loop-Found left (i + 1) (cur + 1) (some (run_start start i)) (omega arith)
                  (extend sc ((==_iff _ 0).0 free) (ground (arith, sc.below))))
        ]
      ]

  begin : 0 < n → Scanning entries n 0 0 none
  begin h = record {
    below = h;
    within = omega arith;
    started = inl (refl, refl);
    run = λ j p q. absurd (omega arith);
    blocked = λ j p. absurd (omega arith);
    none_before = λ t p f. absurd (omega arith);
  }

-- For a request of at least one block, the search returns the first run of free blocks that is
-- long enough; if there is none, it returns the start of the free run that ends the table, although
-- it is too short, or nothing when the last block is taken.
pub heap_get_start_block-Found :
    (table : HeapTable) (n : ℕ)
    → 0 < n
    → Found table.entries table.total n (heap_get_start_block table n)
unfolding heap_get_start_block
heap_get_start_block-Found table n h =
    start_loop-Found table.entries n table.total 0 0 none (omega arith) (begin table.entries n h)
