-- ===== src/Heap/Alloc.antt =====
-- `heap_malloc` and `heap_free` on a well-formed heap.
use maer_os.Common.{
  ℕ, suc, ◌+◌, ◌-◌, ◌*◌, ◌^◌, ◌≤◌, ◌<◌, ◌≡◌, ◌∙◌, ap, sym, subst, true, false, none, some, List,
  ◌∷◌, ◌++◌, arith, length, take, drop, replicate, length-take, length-replicate, length-append,
  length-drop,
}
use maer_os.Heap.{
  Heap, with_entries, block_size, heap_get_start_block, heap_block_to_address,
  heap_mark_blocks_taken, heap_malloc_blocks, free_loop,
}
use maer_os.Heap.Search.{IsFree, Fits, fit, short, full, heap_get_start_block-Found}
use maer_os.Heap.Blocks.{
  block, length-block, heap_mark_blocks_taken-append, heap_mark_blocks_taken_overrun,
  free_loop-append,
}
use maer_os.Heap.Table.{chained, free-eq-zero, zeros_cut, chained_reserve}

-- The heaps that the kernel works with: the table's array has `total` entries and holds whole
-- allocations, and the pool lies in the upper part of the address space and below 2 GB in size.
pub record IsHeap (h : Heap) : Type 0 where
  pub sized : length h.table.entries ≡ h.table.total
  pub blocks : chained false h.table.entries ≡ true
  pub based : 0 < h.saddr
  pub mapped : h.saddr + h.table.total * block_size ≤ 2 ^ 32
  pub small : h.table.total * block_size ≤ 2 ^ 31

-- The table with `n` blocks from `s` on made one allocation.
abbrev pub reserved : ℕ → ℕ → List ℕ → List ℕ
reserved s n es = take s es ++ (block n ++ drop n (drop s es))

mark_zeros :
    (n s : ℕ) (pre post : List ℕ)
    → length pre ≡ s
    → heap_mark_blocks_taken s (suc n) (pre ++ (replicate (suc n) 0 ++ post))
      ≡ some (pre ++ (block (suc n) ++ post))
mark_zeros n s pre post e = rw (← e) (
    subst
      (λ k.
        heap_mark_blocks_taken (length pre) (suc k) (pre ++ (0 ∷ (replicate n 0 ++ post)))
        ≡ some (pre ++ (block (suc k) ++ post)))
      (length-replicate n 0) (heap_mark_blocks_taken-append (replicate n 0) pre post 0))

module _ {h : Heap} (v : IsHeap h) where
  cut :
      {s n : ℕ}
      → Fits h.table.entries h.table.total n s
      → h.table.entries
        ≡ take s h.table.entries ++ (replicate n 0 ++ drop n (drop s h.table.entries))
  cut {s} {n} f =
      zeros_cut s n h.table.entries (omega (arith, f.inside, v.sized))
        (λ j p q. free-eq-zero h.table.entries false j v.blocks (f.free j p q))

  length_before :
      {s n : ℕ} → Fits h.table.entries h.table.total n s → length (take s h.table.entries) ≡ s
  length_before {s} f = omega (arith, length-take s h.table.entries, f.inside, v.sized)

  mark_fit :
      {s n : ℕ}
      → Fits h.table.entries h.table.total (suc n) s
      → heap_mark_blocks_taken s (suc n) h.table.entries ≡ some (reserved s (suc n) h.table.entries)
  mark_fit {s} {n} f =
      ap (heap_mark_blocks_taken s (suc n)) (cut f)
      ∙ mark_zeros n s (take s h.table.entries) (drop (suc n) (drop s h.table.entries))
          (length_before f)

  pub free_fit :
      {s n : ℕ}
      → Fits h.table.entries h.table.total (suc n) s
      → free_loop (h.table.total - s) s (reserved s (suc n) h.table.entries) ≡ some h.table.entries
  free_fit {s} {n} f =
      ap (λ i. free_loop (h.table.total - s) i (reserved s (suc n) h.table.entries))
        (sym (length_before f))
      ∙ free_loop-append n (h.table.total - s) (take s h.table.entries)
          (drop (suc n) (drop s h.table.entries)) (omega (arith, f.inside))
      ∙ ap some (sym (cut f))

  reserved-chained :
      {s n : ℕ}
      → Fits h.table.entries h.table.total (suc n) s
      → chained false (reserved s (suc n) h.table.entries) ≡ true
  reserved-chained {s} {n} f =
      chained_reserve n (take s h.table.entries) (drop (suc n) (drop s h.table.entries))
        (rw (← cut f) v.blocks)

  length-reserved :
      {s n : ℕ}
      → Fits h.table.entries h.table.total (suc n) s
      → length (reserved s (suc n) h.table.entries) ≡ length h.table.entries
  length-reserved {s} {n} f = omega (
    arith,
    length-append (take s h.table.entries) (block (suc n) ++ drop (suc n) (drop s h.table.entries)),
    length-append (block (suc n)) (drop (suc n) (drop s h.table.entries)),
    length-block n,
    length-take s h.table.entries,
    length-drop (suc n) (drop s h.table.entries),
    length-drop s h.table.entries,
    f.inside,
    v.sized,
  )

  reserved-IsHeap :
      {s n : ℕ}
      → Fits h.table.entries h.table.total (suc n) s
      → IsHeap (with_entries h (reserved s (suc n) h.table.entries))
  reserved-IsHeap f = record {
    sized = length-reserved f ∙ v.sized;
    blocks = reserved-chained f;
    based = v.based;
    mapped = v.mapped;
    small = v.small;
  }

-- What a successful reservation of `n` blocks gives: the first run that fits is handed out by its
-- address, it becomes one allocation, and the rest of the table is left as it was.
pub record Reserves (h : Heap) (n s : ℕ) : Type 0 where
  pub fits : Fits h.table.entries h.table.total n s
  pub first : (t : ℕ) → t < s → ¬ Fits h.table.entries h.table.total n t
  pub returns :
      heap_malloc_blocks h n
      ≡ some (h.saddr + s * block_size, with_entries h (reserved s n h.table.entries))
  pub valid : IsHeap (with_entries h (reserved s n h.table.entries))

module _ {h : Heap} (v : IsHeap h) (n : ℕ) where
  address-lt : {s : ℕ} → s < h.table.total → heap_block_to_address h s ≡ h.saddr + s * block_size
  unfolding heap_block_to_address
  address-lt p = omega (arith, v.mapped)

  found-Reserves :
      (s : ℕ)
      → heap_get_start_block h.table (suc n) ≡ some s
      → Fits h.table.entries h.table.total (suc n) s
      → ((t : ℕ) → t < s → ¬ Fits h.table.entries h.table.total (suc n) t)
      → Reserves h (suc n) s
  unfolding heap_malloc_blocks
  found-Reserves s e f least = record {
    fits = f;
    first = least;
    returns =
        rw (e, mark_fit v f, address-lt {s = s} (omega (arith, f.inside)), heap_malloc_blocks);
    valid = reserved-IsHeap v f;
  }

  -- If some run of `n + 1` free blocks exists, `heap_malloc_blocks` reserves the first one, at its
  -- address, and the heap stays well-formed.
  pub heap_malloc_blocks-Reserves :
      (t : ℕ) → Fits h.table.entries h.table.total (suc n) t → (s : ℕ) × Reserves h (suc n) s
  heap_malloc_blocks-Reserves t f =
      elim (heap_get_start_block-Found h.table (suc n) (omega arith)) [
        | fit s e g least ↦ (s, found-Reserves s e g least)
        | short s e p q nowhere tail ↦ absurd (nowhere t f)
        | full e nowhere taken ↦ absurd (nowhere t f)
      ]

  -- If no run of `n + 1` free blocks exists and the last block is taken, the result is the null
  -- address and the heap is unchanged; but if the last block is free, the marking runs past the end
  -- of the table.
  pub heap_malloc_blocks_exhausted :
      (last : ℕ)
      → last + 1 ≡ h.table.total
      → ((t : ℕ) → ¬ Fits h.table.entries h.table.total (suc n) t)
      → (¬ IsFree h.table.entries last → heap_malloc_blocks h (suc n) ≡ some (0, h))
        × (IsFree h.table.entries last → heap_malloc_blocks h (suc n) ≡ none)
  unfolding heap_malloc_blocks
  heap_malloc_blocks_exhausted last e nowhere =
      elim (heap_get_start_block-Found h.table (suc n) (omega arith)) [
        | fit s r g least ↦ absurd (nowhere s g)
        | short s r p q nowhere' tail ↦ (
          λ taken. absurd (taken (tail last (omega arith) (omega arith))),
          λ free. rw (
            r,
            heap_mark_blocks_taken_overrun s (suc n) h.table.entries (omega (arith, v.sized))
                (omega (arith, v.sized)),
            heap_malloc_blocks,
          ),
        )
        | full r nowhere' taken ↦
            (λ p. rw (r, heap_malloc_blocks), λ free. absurd (taken last e free))
      ]
