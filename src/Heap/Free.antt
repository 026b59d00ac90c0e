-- ===== src/Heap/Free.antt =====
-- `heap_free`: releasing an allocation, alone and behind `heap_malloc_blocks`.
use maer_os.Common.{
  ℕ, suc, ◌+◌, ◌-◌, ◌*◌, ◌^◌, ◌<◌, ◌≡◌, ap, some, List, ◌++◌, arith, length, replicate,
  length-replicate, length-append, sub32, pos, lt→ltb,
}
use maer_os.Heap.{
  Heap, with_entries, block_size, heap_malloc_blocks, heap_mark_blocks_free, heap_address_to_block,
  heap_free, free_loop,
}
use maer_os.Heap.Search.{Fits}
use maer_os.Heap.Blocks.{block, length-block, free_loop-append}
use maer_os.Heap.Table.{chained_release}
use maer_os.Heap.Alloc.{IsHeap, reserved, free_fit, Reserves, heap_malloc_blocks-Reserves}

module _ {h : Heap} (v : IsHeap h) where
  block-address :
      {s : ℕ} → s < h.table.total → heap_address_to_block h (h.saddr + s * block_size) ≡ pos s
  unfolding heap_address_to_block
  block-address {s} p =
      rw
        (lt→ltb (sub32 (h.saddr + s * block_size) h.saddr) (2 ^ 31)
          (omega (arith, v.mapped, v.small)))
        (ap pos (omega (arith, v.mapped, v.small)))

freed_at :
    (h : Heap) (a i : ℕ) (es : List ℕ)
    → heap_address_to_block h a ≡ pos i
    → free_loop (h.table.total - i) i h.table.entries ≡ some es
    → heap_free h a ≡ some (with_entries h es)
unfolding heap_free heap_mark_blocks_free
freed_at h a i es p q = rw (p, heap_free) (rw (q, heap_mark_blocks_free, heap_free))

free_reserved :
    {h : Heap} (v : IsHeap h) {n s : ℕ}
    → Reserves h (suc n) s
    → heap_free (with_entries h (reserved s (suc n) h.table.entries)) (h.saddr + s * block_size)
      ≡ some h
free_reserved {h} v {n} {s} r =
    freed_at (with_entries h (reserved s (suc n) h.table.entries)) _ s h.table.entries
      (block-address r.valid (omega (arith, r.fits.inside))) (free_fit v r.fits)

-- `heap_free` of the address that `heap_malloc_blocks` handed out for a run of free blocks restores
-- the heap exactly as it was before.
pub heap_free-heap_malloc_blocks :
    {h : Heap} (v : IsHeap h) (n t a : ℕ) (h' : Heap)
    → Fits h.table.entries h.table.total (suc n) t
    → heap_malloc_blocks h (suc n) ≡ some (a, h')
    → heap_free h' a ≡ some h
heap_free-heap_malloc_blocks {h} v n t a h' f e =
    let (s, r) = heap_malloc_blocks-Reserves v n t f in
    let here : a ≡ h.saddr + s * block_size = cc (r.returns, e) in
    let after : h' ≡ with_entries h (reserved s (suc n) h.table.entries) = cc (r.returns, e) in
    rw (here, after) (free_reserved v r)

-- `heap_free` of the address of any whole allocation frees its blocks and no other, and the heap
-- stays well-formed.
pub heap_free-IsHeap :
    {h : Heap} (v : IsHeap h) (n : ℕ) (pre post : List ℕ)
    → h.table.entries ≡ pre ++ (block (suc n) ++ post)
    → let freed = with_entries h (pre ++ (replicate (suc n) 0 ++ post)) in
      (heap_free h (h.saddr + length pre * block_size) ≡ some freed) × IsHeap freed
heap_free-IsHeap {h} v n pre post e = (
  freed_at h _ (length pre) _ (block-address v inside)
      (rw e (free_loop-append n (h.table.total - length pre) pre post (omega (arith, sizes)))),
  record {
    sized = omega (
      arith,
      sizes,
      length-append pre (replicate (suc n) 0 ++ post),
      length-append (replicate (suc n) 0) post,
      length-replicate {A = ℕ} (suc n) 0,
    );
    blocks = chained_release n pre post (rw (← e) v.blocks);
    based = v.based;
    mapped = v.mapped;
    small = v.small;
  },
)
  where
    sizes : length pre + suc n + length post ≡ h.table.total
    sizes = omega (
      arith,
      ap length e,
      length-append pre (block (suc n) ++ post),
      length-append (block (suc n)) post,
      length-block n,
      v.sized,
    )

    inside : length pre < h.table.total
    inside = omega (arith, sizes)
