-- ===== src/Kheap/Laws.antt =====
-- The kernel's heap after `kheap_init`, and what `kmalloc` and `kzalloc` hand out.
use maer_os.Common.{
  ℕ, suc, ◌+◌, ◌-◌, ◌*◌, ◌/◌, ◌%◌, ◌^◌, ◌≤◌, ◌<◌, ◌≡◌, refl, ◌∙◌, ap, ◌⊎◌, ◌≢◌, ==_false, some,
  List, arith, length, replicate, u32, all_ok,
}
use maer_os.Heap.{Heap, block_size, heap_malloc_blocks, heap_align_value_to_upper, with_entries}
use maer_os.Heap.Search.{Fits, IsFree}
use maer_os.Heap.Alloc.{IsHeap, Reserves, reserved, heap_malloc_blocks-Reserves}
use maer_os.Heap.Create.{
  heap_create-IsHeap, heap_malloc_lem, heap_validate_alignment_iff, heap_align_value_to_upper_lem,
}
use maer_os.Heap.Free.{heap_free-heap_malloc_blocks}
use maer_os.Memory.{Memory, memset}
use maer_os.Memory.Laws.{memset_lem}
use maer_os.Kheap.{
  heap_address, heap_size_bytes, kernel_heap_table, kheap_init, kmalloc, kzalloc, kfree,
}

-- `kheap_init` succeeds, if the table's array has its 25600 entries: the heap is well-formed, lies
-- at 0x01000000, and every block is free.
pub kheap_init-IsHeap :
    (table : List ℕ)
    → length table ≡ 25600
    → (heap : Heap) × (kheap_init table ≡ (all_ok, some heap))
      × IsHeap heap
      × (heap.saddr ≡ heap_address)
      × (heap.table.entries ≡ replicate (kernel_heap_table table).total 0)
unfolding kheap_init kernel_heap_table
kheap_init-IsHeap table l =
    heap_create-IsHeap heap_address (u32 (heap_address + heap_size_bytes)) (kernel_heap_table table)
      ((heap_validate_alignment_iff _).1 (omega arith))
      ((heap_validate_alignment_iff _).1 (omega arith)) (omega arith) (omega arith) (omega arith)
      (omega arith) refl l

-- The number of blocks that `heap_malloc` asks for.
abbrev pub blocks_of : ℕ → ℕ
blocks_of size = heap_align_value_to_upper size / block_size

kmalloc_run :
    (size n s : ℕ) (h : Heap)
    → blocks_of size ≡ n
    → Reserves h n s
    → kmalloc size h
      ≡ some (h.saddr + s * block_size, with_entries h (reserved s n h.table.entries))
unfolding kmalloc
kmalloc_run size n s h e r = heap_malloc_lem h size ∙ ap (heap_malloc_blocks h) e ∙ r.returns

kzalloc_run :
    (size n s : ℕ) (h : Heap) (m : Memory)
    → 0 < h.saddr
    → blocks_of size ≡ n
    → Reserves h n s
    → kzalloc size h m
      ≡ some (
        h.saddr + s * block_size,
        with_entries h (reserved s n h.table.entries),
        memset (h.saddr + s * block_size) 0 size m,
      )
unfolding kzalloc
kzalloc_run size n s h m p e r =
    rw (kmalloc_run size n s h e r, ==_false (h.saddr + s * block_size) 0 (omega arith), kzalloc)

-- The cleared region lies below the end of the address space.
region_fits :
    {h : Heap} {n s : ℕ} (size : ℕ)
    → IsHeap h
    → blocks_of size ≡ n
    → Reserves h n s
    → size + block_size ≤ 2 ^ 32
    → h.saddr + s * block_size + size ≤ 2 ^ 32
region_fits {h} {n} {s} size v e r b =
    let up = heap_align_value_to_upper_lem size (omega arith) in
    omega (arith, up.0 b, v.mapped, r.fits.inside)

-- For a positive size up to 2^32 - 4096, if a run of free blocks that holds it exists, `kzalloc`
-- returns an address at which `size` bytes are 0, below which and above which the memory is
-- unchanged, and `kfree` of that address restores the heap.
pub kzalloc_lem :
    (size t : ℕ) (h : Heap) (m : Memory)
    → IsHeap h
    → 0 < size
    → size + block_size ≤ 2 ^ 32
    → Fits h.table.entries h.table.total (blocks_of size) t
    → (a : ℕ) × (h' : Heap) × (m' : Memory) × (kzalloc size h m ≡ some (a, h', m'))
      × (a ≢ 0)
      × IsHeap h'
      × (kfree a h' ≡ some h)
      × ((q : ℕ) → a ≤ q → q < a + size → m' q ≡ 0)
      × ((q : ℕ) → (q < a) ⊎ (a + size ≤ q) → m' q ≡ m q)
kzalloc_lem size t h m v p b f =
    let up = heap_align_value_to_upper_lem size (omega arith) in
    let n = blocks_of size - 1 in
    let e : blocks_of size ≡ suc n = omega (arith, up.0 b) in
    let (s, r) = heap_malloc_blocks-Reserves v n t (rw e at f) in
    let end = region_fits size v e r b in
    (
      h.saddr + s * block_size,
      with_entries h (reserved s (suc n) h.table.entries),
      memset (h.saddr + s * block_size) 0x00 size m,
      kzalloc_run size (suc n) s h m v.based e r,
      omega (arith, v.based),
      r.valid,
      unfold kfree in heap_free-heap_malloc_blocks v n t _ _ (rw e at f) r.returns,
      λ q x y. (memset_lem _ 0 size q m end).1 x y,
      λ q x. (memset_lem _ 0 size q m end).0 x,
    )

-- What `kzalloc` hands out: the region starts with a free block, lies in the pool, is cleared, and is
-- given back by `kfree`.
pub record Allocates (size start : ℕ) (h : Heap) (m : Memory) (h' : Heap) (m' : Memory)
    : Type 0 where
  pub returns : kzalloc size h m ≡ some (h.saddr + start * block_size, h', m')
  pub was_free : IsFree h.table.entries start
  pub whole : start < h.table.total
  pub in_pool :
      h.saddr + start * block_size + heap_align_value_to_upper size
      ≤ h.saddr + h.table.total * block_size
  pub rounded :
      (heap_align_value_to_upper size % block_size ≡ 0) × (size ≤ heap_align_value_to_upper size)
  pub gives_back : kfree (h.saddr + start * block_size) h' ≡ some h
  pub cleared :
      (q : ℕ)
      → h.saddr + start * block_size ≤ q
      → q < h.saddr + start * block_size + size
      → m' q ≡ 0
  pub unchanged :
      (q : ℕ)
      → (q < h.saddr + start * block_size) ⊎ (h.saddr + start * block_size + size ≤ q)
      → m' q ≡ m q

pub kzalloc-Allocates :
    (size t : ℕ) (h : Heap) (m : Memory)
    → IsHeap h
    → 0 < size
    → size + block_size ≤ 2 ^ 32
    → Fits h.table.entries h.table.total (blocks_of size) t
    → (start : ℕ) × (h' : Heap) × (m' : Memory) × Allocates size start h m h' m'
kzalloc-Allocates size t h m v p b f =
    let up = heap_align_value_to_upper_lem size (omega arith) in
    let (whole, most, less) = up.0 b in
    let n = blocks_of size - 1 in
    let e : blocks_of size ≡ suc n = omega (arith, up.0 b) in
    let (s, r) = heap_malloc_blocks-Reserves v n t (rw e at f) in
    let end = region_fits size v e r b in
    (
      s,
      with_entries h (reserved s (suc n) h.table.entries),
      memset (h.saddr + s * block_size) 0x00 size m,
      record {
        returns = kzalloc_run size (suc n) s h m v.based e r;
        was_free = r.fits.free s (omega arith) (omega arith);
        whole = omega (arith, r.fits.inside);
        in_pool = omega (arith, r.fits.inside, whole);
        rounded = (whole, most);
        gives_back = unfold kfree in heap_free-heap_malloc_blocks v n t _ _ (rw e at f) r.returns;
        cleared = λ q x y. (memset_lem _ 0 size q m end).1 x y;
        unchanged = λ q o. (memset_lem _ 0 size q m end).0 o;
      },
    )
