-- ===== src/Process/Owned/Roundtrip.antt =====
-- An allocation of a process, and its end.
use maer_os.Common.{
  ℕ, zero, suc, ◌+◌, ◌-◌, ◌*◌, ◌%◌, ◌^◌, ◌≤◌, ◌<◌, ◌≡◌, ◌≢◌, refl, sym, ap, ap₂, ◌∙◌, subst, true,
  some, List, [], ◌∷◌, length, get_or, set, ◌==◌, ==_false, u32, arith, Status, all_ok,
}
use maer_os.Heap.{Heap, block_size}
use maer_os.Heap.Search.{Fits, IsFree}
use maer_os.Heap.Alloc.{IsHeap}
use maer_os.Memory.{Memory}
use maer_os.Kheap.{kzalloc, kfree}
use maer_os.Kheap.Laws.{blocks_of, Allocates, kzalloc-Allocates}
use maer_os.Paging.{Words, paging_align_address, paging_map_to}
use maer_os.Paging.Slots.{IsDirectory}
use maer_os.Paging.Ranges.{Mapped, paging_map_to-Mapped, paging_align_address_lem}
use maer_os.Process.{
  ProcessAllocation, unused_allocation, Process, Store, user_page,
  process_find_free_allocation_index, process_malloc, process_allocation_unjoin,
  process_get_allocation_by_addr, free_unmapped, process_free,
}

-- No allocation has this address.
abbrev NotAt : List ProcessAllocation → ℕ → Type 0
NotAt l a = (i : ℕ) → i < length l → (get_or l i unused_allocation).ptr ≢ a

abbrev at : ℕ → ℕ → ProcessAllocation
at a size = record { ptr = a; size = size }

by_addr-set :
    (l : List ProcessAllocation) (index a size : ℕ)
    → NotAt l a
    → index < length l
    → process_get_allocation_by_addr (set l index (at a size)) a ≡ some (at a size)
unfolding process_get_allocation_by_addr
by_addr-set [] index a size d b = absurd (omega arith)
by_addr-set (x ∷ l) zero a size d b = let t : (a == a) ≡ true = ground arith in rw t refl
by_addr-set (x ∷ l) (suc index) a size d b =
    rw (==_false x.ptr a (d 0 (omega arith)))
      (by_addr-set l index a size (λ i q. d (suc i) (omega arith)) (omega arith))

unjoin_none : (l : List ProcessAllocation) (a : ℕ) → NotAt l a → process_allocation_unjoin l a ≡ l
unfolding process_allocation_unjoin
unjoin_none [] a d = refl
unjoin_none (x ∷ l) a d =
    rw (==_false x.ptr a (d 0 (omega arith)))
      (ap (λ t. x ∷ t) (unjoin_none l a (λ i q. d (suc i) (omega arith))))

unjoin-set :
    (l : List ProcessAllocation) (index a size : ℕ)
    → NotAt l a
    → index < length l
    → get_or l index unused_allocation ≡ unused_allocation
    → process_allocation_unjoin (set l index (at a size)) a ≡ l
unfolding process_allocation_unjoin
unjoin-set [] index a size d b e = absurd (omega arith)
unjoin-set (x ∷ l) zero a size d b e =
    let t : (a == a) ≡ true = ground arith in
    rw t (ap₂ (λ y k. y ∷ k) (sym e) (unjoin_none l a (λ i q. d (suc i) (omega arith))))
unjoin-set (x ∷ l) (suc index) a size d b e =
    rw (==_false x.ptr a (d 0 (omega arith)))
      (ap (λ t. x ∷ t) (unjoin-set l index a size (λ i q. d (suc i) (omega arith)) (omega arith) e))

-- The process that owns one more allocation.
abbrev owning : Process → ℕ → ℕ → ℕ → Process
owning p index a size = record p { allocations = set p.allocations index (at a size) }

malloc_run :
    (size n index stop : ℕ) (p : Process) (s : Store) (h : Heap) (m : Memory) (w : Words)
    → kzalloc size s.heap s.memory ≡ some (suc n, h, m)
    → process_find_free_allocation_index p ≡ some index
    → paging_align_address (u32 (suc n + size)) ≡ stop
    → paging_map_to p.page_directory (suc n) (suc n) stop user_page s.words ≡ (all_ok, w)
    → process_malloc size p s
      ≡ some (suc n, owning p index (suc n) size, record { heap = h; memory = m; words = w })
unfolding process_malloc
malloc_run size n index stop p s h m w z f g e =
    let e' = ap (λ k. paging_map_to p.page_directory (suc n) (suc n) k user_page s.words) g ∙ e in
    rw (z, process_malloc)
      (rw f (
        rw e' (
          ap
            (λ (r : Status × Words).
              some
                (suc n, owning p index (suc n) size, record { heap = h; memory = m; words = r.1 }))
            e')))

free_run :
    (a size stop : ℕ) (p : Process) (s : Store) (h : Heap) (w : Words)
    → process_get_allocation_by_addr p.allocations a ≡ some (at a size)
    → paging_align_address (u32 (a + size)) ≡ stop
    → paging_map_to p.page_directory a a stop 0x00 s.words ≡ (all_ok, w)
    → kfree a s.heap ≡ some h
    → process_free a p s
      ≡ some (
        record p { allocations = process_allocation_unjoin p.allocations a },
        record s { heap = h; words = w },
      )
unfolding process_free free_unmapped
free_run a size stop p s h w f g e k =
    rw (f, process_free) (rw g (rw e (rw (k, free_unmapped) refl)))

-- What lies between the allocation and its end: the process owns the cleared region and may access
-- its pages; behind the end the process and the heap are what they were, and the pages are not present.
pub record IsRoundTrip (size index : ℕ) (p : Process) (s : Store) (a bytes : ℕ) (s1 s2 : Store)
    : Type 0 where
  pub malloc : process_malloc size p s ≡ some (a, owning p index a size, s1)
  pub positive : 0 < a
  pub cleared : (q : ℕ) → a ≤ q → q < a + size → s1.memory q ≡ 0
  pub covers : size ≤ bytes
  pub accessible : Mapped s.words s1.words p.page_directory a a bytes user_page
  pub free : process_free a (owning p index a size) s1 ≡ some (p, s2)
  pub restored : s2.heap ≡ s.heap
  pub revoked : Mapped s1.words s2.words p.page_directory a a bytes 0x00

-- No allocation of the process starts at a free block.
pub record OwnsTaken (p : Process) (h : Heap) : Type 0 where
  pub taken :
      (i b : ℕ)
      → i < length p.allocations
      → b < h.table.total
      → (get_or p.allocations i unused_allocation).ptr ≡ h.saddr + b * block_size
      → ¬ IsFree h.table.entries b

module _ (size t index : ℕ) (p : Process) (s : Store) (v : IsHeap s.heap)
    (aligned : s.heap.saddr % 4096 ≡ 0)
    (below : s.heap.saddr + s.heap.table.total * block_size < 2 ^ 32) (positive : 0 < size)
    (fits : size + block_size ≤ 2 ^ 32)
    (run : Fits s.heap.table.entries s.heap.table.total (blocks_of size) t)
    (d : IsDirectory s.words p.page_directory) (owns : OwnsTaken p s.heap)
    (found : process_find_free_allocation_index p ≡ some index)
    (inside : index < length p.allocations)
    (unused : get_or p.allocations index unused_allocation ≡ unused_allocation) where
  trip :
      (start n : ℕ) (h' : Heap) (m' : Memory)
      → Allocates size start s.heap s.memory h' m'
      → s.heap.saddr + start * block_size ≡ suc n
      → (bytes : ℕ) × (s1 s2 : Store) × IsRoundTrip size index p s (suc n) bytes s1 s2
  trip start n h' m' al a =
      let (whole, covers) = al.rounded in
      let pool = al.in_pool in
      let dir = p.page_directory in
      let stop = paging_align_address (suc n + size) in
      let o : suc n % 4096 ≡ 0 = omega arith in
      let (page, up, near) = paging_align_address_lem (suc n + size) (omega arith) in
      let e32 : u32 (suc n + size) ≡ suc n + size = omega arith in
      let (w1, run1, map1) =
        paging_map_to-Mapped dir user_page (suc n) (suc n) stop d o o page (omega arith)
          (omega arith) (omega arith) in
      let (w2, run2, map2) =
        paging_map_to-Mapped dir 0x00 (suc n) (suc n) stop map1.directory o o page (omega arith)
          (omega arith) (omega arith) in
      let apart : NotAt p.allocations (suc n) =
        λ i q e. owns.taken i start q al.whole (e ∙ sym a) al.was_free in
      let returns =
        subst (λ (k : ℕ). kzalloc size s.heap s.memory ≡ some (k, h', m')) a al.returns in
      let back = subst (λ (k : ℕ). kfree k h' ≡ some s.heap) a al.gives_back in
      let s1 : Store = record { heap = h'; memory = m'; words = w1 } in
      let s2 : Store = record { heap = s.heap; memory = m'; words = w2 } in
      (
        stop - suc n,
        s1,
        s2,
        record {
          malloc =
              malloc_run size n index stop p s h' m' w1 returns found (ap paging_align_address e32)
                run1;
          positive = omega arith;
          cleared = λ q x y. al.cleared q (omega arith) (omega arith);
          covers = omega arith;
          accessible = map1;
          free =
              free_run (suc n) size stop (owning p index (suc n) size) s1 s.heap w2
                (by_addr-set p.allocations index (suc n) size apart inside)
                (ap paging_align_address e32) run2 back
              ∙ ap (λ l. some (record p { allocations = l }, s2))
                  (unjoin-set p.allocations index (suc n) size apart inside unused);
          restored = refl;
          revoked = map2;
        },
      )

  -- In a well-formed heap that starts at a page and ends below the address space, with a run of free
  -- blocks that holds a positive size of at most 2^32 - 4096: if the process has its page directory,
  -- no allocation at a free block and an empty slot that the search finds, an allocation succeeds with
  -- a cleared region in pages that the process may access, and freeing it restores the process and the
  -- heap and makes the pages not present.
  pub process_free-process_malloc :
      (a bytes : ℕ) × (s1 s2 : Store) × IsRoundTrip size index p s a bytes s1 s2
  process_free-process_malloc =
      let (start, h', m', al) = kzalloc-Allocates size t s.heap s.memory v positive fits run in
      let n = s.heap.saddr + start * block_size - 1 in
      let a : s.heap.saddr + start * block_size ≡ suc n = omega (arith, v.based) in
      let (bytes, s1, s2, r) = trip start n h' m' al a in (suc n, bytes, s1, s2, r)
