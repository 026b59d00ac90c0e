-- ===== src/Heap/Tests.antt =====
-- Runs of heap.c on small tables, and its theorems at concrete heaps.
use maer_os.Common.{ℕ, zero, suc, ◌+◌, ◌*◌, ◌≤◌, ◌<◌, ◌≡◌, refl, none, some, List, [], ◌∷◌, arith}
use maer_os.Heap.{
  Heap, with_entries, block_size, start_loop, heap_get_entry_type, heap_get_start_block,
  heap_malloc_blocks, heap_block_to_address, heap_mark_blocks_taken, mark_loop, next_entry,
  heap_malloc, heap_free, heap_align_value_to_upper,
}
use maer_os.Heap.Search.{IsFree, Fits}
use maer_os.Heap.Table.{chained, read_entry}
use maer_os.Heap.Alloc.{IsHeap, Reserves, heap_malloc_blocks-Reserves}
use maer_os.Heap.Free.{heap_free-heap_malloc_blocks, heap_free-IsHeap}

-- One block taken, three free, one taken, one free.
abbrev small_entries : List ℕ
small_entries = 0x41 ∷ 0 ∷ 0 ∷ 0 ∷ 0x41 ∷ 0 ∷ []

abbrev small_heap : Heap
small_heap = record { table = record { entries = small_entries; total = 6 }; saddr = 0x0100_0000 }

small_heap-IsHeap : IsHeap small_heap
unfolding chained read_entry
small_heap-IsHeap = record {
  sized = refl;
  blocks = refl;
  based = omega arith;
  mapped = omega arith;
  small = omega arith;
}

small-IsFree : (j : ℕ) → 1 ≤ j → j < 3 → IsFree small_entries j
unfolding heap_get_entry_type
small-IsFree zero p q = absurd (omega arith)
small-IsFree (suc zero) p q = refl
small-IsFree (suc (suc zero)) p q = refl
small-IsFree (suc (suc (suc j))) p q = absurd (omega arith)

small_heap-Fits : Fits small_entries 6 2 1
small_heap-Fits = record { inside = omega arith; free = small-IsFree }

-- A request for 5000 bytes takes blocks 1 and 2.
malloc_runs :
    heap_malloc small_heap 5000
    ≡ some (0x0100_1000, with_entries small_heap (0x41 ∷ 0xc1 ∷ 0x01 ∷ 0 ∷ 0x41 ∷ 0 ∷ []))
unfolding heap_malloc heap_align_value_to_upper heap_malloc_blocks heap_get_start_block start_loop
    heap_get_entry_type heap_mark_blocks_taken mark_loop next_entry heap_block_to_address
malloc_runs = refl

-- No run of four blocks is left, and the search returns the single free block at the end.
malloc_overrun : heap_malloc_blocks small_heap 4 ≡ none
unfolding heap_malloc_blocks heap_get_start_block start_loop heap_get_entry_type
    heap_mark_blocks_taken mark_loop next_entry
malloc_overrun = refl

heap_malloc_blocks-Reserves_example : (s : ℕ) × Reserves small_heap 2 s
heap_malloc_blocks-Reserves_example =
    heap_malloc_blocks-Reserves small_heap-IsHeap 1 1 small_heap-Fits

-- A table whose two blocks are one allocation and a free block.
abbrev tail_entries : List ℕ
tail_entries = 0x41 ∷ 0 ∷ []

abbrev tail_heap : Heap
tail_heap = record { table = record { entries = tail_entries; total = 2 }; saddr = 0x0100_0000 }

tail_heap-IsHeap : IsHeap tail_heap
unfolding chained read_entry
tail_heap-IsHeap = record {
  sized = refl;
  blocks = refl;
  based = omega arith;
  mapped = omega arith;
  small = omega arith;
}

first_taken : ¬ IsFree tail_entries 0
unfolding heap_get_entry_type
first_taken e = omega arith

no_pair : (t : ℕ) → ¬ Fits tail_entries 2 2 t
no_pair zero f = first_taken (f.free 0 (omega arith) (omega arith))
no_pair (suc t) f = omega (arith, f.inside)

malloc_pair :
    heap_malloc_blocks small_heap 2
    ≡ some (0x0100_1000, with_entries small_heap (0x41 ∷ 0xc1 ∷ 0x01 ∷ 0 ∷ 0x41 ∷ 0 ∷ []))
unfolding heap_malloc_blocks heap_get_start_block start_loop heap_get_entry_type
    heap_mark_blocks_taken mark_loop next_entry heap_block_to_address
malloc_pair = refl

heap_free-heap_malloc_blocks_example :
    heap_free (with_entries small_heap (0x41 ∷ 0xc1 ∷ 0x01 ∷ 0 ∷ 0x41 ∷ 0 ∷ [])) 0x0100_1000
    ≡ some small_heap
heap_free-heap_malloc_blocks_example =
    heap_free-heap_malloc_blocks small_heap-IsHeap 1 1 0x0100_1000
      (with_entries small_heap (0x41 ∷ 0xc1 ∷ 0x01 ∷ 0 ∷ 0x41 ∷ 0 ∷ [])) small_heap-Fits malloc_pair

heap_free-IsHeap_example :
    let freed = with_entries tail_heap (0 ∷ 0 ∷ []) in
    (heap_free tail_heap (0x0100_0000 + 0 * block_size) ≡ some freed) × IsHeap freed
heap_free-IsHeap_example = heap_free-IsHeap tail_heap-IsHeap 0 [] (0 ∷ []) refl
