-- ===== src/Kheap/Tests.antt =====
-- The kernel's heap at concrete tables.
use maer_os.Common.{ℕ, ◌≡◌, refl, some, arith, replicate, length-replicate, all_ok}
use maer_os.Heap.{Heap}
use maer_os.Heap.Search.{Fits}
use maer_os.Heap.Table.{chained-replicate}
use maer_os.Heap.Alloc.{IsHeap}
use maer_os.Heap.Create.{free_table, heap_align_value_to_upper_lem}
use maer_os.Memory.{Memory}
use maer_os.Kheap.{heap_address, kernel_heap_table, kheap_init}
use maer_os.Kheap.Laws.{blocks_of, kheap_init-IsHeap}

-- Sixteen free blocks.
abbrev free_heap : Heap
free_heap = record { table = record { entries = replicate 16 0; total = 16 }; saddr = 0x0100_0000 }

free_heap-IsHeap : IsHeap free_heap
free_heap-IsHeap = record {
  sized = refl;
  blocks = chained-replicate 16;
  based = omega arith;
  mapped = omega arith;
  small = omega arith;
}

abbrev stale : Memory
stale q = 7

free_heap-Fits : Fits (replicate 16 0) 16 (blocks_of 5000) 0
free_heap-Fits =
    free_table 16 (blocks_of 5000) 0
      (omega (arith, (heap_align_value_to_upper_lem 5000 (omega arith)).0 (omega arith)))

kheap_init-IsHeap_example :
    (heap : Heap) × (kheap_init (replicate 25600 7) ≡ (all_ok, some heap))
    × IsHeap heap
    × (heap.saddr ≡ heap_address)
    × (heap.table.entries ≡ replicate (kernel_heap_table (replicate 25600 7)).total 0)
kheap_init-IsHeap_example = kheap_init-IsHeap (replicate 25600 7) (length-replicate {A = ℕ} 25600 7)
