-- ===== src/Kheap.antt =====
-- src/memory/heap/kheap.c: the kernel's heap, one `Heap` of 100 MB.
pub mod Laws
mod Tests
use maer_os.Common.{ℕ, ◌+◌, ◌/◌, ◌*◌, Option, none, some, List, u32, Status, ◌==◌, if◌then◌else◌}
use maer_os.Heap.{Heap, HeapTable, block_size, heap_create, heap_malloc, heap_free}
use maer_os.Memory.{Memory, memset}

-- `MAEROS_HEAP_SIZE_BYTES`, `MAEROS_HEAP_ADDRESS`
abbrev pub heap_size_bytes : ℕ
heap_size_bytes = 104857600

abbrev pub heap_address : ℕ
heap_address = 0x01000000

-- `kernel_heap_table`: `table` is what lies at the table's address.
pub kernel_heap_table : List ℕ → HeapTable
kernel_heap_table table = record { entries = table; total = heap_size_bytes / block_size }

pub kheap_init : List ℕ → Status × Option Heap
unfolding kernel_heap_table
kheap_init table =
    heap_create heap_address (u32 (heap_address + heap_size_bytes)) (kernel_heap_table table)

unfoldable pub kmalloc : ℕ → Heap → Option (ℕ × Heap)
kmalloc size heap = heap_malloc heap size

pub kfree : ℕ → Heap → Option Heap
kfree ptr heap = heap_free heap ptr

-- A null pointer is returned before the memory is cleared.
unfoldable pub kzalloc : ℕ → Heap → Memory → Option (ℕ × Heap × Memory)
unfolding kmalloc
kzalloc size heap m = elim (kmalloc size heap) [
  | none ↦ none
  | some (ptr, heap') ↦ some (ptr, heap', (if ptr == 0 then m else memset ptr 0x00 size m))
]
