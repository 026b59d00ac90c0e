-- ===== src/Heap/Create.antt =====
-- `heap_create` and the two rounding routines of heap.c.
use maer_os.Common.{
  ℕ, zero, suc, ◌+◌, ◌-◌, ◌*◌, ◌/◌, ◌%◌, ◌^◌, ◌≤◌, ◌<◌, ◌≡◌, refl, ◌∙◌, ap, sym, true, some, List,
  [], ◌∷◌, arith, length, replicate, drop, length-replicate, all_ok, append-nil, bit_and_shift,
  bit_and_mask, bit_and, ◌↔◌, get_or,
}
use maer_os.Heap.{
  Heap, HeapTable, block_size, clear_entries, heap_create, heap_validate_alignment,
  heap_validate_table, heap_align_value_to_upper, heap_malloc, heap_malloc_blocks,
  heap_get_entry_type,
}
use maer_os.Heap.Search.{Fits}
use maer_os.Heap.Table.{chained-replicate}
use maer_os.Heap.Alloc.{IsHeap}

drop_all : {A : Type 0} (n : ℕ) (xs : List A) → length xs ≡ n → drop n xs ≡ []
drop_all zero [] e = refl
drop_all (suc n) [] e = refl
drop_all zero (x ∷ xs) e = absurd (omega arith)
drop_all (suc n) (x ∷ xs) e = drop_all n xs (omega arith)

clear_entries_lem :
    (table : HeapTable)
    → length table.entries ≡ table.total
    → (clear_entries table).entries ≡ replicate table.total 0
unfolding clear_entries
clear_entries_lem table l = rw (drop_all table.total table.entries l) (append-nil _)

total-clear_entries : (table : HeapTable) → (clear_entries table).total ≡ table.total
unfolding clear_entries
total-clear_entries table = refl

valid_table :
    (ptr end : ℕ) (table : HeapTable)
    → ptr ≤ end
    → end < 2 ^ 32
    → table.total ≡ (end - ptr) / block_size
    → heap_validate_table ptr end table ≡ all_ok
unfolding heap_validate_table
valid_table ptr end table b c e = ground arith

get_or-replicate : (n j : ℕ) → get_or {A = ℕ} (replicate n 0) j 0 ≡ 0
get_or-replicate zero j = refl
get_or-replicate (suc n) zero = refl
get_or-replicate (suc n) (suc j) = get_or-replicate n j

-- `heap_create` on two addresses that pass its alignment test, with a table that has an entry for
-- each block between them, succeeds with a well-formed heap at `ptr` in which every entry is free.
pub heap_create-IsHeap :
    (ptr end : ℕ) (table : HeapTable)
    → heap_validate_alignment ptr ≡ true
    → heap_validate_alignment end ≡ true
    → 0 < ptr
    → ptr ≤ end
    → end < 2 ^ 32
    → end ≤ ptr + 2 ^ 31
    → table.total ≡ (end - ptr) / block_size
    → length table.entries ≡ table.total
    → (heap : Heap) × (heap_create ptr end table ≡ (all_ok, some heap))
      × IsHeap heap
      × (heap.saddr ≡ ptr)
      × (heap.table.entries ≡ replicate table.total 0)
unfolding heap_create
heap_create-IsHeap ptr end table p q a b c d e l =
    let free = clear_entries_lem table l in
    let same = total-clear_entries table in
    (
      record { table = clear_entries table; saddr = ptr },
      rw (p, q, valid_table ptr end table b c e),
      record {
        sized = ap length free ∙ length-replicate {A = ℕ} table.total 0 ∙ sym same;
        blocks = rw free (chained-replicate table.total);
        based = a;
        mapped = omega (arith, e, same);
        small = omega (arith, e, same);
      },
      refl,
      free,
    )

bit_twelve : (a : ℕ) → bit_and a 4096 ≡ a / 4096 % 2 * 4096
bit_twelve a = bit_and_shift 12 a 1 ∙ ap (λ t. t * 4096) (bit_and_mask 1 (a / 4096))

-- The alignment test of the heap looks at bit 12 alone: an address passes exactly when its block
-- number is even, wherever in that block it lies.
pub heap_validate_alignment_iff :
    (ptr : ℕ) → (heap_validate_alignment ptr ≡ true) ↔ (ptr / block_size % 2 ≡ 0)
unfolding heap_validate_alignment
heap_validate_alignment_iff ptr = ground (arith, bit_twelve ptr)

-- A size up to 2^32 - 4096 is rounded up to the next multiple of the block size; a larger one wraps
-- to 0.
pub heap_align_value_to_upper_lem :
    (val : ℕ)
    → val < 2 ^ 32
    → let up = heap_align_value_to_upper val in
      (val + block_size ≤ 2 ^ 32 → (up % block_size ≡ 0) × (val ≤ up) × (up < val + block_size))
      × (2 ^ 32 < val + block_size → up ≡ 0)
unfolding heap_align_value_to_upper
heap_align_value_to_upper_lem val h = ground arith

-- `heap_malloc` reserves the number of blocks that the rounded size fills.
pub heap_malloc_lem :
    (h : Heap) (size : ℕ)
    → heap_malloc h size ≡ heap_malloc_blocks h (heap_align_value_to_upper size / block_size)
unfolding heap_malloc
heap_malloc_lem h size = refl

-- Every run inside a table of free entries fits.
pub free_table : (total n s : ℕ) → s + n ≤ total → Fits (replicate total 0) total n s
unfolding heap_get_entry_type
free_table total n s h = record { inside = h; free = λ j p q. rw (get_or-replicate total j) }
