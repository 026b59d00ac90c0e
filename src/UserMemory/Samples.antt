-- ===== src/UserMemory/Samples.antt =====
-- A task's memory to try the theorems on: a directory that maps every page to itself, a free heap, the
-- string "hi" at 0x400000 and its address on the stack at 0x500000.
use maer_os.Common.{
  ℕ, zero, suc, ◌+◌, ◌-◌, ◌*◌, ◌/◌, ◌≤◌, ◌<◌, ◌≡◌, refl, inl, some, List, [], ◌∷◌, replicate, arith,
  if◌then◌else◌, ltb, ◌==◌,
}
use maer_os.Heap.{Heap}
use maer_os.Heap.Search.{Fits}
use maer_os.Heap.Alloc.{IsHeap}
use maer_os.Heap.Table.{chained-replicate}
use maer_os.Heap.Create.{free_table, heap_align_value_to_upper_lem}
use maer_os.Kheap.Laws.{blocks_of}
use maer_os.Memory.{Memory}
use maer_os.Paging.{
  Words, paging_get, paging_get_indexes, paging_is_aligned, entry_slot, entry_address,
  paging_get_physical_address, paging_align_to_lower_page,
}
use maer_os.Paging.Slots.{IsDirectory, table_at, entry_address_lem}
use maer_os.Process.{Store}
use maer_os.Strings.Laws.{IsText}
use maer_os.UserMemory.{translate}
use maer_os.UserMemory.Strings.{OutsideFree, IsUserString}

-- The directory at 0x1000, its tables on the pages behind it.
abbrev pub all_pages : Words
all_pages a = if ltb a 0x2000 then (a / 4 - 1024 + 2) * 4096 else (a - 0x2000) / 4 * 4096 + 7

table-all_pages : (i : ℕ) → i < 1024 → table_at all_pages 0x1000 i ≡ (i + 2) * 4096
unfolding table_at
table-all_pages i h =
    let e : all_pages (0x1000 + 4 * i) ≡ (i + 2) * 4096 = ground arith in
    omega (arith, e, entry_address_lem (all_pages (0x1000 + 4 * i)))

pub all_pages-IsDirectory : IsDirectory all_pages 0x1000
all_pages-IsDirectory = record {
  aligned = refl;
  below = omega arith;
  apart = λ i j p q e. omega (arith, table-all_pages i p, table-all_pages j q);
  outside = λ i p e. omega (arith, table-all_pages i p);
}

abbrev pub heap : Heap
heap = record { table = record { entries = replicate 16 0; total = 16 }; saddr = 0x0100_0000 }

pub heap-IsHeap : IsHeap heap
heap-IsHeap = record {
  sized = refl;
  blocks = chained-replicate 16;
  based = omega arith;
  mapped = omega arith;
  small = omega arith;
}

pub heap-Fits : Fits (replicate 16 0) 16 (blocks_of 1024) 0
heap-Fits =
    free_table 16 (blocks_of 1024) 0
      (omega (arith, (heap_align_value_to_upper_lem 1024 (omega arith)).0 (omega arith)))

-- "hi" at 0x400000
abbrev pub hi : List ℕ
hi = 0x68 ∷ 0x69 ∷ []

abbrev pub hi_memory : Memory
hi_memory a =
    if a == 0x40_0000
    then 0x68
    else if a == 0x40_0001
    then 0x69
    else if a == 0x50_0002
    then 0x40
    else 0

abbrev pub store : Store
store = record { heap = heap; memory = hi_memory; words = all_pages }

hi-IsText : IsText hi
unfolding IsText
hi-IsText = omega arith

-- Below the heap nothing is in a free block.
pub low-OutsideFree : (p : ℕ) → p < 0x0100_0000 → OutsideFree heap p
low-OutsideFree p h b l f = inl (omega arith)

hi_seen : (i : ℕ) → i ≤ 2 → translate 0x1000 all_pages (0x40_0000 + i) ≡ some (0x40_0000 + i)
unfolding translate paging_get paging_get_indexes paging_is_aligned entry_slot entry_address
    paging_get_physical_address paging_align_to_lower_page
hi_seen zero h = refl
hi_seen (suc zero) h = refl
hi_seen (suc (suc zero)) h = refl
hi_seen (suc (suc (suc i))) h = absurd (omega arith)

pub hi-IsUserString : IsUserString 0x1000 0x40_0000 1023 hi (λ i. 0x40_0000 + i) store
hi-IsUserString = record {
  text = hi-IsText;
  whole = omega arith;
  seen = λ i l h. hi_seen i h;
  byte = elim [
    | zero ↦ λ l h. refl
    | suc zero ↦ λ l h. refl
    | suc (suc zero) ↦ λ l h. refl
    | suc (suc (suc i)) ↦ λ l h. absurd (omega arith)
  ];
  taken = λ i l h. low-OutsideFree (0x40_0000 + i) (omega arith);
  page = λ i l h. low-OutsideFree (0x40_0000 + i) (omega arith);
}
