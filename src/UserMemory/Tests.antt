-- ===== src/UserMemory/Tests.antt =====
-- Runs at the samples, and the witness.
use maer_os.Common.{◌+◌, ◌≡◌, refl, inl, some, arith, all_ok}
use maer_os.Paging.{
  paging_get, paging_get_indexes, paging_is_aligned, entry_slot, entry_address,
  paging_get_physical_address, paging_align_to_lower_page,
}
use maer_os.Process.{Store}
use maer_os.UserMemory.{translate, load_byte, task_get_stack_item, copy_string_from_task}
use maer_os.UserMemory.Strings.{IsCopiedOut, copy_string_from_task-IsCopiedOut}
use maer_os.UserMemory.Samples.{
  all_pages-IsDirectory, heap-IsHeap, heap-Fits, hi, store, hi-IsUserString,
}

stack_item_runs : task_get_stack_item 0x1000 0x40_0000 0 store ≡ some 0x6968
unfolding task_get_stack_item load_byte translate paging_get paging_get_indexes paging_is_aligned
    entry_slot entry_address paging_get_physical_address paging_align_to_lower_page
stack_item_runs = refl

copy_string_from_task-IsCopiedOut_example :
    (s' : Store) × (copy_string_from_task 0x1000 0x40_0000 0x60_0000 1024 store ≡ some (all_ok, s'))
    × IsCopiedOut 0x60_0000 1024 hi store s'
copy_string_from_task-IsCopiedOut_example =
    copy_string_from_task-IsCopiedOut 0x1000 0x40_0000 0x60_0000 1024 0 store hi
      (λ i. 0x40_0000 + i) heap-IsHeap refl (omega arith) (omega arith) (omega arith) heap-Fits
      all_pages-IsDirectory hi-IsUserString (omega arith) (λ b l f. inl (omega arith))
