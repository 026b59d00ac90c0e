-- ===== src/Loader/Tests.antt =====
-- A file that is no ELF file, loaded as a binary program, and a file that is missing.
use maer_os.Common.{ℕ, ◌+◌, ◌-◌, ◌≡◌, refl, some, none, List, [], ◌∷◌, pos, negsuc, einformat}
use maer_os.Disk.{disk_get}
use maer_os.Strings.{strncmp, strnlen, strlen, isdigit, tonumericdigit}
use maer_os.PathParser.{
  pathparser_path_valid_format, pathparser_get_drive_by_path, part_loop, skip_slash,
  pathparser_get_path_part, parse_parts, pathparser_parse,
}
use maer_os.File.{
  FileSystem, Descriptors, fopen, open_file, file_new_descriptor, free_slot,
  file_get_mode_by_string, fstat, fread, fclose, file_get_descriptor, file_free_descriptor,
}
use maer_os.Heap.{
  Heap, heap_malloc, heap_align_value_to_upper, heap_malloc_blocks, heap_get_start_block,
  start_loop, heap_get_entry_type, heap_mark_blocks_taken, mark_loop, next_entry,
  heap_block_to_address,
}
use maer_os.Kheap.{kmalloc, kzalloc}
use maer_os.Memory.{memset}
use maer_os.Elf.{elf_validate_loaded, elf_valid_signature, header_at}
use maer_os.Process.{binary_data, Store}
use maer_os.Loader.{alloc, read_mode}
use maer_os.Task.{Tasks}
use maer_os.Loader.Program.{process_load_data, Machine, process_load}
use maer_os.Loader.Program.Slots.{Outcome, process_load-Outcome}
use maer_os.Loader.Program.Missing.{process_load_missing}
use maer_os.Process.Table.{process_get, process_get_free_slot, find_free_slot}
use maer_os.Loader.Program.Data.{IsServed, holding, process_load_data_binary}

-- "0:/x"
abbrev filename : List ℕ
filename = 0x30 ∷ 0x3a ∷ 0x2f ∷ 0x78 ∷ 0 ∷ []

abbrev content : List ℕ
content = 0x4d ∷ 0x5a ∷ 0x90 ∷ []

-- The state is the number of open files.
abbrev one_file : FileSystem ℕ
one_file = record {
  open_path = λ parts mode n. (some 7, n + 1);
  read = λ h size nmemb n. (pos nmemb, content, n);
  seek = λ h offset whence n. (pos 0, n);
  close = λ h n. (pos 0, n - 1);
  stat = λ h n. (pos 0, some (record { flags = 0; filesize = 3 }));
}

abbrev no_files : Descriptors
no_files = none ∷ []

abbrev one_open : Descriptors
one_open = some (record { index = 1; private_data = 7 }) ∷ []

abbrev Ready : ℕ → Type 0
Ready n = Unit {0}

opens : (f : ℕ) → fopen one_file filename read_mode no_files f ≡ some (1, one_open, f + 1)
unfolding fopen open_file file_new_descriptor free_slot file_get_mode_by_string disk_get strncmp
    strnlen strlen isdigit tonumericdigit pathparser_path_valid_format pathparser_get_drive_by_path
    part_loop skip_slash pathparser_get_path_part parse_parts pathparser_parse
opens f = refl

served : IsServed one_file Ready Ready filename content 0 no_files one_open
unfolding fstat fread fclose file_get_descriptor file_free_descriptor
served = record {
  opened = λ f r. (f + 1, opens f, tt);
  sized = λ f r. (record { flags = 0; filesize = 3 }, refl, refl);
  read = λ f r. (f, refl, tt);
  closed = λ f r. (f - 1, pos 0, refl, tt);
}

-- A heap of four blocks of which the first ones are taken.
abbrev heap_with : List ℕ → Heap
heap_with entries = record { table = record { entries = entries; total = 4 }; saddr = 0x0100_0000 }

abbrev heap_with5 : List ℕ → Heap
heap_with5 entries = record { table = record { entries = entries; total = 5 }; saddr = 0x0100_0000 }

abbrev store_0 : Store
store_0 = record { heap = heap_with (0 ∷ 0 ∷ 0 ∷ 0 ∷ []); memory = λ q. 0; words = λ q. 0 }

abbrev store_1 : Store
store_1 = record {
  heap = heap_with (0x41 ∷ 0 ∷ 0 ∷ 0 ∷ []);
  memory = memset 0x0100_0000 0 132 (λ q. 0);
  words = λ q. 0;
}

abbrev store_2 : Store
store_2 = record {
  heap = heap_with (0x41 ∷ 0x41 ∷ 0 ∷ 0 ∷ []);
  memory = memset 0x0100_1000 0 3 store_1.memory;
  words = λ q. 0;
}

abbrev held : Store
held = holding 0x0100_1000 content store_2

abbrev store_3 : Store
store_3 = record {
  heap = heap_with (0x41 ∷ 0x41 ∷ 0x41 ∷ 0 ∷ []);
  memory = memset 0x0100_2000 0 3 held.memory;
  words = λ q. 0;
}

alloc_structure : alloc 132 store_0 ≡ some (0x0100_0000, store_1)
unfolding alloc kzalloc kmalloc heap_malloc heap_align_value_to_upper heap_malloc_blocks
    heap_get_start_block start_loop heap_get_entry_type heap_mark_blocks_taken mark_loop next_entry
    heap_block_to_address
alloc_structure = refl

alloc_file : alloc 3 store_1 ≡ some (0x0100_1000, store_2)
unfolding alloc kzalloc kmalloc heap_malloc heap_align_value_to_upper heap_malloc_blocks
    heap_get_start_block start_loop heap_get_entry_type heap_mark_blocks_taken mark_loop next_entry
    heap_block_to_address
alloc_file = refl

alloc_again : alloc 3 held ≡ some (0x0100_2000, store_3)
unfolding alloc kzalloc kmalloc heap_malloc heap_align_value_to_upper heap_malloc_blocks
    heap_get_start_block start_loop heap_get_entry_type heap_mark_blocks_taken mark_loop next_entry
    heap_block_to_address
alloc_again = refl

no_elf : elf_validate_loaded (header_at held.memory 0x0100_1000) ≡ einformat
unfolding elf_validate_loaded elf_valid_signature header_at
no_elf = refl

process_load_data_binary_example :
    (f' : ℕ) × (process_load_data one_file filename
        (record { store = store_0; descriptors = no_files; files = 0 })
      ≡ some (
        pos 0,
        some (binary_data 0x0100_2000, 3),
        record { store = holding 0x0100_2000 content store_3; descriptors = no_files; files = f' },
      ))
process_load_data_binary_example =
    process_load_data_binary one_file Ready Ready filename content 0 no_files one_open served
      0xff_ffff 0x0100_0fff store_0 store_1 store_2 0 tt alloc_structure alloc_file 0x0100_1fff
      store_3 no_elf alloc_again

abbrev one_task : Tasks
one_task = record {
  head = some 0x91_0000;
  tail = some 0x91_0000;
  current = some 0x91_0000;
  next = λ x. none;
  prev = λ x. none;
}

abbrev machine : Machine ℕ
machine = record {
  files = record { store = store_0; descriptors = no_files; files = 0 };
  tasks = one_task;
  processes = record { processes = some 0x90_0000 ∷ none ∷ []; current_process = some 0x90_0000 };
}

-- A file system without files, and a machine with room for one process.
abbrev no_file : FileSystem ℕ
no_file = record one_file { open_path = λ parts mode n. (none, n) }

abbrev store_a : Store
store_a = record store_0 { heap = heap_with5 (0 ∷ 0 ∷ 0 ∷ 0 ∷ 0 ∷ []) }

abbrev store_b : Store
store_b = record {
  heap = heap_with5 (0xc1 ∷ 0x81 ∷ 0x01 ∷ 0 ∷ 0 ∷ []);
  memory = memset 0x0100_0000 0 9364 (λ q. 0);
  words = λ q. 0;
}

abbrev store_c : Store
store_c = record {
  heap = heap_with5 (0xc1 ∷ 0x81 ∷ 0x01 ∷ 0x41 ∷ 0 ∷ []);
  memory = memset 0x0100_3000 0 132 store_b.memory;
  words = λ q. 0;
}

alloc_process : alloc 9364 store_a ≡ some (0x0100_0000, store_b)
unfolding alloc kzalloc kmalloc heap_malloc heap_align_value_to_upper heap_malloc_blocks
    heap_get_start_block start_loop heap_get_entry_type heap_mark_blocks_taken mark_loop next_entry
    heap_block_to_address
alloc_process = refl

alloc_elf : alloc 132 store_b ≡ some (0x0100_3000, store_c)
unfolding alloc kzalloc kmalloc heap_malloc heap_align_value_to_upper heap_malloc_blocks
    heap_get_start_block start_loop heap_get_entry_type heap_mark_blocks_taken mark_loop next_entry
    heap_block_to_address
alloc_elf = refl

no_open : fopen no_file filename read_mode no_files 0 ≡ some (0, no_files, 0)
unfolding fopen open_file file_new_descriptor free_slot file_get_mode_by_string disk_get strncmp
    strnlen strlen isdigit tonumericdigit pathparser_path_valid_format pathparser_get_drive_by_path
    part_loop skip_slash pathparser_get_path_part parse_parts pathparser_parse
no_open = refl

abbrev roomy : Machine ℕ
roomy = record machine { files = record { store = store_a; descriptors = no_files; files = 0 } }

slot_free : process_get_free_slot roomy.processes ≡ some 1
unfolding process_get_free_slot find_free_slot
slot_free = refl

slot_empty : process_get (pos 1) roomy.processes ≡ none
unfolding process_get
slot_empty = refl

process_load_missing_example :
    process_load no_file filename roomy
    ≡ some (
      negsuc 0,
      none,
      record roomy { files = record { store = store_c; descriptors = no_files; files = 0 } },
    )
process_load_missing_example =
    process_load_missing no_file filename roomy 1 0x00ff_ffff 0x0100_3000 store_b store_c no_files 0
      slot_free slot_empty alloc_process alloc_elf no_open

process_load-Outcome_example : Outcome roomy (
    some (
      negsuc 0,
      none,
      record roomy { files = record { store = store_c; descriptors = no_files; files = 0 } },
    ))
process_load-Outcome_example =
    process_load-Outcome no_file filename roomy
      (
        negsuc 0,
        none,
        record roomy { files = record { store = store_c; descriptors = no_files; files = 0 } },
      )
      (process_load_missing no_file filename roomy 1 0x00ff_ffff 0x0100_3000 store_b store_c
        no_files 0 slot_free slot_empty alloc_process alloc_elf no_open)
