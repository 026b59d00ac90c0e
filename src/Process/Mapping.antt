-- ===== src/Process/Mapping.antt =====
-- src/task/process.c: the pages of a process's program and stack.
pub mod Binary
use maer_os.Common.{
  ℕ, zero, suc, ◌+◌, ◌-◌, ◌*◌, Bool, true, false, bit_and, ◌==◌, if◌then◌else◌, u32, Status, all_ok,
}
use maer_os.Memory.{Memory}
use maer_os.Paging.{Words, paging_align_address, paging_align_to_lower_page, paging_map_to}
use maer_os.Elf.{
  Elf32Phdr, ElfHeader, ElfFile, program_virtual_address, header_at, elf_program_header,
  elf_phdr_phys_address,
}
use maer_os.Process.{ProgramData, elf_data, binary_data, Process, user_page}

-- `MAEROS_USER_PROGRAM_STACK_SIZE`, `MAEROS_PROGRAM_VIRTUAL_STACK_ADDRESS_END`
abbrev pub stack_size : ℕ
stack_size = 16384

abbrev pub stack_address_end : ℕ
stack_address_end = 0x3FF000 - stack_size

-- The pointer that the union holds, of an ELF file that of its structure.
abbrev pub program_ptr : ProgramData → ℕ
program_ptr (binary_data ptr) = ptr
program_ptr (elf_data file elf) = file

-- What the mapping returns is dropped.
pub process_map_binary : Process → Words → Words
process_map_binary p w =
    let ptr = program_ptr p.program in
    (paging_map_to p.page_directory program_virtual_address ptr
      (paging_align_address (u32 (ptr + p.size))) user_page w).1

-- `PF_W` is 2; a page that is not writeable has the flags 0b101.
abbrev pub segment_flags : Elf32Phdr → ℕ
segment_flags phdr = if bit_and phdr.p_flags 0x02 == 0 then 0b101 else 0b111

pub map_segment : ℕ → ElfFile → Elf32Phdr → Words → Status × Words
map_segment directory file phdr w =
    let phys = elf_phdr_phys_address file phdr in
    paging_map_to directory (paging_align_to_lower_page phdr.p_vaddr)
      (paging_align_to_lower_page phys) (paging_align_address (u32 (phys + phdr.p_memsz)))
      (segment_flags phdr) w

-- The loop over the program headers at index `i`, with some to go.
pub map_elf_loop : Memory → ℕ → ElfFile → ℕ → ℕ → Words → Status × Words
map_elf_loop m directory file zero i w = (all_ok, w)
map_elf_loop m directory file (suc left) i w =
    let (res, w') =
      map_segment directory file
        (elf_program_header m file.elf_memory (header_at m file.elf_memory) i) w in
    elim res [ all_ok ↦ map_elf_loop m directory file left (i + 1) w' | err ↦ (err, w') ]

pub process_map_elf : Memory → ℕ → ElfFile → Words → Status × Words
process_map_elf m directory file w =
    map_elf_loop m directory file (header_at m file.elf_memory).e_phnum 0 w

-- The mapping by the file type.
pub map_by_type : ProgramData → Memory → Process → Words → Status × Words
map_by_type (elf_data file elf) m p w = process_map_elf m p.page_directory elf w
map_by_type (binary_data ptr) m p w = (all_ok, process_map_binary p w)

-- The program is mapped as a binary first, whatever its type.
pub process_map_program : Memory → Process → Words → Status × Words
process_map_program m p w = map_by_type p.program m p (process_map_binary p w)

pub process_map_memory : Memory → Process → Words → Status × Words
process_map_memory m p w =
    let (res, w') = process_map_program m p w in
    elim res [
      | all_ok ↦ (
        all_ok,
        (paging_map_to p.page_directory stack_address_end p.stack
            (paging_align_address (u32 (p.stack + stack_size))) user_page w').1,
      )
      | err ↦ (err, w')
    ]
