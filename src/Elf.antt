-- ===== src/Elf.antt =====
-- src/loader/formats/elf.h and elfloader.c: the structures of an ELF file in the memory that it was
-- read into, their checks, and the addresses that its segments cover.
pub mod Checks
pub mod Steps
pub mod Bounds
mod Tests
use maer_os.Common.{
  ℕ, zero, suc, ◌+◌, ◌-◌, ◌*◌, ◌^◌, Bool, true, false, ◌&&◌, ◌||◌, not, List, [], ◌∷◌, leb, ltb,
  ◌==◌, if◌then◌else◌, u32, Status, all_ok, einformat,
}
use maer_os.Memory.{Memory}

-- The little-endian numbers at an address.
abbrev pub half_at : Memory → ℕ → ℕ
half_at m a = m (u32 a) + m (u32 (a + 1)) * 2 ^ 8

abbrev pub word_at : Memory → ℕ → ℕ
word_at m a = half_at m a + half_at m (a + 2) * 2 ^ 16

-- `struct elf32_phdr`
pub record Elf32Phdr : Type 0 where
  pub p_type : ℕ
  pub p_offset : ℕ
  pub p_vaddr : ℕ
  pub p_paddr : ℕ
  pub p_filesz : ℕ
  pub p_memsz : ℕ
  pub p_flags : ℕ
  pub p_align : ℕ

unfoldable pub phdr_at : Memory → ℕ → Elf32Phdr
phdr_at m a = record {
  p_type = word_at m a;
  p_offset = word_at m (a + 4);
  p_vaddr = word_at m (a + 8);
  p_paddr = word_at m (a + 12);
  p_filesz = word_at m (a + 16);
  p_memsz = word_at m (a + 20);
  p_flags = word_at m (a + 24);
  p_align = word_at m (a + 28);
}

-- `struct elf32_shdr`
pub record Elf32Shdr : Type 0 where
  pub sh_name : ℕ
  pub sh_type : ℕ
  pub sh_flags : ℕ
  pub sh_addr : ℕ
  pub sh_offset : ℕ
  pub sh_size : ℕ
  pub sh_link : ℕ
  pub sh_info : ℕ
  pub sh_addralign : ℕ
  pub sh_entsize : ℕ

unfoldable pub shdr_at : Memory → ℕ → Elf32Shdr
shdr_at m a = record {
  sh_name = word_at m a;
  sh_type = word_at m (a + 4);
  sh_flags = word_at m (a + 8);
  sh_addr = word_at m (a + 12);
  sh_offset = word_at m (a + 16);
  sh_size = word_at m (a + 20);
  sh_link = word_at m (a + 24);
  sh_info = word_at m (a + 28);
  sh_addralign = word_at m (a + 32);
  sh_entsize = word_at m (a + 36);
}

-- `struct elf_header`; `e_ident` starts at the header's address and is read there.
pub record ElfHeader : Type 0 where
  pub e_ident : ℕ → ℕ
  pub e_type : ℕ
  pub e_machine : ℕ
  pub e_version : ℕ
  pub e_entry : ℕ
  pub e_phoff : ℕ
  pub e_shoff : ℕ
  pub e_flags : ℕ
  pub e_ehsize : ℕ
  pub e_phentsize : ℕ
  pub e_phnum : ℕ
  pub e_shentsize : ℕ
  pub e_shnum : ℕ
  pub e_shstrndx : ℕ

unfoldable pub header_at : Memory → ℕ → ElfHeader
header_at m a = record {
  e_ident = λ i. m (u32 (a + i));
  e_type = half_at m (a + 16);
  e_machine = half_at m (a + 18);
  e_version = word_at m (a + 20);
  e_entry = word_at m (a + 24);
  e_phoff = word_at m (a + 28);
  e_shoff = word_at m (a + 32);
  e_flags = word_at m (a + 36);
  e_ehsize = half_at m (a + 40);
  e_phentsize = half_at m (a + 42);
  e_phnum = half_at m (a + 44);
  e_shentsize = half_at m (a + 46);
  e_shnum = half_at m (a + 48);
  e_shstrndx = half_at m (a + 50);
}

-- `struct elf_file`, without the name and the size that nothing sets.
pub record ElfFile : Type 0 where
  pub elf_memory : ℕ
  pub virtual_base_address : ℕ
  pub virtual_end_address : ℕ
  pub physical_base_address : ℕ
  pub physical_end_address : ℕ

-- `MAEROS_PROGRAM_VIRTUAL_ADDRESS`
abbrev pub program_virtual_address : ℕ
program_virtual_address = 0x400000

-- The four bytes of `elf_signature`.
unfoldable pub elf_valid_signature : ElfHeader → Bool
elf_valid_signature header =
    header.e_ident 0 == 0x7f
    && header.e_ident 1 == 69
    && header.e_ident 2 == 76
    && header.e_ident 3 == 70

-- `ELFCLASSNONE` or `ELFCLASS32`
pub elf_valid_class : ElfHeader → Bool
elf_valid_class header = header.e_ident 4 == 0 || header.e_ident 4 == 1

-- `ELFDATANONE` or `ELFDATA2LSB`
pub elf_valid_encoding : ElfHeader → Bool
elf_valid_encoding header = header.e_ident 5 == 0 || header.e_ident 5 == 1

-- `ET_EXEC` is 2.
pub elf_is_executable : ElfHeader → Bool
elf_is_executable header = header.e_type == 2 && leb program_virtual_address header.e_entry

pub elf_has_program_header : ElfHeader → Bool
elf_has_program_header header = not (header.e_phoff == 0)

unfoldable pub elf_validate_loaded : ElfHeader → Status
elf_validate_loaded header =
    if elf_valid_signature header
      && (elf_valid_class header && (elf_valid_encoding header && elf_has_program_header header))
    then all_ok
    else einformat

pub elf_get_entry : ElfHeader → ℕ
elf_get_entry header = header.e_entry

-- The address of the program headers of the header at `a`, or null.
unfoldable pub elf_pheader : ℕ → ElfHeader → ℕ
elf_pheader a header = if header.e_phoff == 0 then 0 else u32 (a + header.e_phoff)

unfoldable pub elf_program_header : Memory → ℕ → ElfHeader → ℕ → Elf32Phdr
elf_program_header m a header index = phdr_at m (elf_pheader a header + 32 * index)

-- The address of the section headers.
unfoldable pub elf_sheader : ℕ → ElfHeader → ℕ
elf_sheader a header = u32 (a + header.e_shoff)

unfoldable pub elf_section : Memory → ℕ → ElfHeader → ℕ → Elf32Shdr
elf_section m a header index = shdr_at m (elf_sheader a header + 40 * index)

unfoldable pub elf_str_table : Memory → ℕ → ElfHeader → ℕ
elf_str_table m a header = u32 (a + (elf_section m a header header.e_shstrndx).sh_offset)

unfoldable pub elf_phdr_phys_address : ElfFile → Elf32Phdr → ℕ
elf_phdr_phys_address file phdr = u32 (file.elf_memory + phdr.p_offset)

-- The first test of `elf_process_phdr_pt_load`, and the second.
pub lower_base : ElfFile → Elf32Phdr → ElfFile
lower_base file phdr =
    if leb phdr.p_vaddr file.virtual_base_address || file.virtual_base_address == 0x00
    then record file {
      virtual_base_address = phdr.p_vaddr;
      physical_base_address = u32 (file.elf_memory + phdr.p_offset);
    }
    else file

pub raise_end : ElfFile → Elf32Phdr → ElfFile
raise_end file phdr =
    let end_virtual_address = u32 (phdr.p_vaddr + phdr.p_filesz) in
    if leb file.virtual_end_address end_virtual_address || file.virtual_end_address == 0x00
    then record file {
      virtual_end_address = end_virtual_address;
      physical_end_address = u32 (file.elf_memory + phdr.p_offset + phdr.p_filesz);
    }
    else file

pub elf_process_phdr_pt_load : ElfFile → Elf32Phdr → ElfFile
elf_process_phdr_pt_load file phdr = raise_end (lower_base file phdr) phdr

-- `PT_LOAD` is 1.
pub elf_process_pheader : ElfFile → Elf32Phdr → ElfFile
elf_process_pheader file phdr =
    if phdr.p_type == 1 then elf_process_phdr_pt_load file phdr else file

-- The loop over the program headers at index `i`, with some to go; no header gives an error.
pub pheaders_loop : Memory → ElfHeader → ℕ → ℕ → ElfFile → ElfFile
pheaders_loop m header zero i file = file
pheaders_loop m header (suc left) i file =
    pheaders_loop m header left (i + 1)
      (elf_process_pheader file (elf_program_header m file.elf_memory header i))

pub elf_process_pheaders : Memory → ElfFile → ElfFile
elf_process_pheaders m file =
    let header = header_at m file.elf_memory in pheaders_loop m header header.e_phnum 0 file

unfoldable pub elf_process_loaded : Memory → ElfFile → Status × ElfFile
elf_process_loaded m file = elim (elf_validate_loaded (header_at m file.elf_memory)) [
  | all_ok ↦ (all_ok, elf_process_pheaders m file)
  | err ↦ (err, file)
]

-- What `kzalloc` and the read of the file leave in `elf_load`.
abbrev pub new_elf_file : ℕ → ElfFile
new_elf_file memory = record {
  elf_memory = memory;
  virtual_base_address = 0;
  virtual_end_address = 0;
  physical_base_address = 0;
  physical_end_address = 0;
}
