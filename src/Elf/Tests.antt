-- ===== src/Elf/Tests.antt =====
-- The loader's theorems on a small file: one segment of 16 bytes at 0x400000, from offset 84 on.
use maer_os.Common.{ℕ, ◌<◌, ◌≡◌, ◌↔◌, arith, ◌==◌, if◌then◌else◌, all_ok}
use maer_os.Memory.{Memory}
use maer_os.Elf.{
  header_at, phdr_at, elf_pheader, elf_program_header, elf_validate_loaded, elf_process_pheaders,
  new_elf_file,
}
use maer_os.Elf.Checks.{IsAccepted, elf_validate_loaded_iff}
use maer_os.Elf.Bounds.{IsBounds, program_headers, elf_process_pheaders-IsBounds}

small : Memory
small p =
    if p == 0
    then 0x7f
    else if p == 1
    then 69
    else if p == 2
    then 76
    else if p == 3
    then 70
    else if p == 28
    then 52
    else if p == 44
    then 1
    else if p == 52
    then 1
    else if p == 56
    then 84
    else if p == 62
    then 0x40
    else if p == 68
    then 16
    else 0

elf_validate_loaded_iff_example :
    (elf_validate_loaded (header_at small 0) ≡ all_ok) ↔ IsAccepted (header_at small 0)
elf_validate_loaded_iff_example = elf_validate_loaded_iff (header_at small 0)

small-starts :
    (j : ℕ)
    → j < (header_at small 0).e_phnum
    → (program_headers small 0 j).p_type ≡ 1
    → 0 < (program_headers small 0 j).p_vaddr
unfolding header_at phdr_at elf_program_header elf_pheader small
small-starts j b t = let z : j ≡ 0 = omega arith in rw z (omega arith)

elf_process_pheaders-IsBounds_example :
    IsBounds 0
      (program_headers small 0)
      (header_at small 0).e_phnum
      (elf_process_pheaders small (new_elf_file 0))
elf_process_pheaders-IsBounds_example = elf_process_pheaders-IsBounds small 0 small-starts
