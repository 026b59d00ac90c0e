-- ===== src/Elf/Checks.antt =====
-- Which files the loader accepts.
use maer_os.Common.{◌≡◌, ◌≢◌, ◌↔◌, ◌⊎◌, arith, all_ok}
use maer_os.Elf.{
  ElfHeader, elf_valid_signature, elf_valid_class, elf_valid_encoding, elf_has_program_header,
  elf_validate_loaded,
}

-- What the loader requires of a header.
pub record IsAccepted (h : ElfHeader) : Type 0 where
  pub magic : (h.e_ident 0 ≡ 0x7f) × (h.e_ident 1 ≡ 69) × (h.e_ident 2 ≡ 76) × (h.e_ident 3 ≡ 70)
  pub class : (h.e_ident 4 ≡ 0) ⊎ (h.e_ident 4 ≡ 1)
  pub encoding : (h.e_ident 5 ≡ 0) ⊎ (h.e_ident 5 ≡ 1)
  pub headers : h.e_phoff ≢ 0

-- A file is accepted exactly when it has the signature, the 32-bit class, the little-endian encoding,
-- the last two of which may be left open, and program headers; neither the type nor the entry point
-- is looked at.
pub elf_validate_loaded_iff : (h : ElfHeader) → (elf_validate_loaded h ≡ all_ok) ↔ IsAccepted h
unfolding elf_validate_loaded elf_valid_signature elf_valid_class elf_valid_encoding
    elf_has_program_header
elf_validate_loaded_iff h = (
  λ e. record {
    magic = ground arith;
    class = ground arith;
    encoding = ground arith;
    headers = ground arith;
  },
  λ v.
      let m = v.magic in let c = v.class in let d = v.encoding in let p = v.headers in ground arith,
)
