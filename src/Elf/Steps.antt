-- ===== src/Elf/Steps.antt =====
-- What one segment changes of the addresses.
use maer_os.Common.{
  ℕ, ◌+◌, ◌≤◌, ◌<◌, ◌≡◌, ◌⊎◌, inl, inr, refl, ◌∙◌, ◌==◌, ◌||◌, leb, arith, u32, Bool-cases,
}
use maer_os.Elf.{Elf32Phdr, ElfFile, lower_base, raise_end, elf_process_phdr_pt_load}

-- The end of a segment in the file's addresses.
abbrev pub segment_end : Elf32Phdr → ℕ
segment_end phdr = u32 (phdr.p_vaddr + phdr.p_filesz)

-- The new start is the segment's, which is then not above the old one, or it is the old one, below it.
unfoldable pub BaseStep : ℕ → ℕ → ℕ → Elf32Phdr → ℕ → ℕ → Type 0
BaseStep mem vb pb phdr vb' pb' =
    ((vb' ≡ phdr.p_vaddr) × (pb' ≡ u32 (mem + phdr.p_offset)) × ((phdr.p_vaddr ≤ vb) ⊎ (vb ≡ 0)))
    ⊎ ((vb' ≡ vb) × (pb' ≡ pb) × (vb < phdr.p_vaddr) × (0 < vb))

-- The same of the ends, the other way round.
unfoldable pub EndStep : ℕ → ℕ → ℕ → Elf32Phdr → ℕ → ℕ → Type 0
EndStep mem ve pe phdr ve' pe' =
    ((ve' ≡ segment_end phdr)
      × (pe' ≡ u32 (mem + phdr.p_offset + phdr.p_filesz))
      × (ve ≤ segment_end phdr))
    ⊎ ((ve' ≡ ve) × (pe' ≡ pe) × (segment_end phdr < ve))

pub record Step (f : ElfFile) (phdr : Elf32Phdr) (f' : ElfFile) : Type 0 where
  pub same_memory : f'.elf_memory ≡ f.elf_memory
  pub base_step :
      BaseStep f.elf_memory f.virtual_base_address f.physical_base_address phdr
        f'.virtual_base_address f'.physical_base_address
  pub end_step :
      EndStep f.elf_memory f.virtual_end_address f.physical_end_address phdr f'.virtual_end_address
        f'.physical_end_address

-- The first test changes the start alone.
record Lowered (f : ElfFile) (phdr : Elf32Phdr) (f' : ElfFile) : Type 0 where
  same_memory : f'.elf_memory ≡ f.elf_memory
  same_end : f'.virtual_end_address ≡ f.virtual_end_address
  same_phys : f'.physical_end_address ≡ f.physical_end_address
  base_step :
      BaseStep f.elf_memory f.virtual_base_address f.physical_base_address phdr
        f'.virtual_base_address f'.physical_base_address

record Raised (f : ElfFile) (phdr : Elf32Phdr) (f' : ElfFile) : Type 0 where
  same_memory : f'.elf_memory ≡ f.elf_memory
  same_base : f'.virtual_base_address ≡ f.virtual_base_address
  same_phys : f'.physical_base_address ≡ f.physical_base_address
  end_step :
      EndStep f.elf_memory f.virtual_end_address f.physical_end_address phdr f'.virtual_end_address
        f'.physical_end_address

lower_base-Lowered : (f : ElfFile) (phdr : Elf32Phdr) → Lowered f phdr (lower_base f phdr)
unfolding lower_base BaseStep
lower_base-Lowered f phdr =
    elim (Bool-cases (leb phdr.p_vaddr f.virtual_base_address || f.virtual_base_address == 0x00)) [
      | inl a ↦
          let c : (phdr.p_vaddr ≤ f.virtual_base_address) ⊎ (f.virtual_base_address ≡ 0) =
            ground arith in
          rw (a, lower_base)
            (record {
              same_memory = refl;
              same_end = refl;
              same_phys = refl;
              base_step = inl (refl, refl, c);
            })
      | inr a ↦
          let c : f.virtual_base_address < phdr.p_vaddr = ground arith in
          let d : 0 < f.virtual_base_address = ground arith in
          rw (a, lower_base)
            (record {
              same_memory = refl;
              same_end = refl;
              same_phys = refl;
              base_step = inr (refl, refl, c, d);
            })
    ]

raise_end-Raised : (f : ElfFile) (phdr : Elf32Phdr) → Raised f phdr (raise_end f phdr)
unfolding raise_end EndStep
raise_end-Raised f phdr =
    elim (Bool-cases
      (leb f.virtual_end_address (segment_end phdr) || f.virtual_end_address == 0x00)) [
        | inl a ↦
            let c : f.virtual_end_address ≤ segment_end phdr = ground arith in
            rw (a, raise_end)
              (record {
                same_memory = refl;
                same_base = refl;
                same_phys = refl;
                end_step = inl (refl, refl, c);
              })
        | inr a ↦
            let c : segment_end phdr < f.virtual_end_address = ground arith in
            rw (a, raise_end)
              (record {
                same_memory = refl;
                same_base = refl;
                same_phys = refl;
                end_step = inr (refl, refl, c);
              })
      ]

both :
    (f f' f'' : ElfFile) (phdr : Elf32Phdr)
    → Lowered f phdr f'
    → Raised f' phdr f''
    → Step f phdr f''
both f f' f'' phdr l r = record {
  same_memory = r.same_memory ∙ l.same_memory;
  base_step = rw (r.same_base, r.same_phys) l.base_step;
  end_step = rw (← l.same_end, ← l.same_phys, ← l.same_memory) r.end_step;
}

pub load-Step : (f : ElfFile) (phdr : Elf32Phdr) → Step f phdr (elf_process_phdr_pt_load f phdr)
unfolding elf_process_phdr_pt_load
load-Step f phdr =
    both f _ _ phdr (lower_base-Lowered f phdr) (raise_end-Raised (lower_base f phdr) phdr)
