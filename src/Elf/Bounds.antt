-- ===== src/Elf/Bounds.antt =====
-- The addresses that the segments cover.
use maer_os.Common.{
  ℕ, zero, suc, ◌+◌, ◌≤◌, ◌<◌, ◌≡◌, ◌≢◌, ◌⊎◌, inl, inr, refl, sym, ◌∙◌, subst, true, ◌==◌, ==_false,
  arith, u32, ℕ_discrete,
}
use maer_os.Memory.{Memory}
use maer_os.Elf.{
  Elf32Phdr, ElfFile, header_at, elf_program_header, elf_process_pheader, pheaders_loop,
  elf_process_pheaders, new_elf_file,
}
use maer_os.Elf.Steps.{segment_end, BaseStep, EndStep, Step, load-Step}

-- What the addresses say of the first `n` program headers: the start is the lowest start of a segment
-- to be loaded, and the end the highest end, each with the place of that
-- segment in memory; both are 0 if there is none.
pub record IsBounds (mem : ℕ) (segments : ℕ → Elf32Phdr) (n : ℕ) (f : ElfFile) : Type 0 where
  pub same_memory : f.elf_memory ≡ mem
  pub base_le :
      (j : ℕ) → j < n → (segments j).p_type ≡ 1 → f.virtual_base_address ≤ (segments j).p_vaddr
  pub end_ge :
      (j : ℕ) → j < n → (segments j).p_type ≡ 1 → segment_end (segments j) ≤ f.virtual_end_address
  pub base_of :
      ((j : ℕ) × (j < n)
        × ((segments j).p_type ≡ 1)
        × (f.virtual_base_address ≡ (segments j).p_vaddr)
        × (f.physical_base_address ≡ u32 (mem + (segments j).p_offset)))
      ⊎ ((f.virtual_base_address ≡ 0) × ((j : ℕ) → j < n → (segments j).p_type ≢ 1))
  pub end_of :
      ((j : ℕ) × (j < n)
        × ((segments j).p_type ≡ 1)
        × (f.virtual_end_address ≡ segment_end (segments j))
        × (f.physical_end_address ≡ u32 (mem + (segments j).p_offset + (segments j).p_filesz)))
      ⊎ ((f.virtual_end_address ≡ 0) × ((j : ℕ) → j < n → (segments j).p_type ≢ 1))

-- A fact about the segments below `suc n` from those below `n` and the one at `n`.
below_suc : {P : ℕ → Type 0} (n : ℕ) → ((j : ℕ) → j < n → P j) → P n → (j : ℕ) → j < suc n → P j
below_suc {P} n f last j b = elim (ℕ_discrete j n) [
  | yes e ↦ subst P (sym e) last
  | no d ↦ f j (omega (arith, d))
]

module _ (mem count : ℕ) (segments : ℕ → Elf32Phdr)
    (starts : (j : ℕ) → j < count → (segments j).p_type ≡ 1 → 0 < (segments j).p_vaddr) where
  -- Where an earlier segment is loaded, the start was set.
  base_set :
      (n : ℕ) (f : ElfFile)
      → IsBounds mem segments n f
      → n ≤ count
      → (j : ℕ) → j < n
      → (segments j).p_type ≡ 1
      → 0 < f.virtual_base_address
  base_set n f v m j b t = elim v.base_of [
    | inl (k, c, u, e, p) ↦ let q = starts k (omega arith) u in omega arith
    | inr (z, none) ↦ absurd (none j b t)
  ]

  load-IsBounds :
      (n : ℕ) (f f' : ElfFile)
      → IsBounds mem segments n f
      → n ≤ count
      → (segments n).p_type ≡ 1
      → Step f (segments n) f'
      → IsBounds mem segments (suc n) f'
  unfolding BaseStep EndStep
  load-IsBounds n f f' v m l s =
      let mem_same = v.same_memory in
      record {
        same_memory = s.same_memory ∙ v.same_memory;
        base_le =
            below_suc n
              (λ j b t.
                let old = v.base_le j b t in
                let set = base_set n f v m j b t in
                elim s.base_step [
                  | inl (e, p, c) ↦ elim c [ inl d ↦ omega arith | inr z ↦ omega arith ]
                  | inr (e, p, d, q) ↦ omega arith
                ])
              (λ t. elim s.base_step [
                | inl (e, p, c) ↦ omega arith
                | inr (e, p, d, q) ↦ omega arith
              ]);
        end_ge =
            below_suc n
              (λ j b t.
                let old = v.end_ge j b t in
                elim s.end_step [ inl (e, p, c) ↦ omega arith | inr (e, p, d) ↦ omega arith ])
              (λ t. elim s.end_step [ inl (e, p, c) ↦ omega arith | inr (e, p, d) ↦ omega arith ]);
        base_of = elim s.base_step [
          | inl (e, p, c) ↦ inl (n, omega arith, l, e, rw (← mem_same) p)
          | inr (e, p, d, q) ↦ elim v.base_of [
            | inl (k, c, u, e', p') ↦ inl (k, omega arith, u, e ∙ e', p ∙ p')
            | inr (z, none) ↦ absurd (omega arith)
          ]
        ];
        end_of = elim s.end_step [
          | inl (e, p, c) ↦ inl (n, omega arith, l, e, rw (← mem_same) p)
          | inr (e, p, d) ↦ elim v.end_of [
            | inl (k, c, u, e', p') ↦ inl (k, omega arith, u, e ∙ e', p ∙ p')
            | inr (z, none) ↦ absurd (omega arith)
          ]
        ];
      }

  other-IsBounds :
      (n : ℕ) (f : ElfFile)
      → IsBounds mem segments n f
      → (segments n).p_type ≢ 1
      → IsBounds mem segments (suc n) f
  other-IsBounds n f v o = record {
    same_memory = v.same_memory;
    base_le = below_suc n v.base_le (λ t. absurd (o t));
    end_ge = below_suc n v.end_ge (λ t. absurd (o t));
    base_of = elim v.base_of [
      | inl (k, c, u, e, p) ↦ inl (k, omega arith, u, e, p)
      | inr (z, none) ↦ inr (z, below_suc n none o)
    ];
    end_of = elim v.end_of [
      | inl (k, c, u, e, p) ↦ inl (k, omega arith, u, e, p)
      | inr (z, none) ↦ inr (z, below_suc n none o)
    ];
  }

  next-IsBounds :
      (n : ℕ) (f : ElfFile)
      → IsBounds mem segments n f
      → n ≤ count
      → IsBounds mem segments (suc n) (elf_process_pheader f (segments n))
  unfolding elf_process_pheader
  next-IsBounds n f v m = elim (ℕ_discrete (segments n).p_type 1) [
    | yes l ↦
        let t : ((segments n).p_type == 1) ≡ true = rw l refl in
        rw (t, elf_process_pheader) (load-IsBounds n f _ v m l (load-Step f (segments n)))
    | no o ↦ rw (==_false (segments n).p_type 1 o, elf_process_pheader) (other-IsBounds n f v o)
  ]

-- Of the `e_phnum` program headers at `e_phoff` behind the file's address.
abbrev pub program_headers : Memory → ℕ → ℕ → Elf32Phdr
program_headers m mem = elf_program_header m mem (header_at m mem)

module _ (m : Memory) (mem : ℕ)
    (starts : (j : ℕ)
      → j < (header_at m mem).e_phnum
      → (program_headers m mem j).p_type ≡ 1
      → 0 < (program_headers m mem j).p_vaddr) where
  loop-IsBounds :
      (left i : ℕ) (f : ElfFile)
      → IsBounds mem (program_headers m mem) i f
      → i + left ≤ (header_at m mem).e_phnum
      → IsBounds mem (program_headers m mem) (i + left) (pheaders_loop m (header_at m mem) left i f)
  unfolding pheaders_loop
  loop-IsBounds zero i f v c = let e : i + 0 ≡ i = omega arith in rw e v
  loop-IsBounds (suc left) i f v c =
      let e : i + suc left ≡ i + 1 + left = omega arith in
      let n : suc i ≡ i + 1 = omega arith in
      let headers = program_headers m mem in
      let next : ℕ → ElfFile =
        λ k. elf_process_pheader f (elf_program_header m k (header_at m mem) i) in
      let after =
        subst (λ k. IsBounds mem headers k (next mem)) n
          (next-IsBounds mem (header_at m mem).e_phnum headers starts i f v (omega arith)) in
      subst
        (λ (k : ℕ).
          IsBounds mem headers (i + suc left)
            (pheaders_loop m (header_at m mem) left (i + 1) (next k)))
        (sym v.same_memory)
        (subst
          (λ k. IsBounds mem headers k (pheaders_loop m (header_at m mem) left (i + 1) (next mem)))
          (sym e) (loop-IsBounds left (i + 1) (next mem) after (omega arith)))

  -- The program headers of a file whose loaded segments do not start at address 0 give the lowest
  -- start and the highest end of those segments, with their places in memory.
  pub elf_process_pheaders-IsBounds :
      IsBounds mem
        (program_headers m mem)
        (header_at m mem).e_phnum
        (elf_process_pheaders m (new_elf_file mem))
  unfolding elf_process_pheaders
  elf_process_pheaders-IsBounds =
      let n = (header_at m mem).e_phnum in
      let z : 0 + n ≡ n = omega arith in
      subst
        (λ k.
          IsBounds mem (program_headers m mem) k
            (pheaders_loop m (header_at m mem) n 0 (new_elf_file mem)))
        z
        (loop-IsBounds n 0 (new_elf_file mem)
          (record {
            same_memory = refl;
            base_le = λ j b t. absurd (omega arith);
            end_ge = λ j b t. absurd (omega arith);
            base_of = inr (refl, λ j b t. absurd (omega arith));
            end_of = inr (refl, λ j b t. absurd (omega arith));
          })
          (omega arith))
