-- ===== src/Process/Mapping/Binary.antt =====
-- The address space of a process with a binary program.
use maer_os.Common.{
  ℕ, ◌+◌, ◌-◌, ◌%◌, ◌^◌, ◌≤◌, ◌<◌, ◌≡◌, refl, ap, ◌∙◌, u32, arith, inr, subst, Status, all_ok,
}
use maer_os.Memory.{Memory}
use maer_os.Paging.{Words, paging_align_address, paging_map_to, paging_get_physical_address}
use maer_os.Paging.Slots.{IsDirectory}
use maer_os.Paging.Ranges.{
  Mapped, paging_map_to-Mapped, paging_align_address_lem, paging_get_physical_address-Mapped,
}
use maer_os.Elf.{program_virtual_address}
use maer_os.Process.{binary_data, Process, user_page}
use maer_os.Process.Mapping.{
  stack_size, stack_address_end, process_map_binary, map_by_type, process_map_program,
  process_map_memory,
}

-- A program that was loaded as a binary at a page, with a stack of its own.
pub record IsBinary (p : Process) (w : Words) (ptr : ℕ) : Type 0 where
  pub program : p.program ≡ binary_data ptr
  pub directory : IsDirectory w p.page_directory
  pub program_page : ptr % 4096 ≡ 0
  pub stack_page : p.stack % 4096 ≡ 0
  pub program_in_memory : ptr + p.size + 4096 ≤ 2 ^ 32
  pub stack_in_memory : p.stack + stack_size + 4096 ≤ 2 ^ 32
  pub program_in_space : program_virtual_address + p.size + 8192 ≤ 2 ^ 32

module _ (m : Memory) (p : Process) (w : Words) (ptr : ℕ) (v : IsBinary p w ptr) where
  abbrev stop : ℕ
  stop = paging_align_address (u32 (ptr + p.size))

  abbrev bytes : ℕ
  bytes = stop - ptr

  stop_lem : (stop % 4096 ≡ 0) × (ptr + p.size ≤ stop) × (stop < ptr + p.size + 4096)
  stop_lem =
      let b = v.program_in_memory in
      let e : u32 (ptr + p.size) ≡ ptr + p.size = omega arith in
      rw e (paging_align_address_lem (ptr + p.size) (omega arith))

  map_once :
      (words : Words)
      → IsDirectory words p.page_directory
      → (w' : Words) × (process_map_binary p words ≡ w')
        × Mapped words w' p.page_directory program_virtual_address ptr bytes user_page
  unfolding process_map_binary
  map_once words d =
      let (page, up, near) = stop_lem in
      let (a, b, c) : (ptr % 4096 ≡ 0)
          × (ptr + p.size + 4096 ≤ 2 ^ 32)
          × (program_virtual_address + p.size + 8192 ≤ 2 ^ 32) =
        (v.program_page, v.program_in_memory, v.program_in_space) in
      let (w', runs, r) =
        paging_map_to-Mapped p.page_directory user_page program_virtual_address ptr stop d
          (omega arith) a page (omega arith) (omega arith) (omega arith) in
      (w', rw (v.program) (ap (λ (x : Status × Words). x.1) runs), r)

  map_stack :
      (words : Words)
      → IsDirectory words p.page_directory
      → (w' : Words) × ((paging_map_to p.page_directory stack_address_end p.stack
            (paging_align_address (u32 (p.stack + stack_size)))
            user_page
            words).1
          ≡ w')
        × Mapped words w' p.page_directory stack_address_end p.stack stack_size user_page
  map_stack words d =
      let (a, b) : (p.stack % 4096 ≡ 0) × (p.stack + stack_size + 4096 ≤ 2 ^ 32) =
        (v.stack_page, v.stack_in_memory) in
      let (page, up, near) = paging_align_address_lem (p.stack + stack_size) b in
      let e : u32 (p.stack + stack_size) ≡ p.stack + stack_size = omega arith in
      let f : paging_align_address (p.stack + stack_size) ≡ p.stack + stack_size = omega arith in
      let size : p.stack + stack_size - p.stack ≡ stack_size = omega arith in
      let (w', runs, r) =
        paging_map_to-Mapped p.page_directory user_page stack_address_end p.stack
          (p.stack + stack_size) d (omega arith) a (omega arith) (omega arith) (omega arith)
          (omega arith) in
      (
        w',
        ap (λ k. (paging_map_to p.page_directory stack_address_end p.stack k user_page words).1)
              (ap paging_align_address e ∙ f)
            ∙ ap (λ (x : Status × Words). x.1) runs,
        subst (λ (k : ℕ). Mapped words w' p.page_directory stack_address_end p.stack k user_page)
            size r,
      )

  program_run :
      (w1 w2 : Words)
      → process_map_binary p w ≡ w1
      → process_map_binary p w1 ≡ w2
      → process_map_program m p w ≡ (all_ok, w2)
  unfolding process_map_program map_by_type
  program_run w1 w2 e1 e2 =
      ap (λ t. map_by_type t m p (process_map_binary p w)) v.program
      ∙ ap (λ x. (all_ok, x)) (ap (process_map_binary p) e1 ∙ e2)

  map_run :
      (w1 w2 w3 : Words)
      → process_map_binary p w ≡ w1
      → process_map_binary p w1 ≡ w2
      → (paging_map_to p.page_directory stack_address_end p.stack
          (paging_align_address (u32 (p.stack + stack_size)))
          user_page
          w2).1
        ≡ w3
      → process_map_memory m p w ≡ (all_ok, w3)
  unfolding process_map_memory
  map_run w1 w2 w3 e1 e2 e3 =
      let run = program_run w1 w2 e1 e2 in
      rw (run, process_map_memory)
        (ap
            (λ (x : Status × Words). (
              all_ok,
              (paging_map_to p.page_directory stack_address_end p.stack
                  (paging_align_address (u32 (p.stack + stack_size))) user_page x.1).1,
            ))
            run
          ∙ ap (λ x. (all_ok, x)) e3)

  -- Every byte of the program is found behind 0x400000 and every byte of the stack behind its virtual
  -- address, each in its own memory.
  pub process_map_memory-IsBinary :
      (w' : Words) × (process_map_memory m p w ≡ (all_ok, w'))
      × ((k : ℕ)
          → k < p.size
          → paging_get_physical_address p.page_directory (program_virtual_address + k) w' ≡ ptr + k)
      × ((k : ℕ)
          → k < stack_size
          → paging_get_physical_address p.page_directory (stack_address_end + k) w' ≡ p.stack + k)
  process_map_memory-IsBinary =
      let (w1, e1, r1) = map_once w v.directory in
      let (w2, e2, r2) = map_once w1 r1.directory in
      let (w3, e3, r3) = map_stack w2 r2.directory in
      let (page, up, near) = stop_lem in
      let (a, b, c) : (ptr % 4096 ≡ 0)
          × (ptr + p.size + 4096 ≤ 2 ^ 32)
          × (program_virtual_address + p.size + 8192 ≤ 2 ^ 32) =
        (v.program_page, v.program_in_memory, v.program_in_space) in
      let (g, h) : (p.stack % 4096 ≡ 0) × (p.stack + stack_size + 4096 ≤ 2 ^ 32) =
        (v.stack_page, v.stack_in_memory) in
      let program : Mapped w3 w3 p.page_directory program_virtual_address ptr bytes user_page =
        record {
          directory = r3.directory;
          inside = λ q x y z. r3.outside q (omega arith) x (inr (omega arith)) ∙ r2.inside q x y z;
          outside = λ q x y z. refl;
        } in
      (
        w3,
        map_run w1 w2 w3 e1 e2 e3,
        (λ k q.
            paging_get_physical_address-Mapped (program_virtual_address + k) program (omega arith)
              (omega arith) a (omega arith) (omega arith) (omega arith) (omega arith) (omega arith)
            ∙ omega arith),
        (λ k q.
            paging_get_physical_address-Mapped (stack_address_end + k) r3 (omega arith)
              (omega arith) g (omega arith) (omega arith) (omega arith) (omega arith) (omega arith)
            ∙ omega arith),
      )
