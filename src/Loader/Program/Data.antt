-- ===== src/Loader/Program/Data.antt =====
-- src/task/process.c and src/loader/formats/elfloader.c: the data of a file that the file system serves.
use maer_os.Common.{
  ℕ, suc, ◌≡◌, refl, ap, ◌∙◌, Option, none, some, List, length, ℤ, pos, negsuc, Status, all_ok,
  einformat, arith, if_ne,
}
use maer_os.File.{FileSystem, FileStat, Descriptors, fopen, fclose, fstat, fread}
use maer_os.Elf.{
  ElfFile, new_elf_file, header_at, elf_validate_loaded, elf_process_pheaders, elf_process_loaded,
}
use maer_os.Process.{Store, elf_data, binary_data}
use maer_os.Process.Arguments.{write_bytes}
use maer_os.Loader.{
  code, Files, alloc, read_mode, elf_file_size, close_load, elf_load_check, elf_load_read,
  elf_load_stat, elf_load,
}
use maer_os.Loader.Program.{
  binary_read, binary_stat, process_load_binary, elf_or_binary, process_load_data,
}

-- A file that the file system serves in every state that is ready: it is opened for reading with a
-- number, has its size and is read whole while it is open, and closing it gives the table of descriptors
-- and a state that is ready back.
pub record IsServed {F : Type 0} (fs : FileSystem F) (Ready Open : F → Type 0)
    (filename bytes : List ℕ) (fd : ℕ) (ds open_ds : Descriptors) : Type 0 where
  pub opened :
      (f : F)
      → Ready f
      → (f' : F) × (fopen fs filename read_mode ds f ≡ some (suc fd, open_ds, f')) × Open f'
  pub sized :
      (f : F)
      → Open f
      → (stat : FileStat) × (fstat fs (pos (suc fd)) open_ds f ≡ (pos 0, some stat))
        × (stat.filesize ≡ length bytes)
  pub read :
      (f : F)
      → Open f
      → (f' : F) × (fread fs (length bytes) 1 (pos (suc fd)) open_ds f ≡ (pos 1, bytes, f'))
        × Open f'
  pub closed :
      (f : F)
      → Open f
      → (f' : F) × (res : ℤ) × (fclose fs (pos (suc fd)) open_ds f ≡ (res, ds, f')) × Ready f'

-- The bytes of the file in the memory at an address.
abbrev pub holding : ℕ → List ℕ → Store → Store
holding ptr bytes s = record s { memory = write_bytes ptr bytes s.memory }

module _ {F : Type 0} (fs : FileSystem F) (Ready Open : F → Type 0) (filename bytes : List ℕ)
    (fd : ℕ) (ds open_ds : Descriptors)
    (v : IsServed fs Ready Open filename bytes fd ds open_ds) where
  abbrev files : Store → Descriptors → F → Files F
  files s d f = record { store = s; descriptors = d; files = f }

  close_run :
      {A : Type 0} (res : ℤ) (out : Option A) (s : Store) (f : F)
      → Open f
      → (f' : F) × (close_load fs (pos (suc fd)) res out (files s open_ds f)
          ≡ some (res, out, files s ds f'))
        × Ready f'
  unfolding close_load
  close_run res out s f r =
      let (f', c, e, r') = v.closed f r in
      (f', ap (λ (x : ℤ × Descriptors × F). some (res, out, files s (x.1) (x.2))) e, r')

  load_run :
      (file : ℕ) (s s1 : Store) (f f1 : F)
      → alloc elf_file_size s ≡ some (file, s1)
      → fopen fs filename read_mode ds f ≡ some (suc fd, open_ds, f1)
      → elf_load fs filename (files s ds f)
        ≡ elf_load_stat fs
            (pos (suc fd))
            file
            (fstat fs (pos (suc fd)) open_ds f1)
            (files s1 open_ds f1)
  unfolding elf_load
  load_run file s s1 f f1 a o =
      rw (a, elf_load) (rw o (if_ne (suc fd) 0 _ _ (λ e. omega (arith, e))))

  stat_run :
      (file ptr : ℕ) (stat : FileStat) (s1 s2 : Store) (f1 : F)
      → alloc stat.filesize s1 ≡ some (ptr, s2)
      → elf_load_stat fs (pos (suc fd)) (suc file) (pos 0, some stat) (files s1 open_ds f1)
        ≡ elf_load_read fs
            (pos (suc fd))
            (suc file)
            ptr
            (fread fs stat.filesize 1 (pos (suc fd)) open_ds f1)
            (files s2 open_ds f1)
  unfolding elf_load_stat
  stat_run file ptr stat s1 s2 f1 b = rw (b, elf_load_stat) refl

  elf_run :
      (file n : ℕ) (s s1 s2 : Store) (f : F)
      → Ready f
      → alloc elf_file_size s ≡ some (suc file, s1)
      → alloc (length bytes) s1 ≡ some (suc n, s2)
      → (f' : F) × Open f'
        × (elf_load fs filename (files s ds f)
            ≡ elf_load_check fs
                (pos (suc fd))
                (suc file)
                (suc n)
                (files (holding (suc n) bytes s2) open_ds f'))
  unfolding elf_load_read
  elf_run file n s s1 s2 f r a b =
      let (f1, o, r1) = v.opened f r in
      let (stat, t, z) = v.sized f1 r1 in
      let (f2, d, r2) = v.read f1 r1 in
      let l = files s2 open_ds f1 in
      (
        f2,
        r2,
        load_run (suc file) s s1 f f1 a o
            ∙ ap
                (λ (x : ℤ × Option FileStat).
                  elf_load_stat fs (pos (suc fd)) (suc file) x (files s1 open_ds f1))
                t
            ∙ stat_run file (suc n) stat s1 s2 f1 (ap (λ k. alloc k s1) z ∙ b)
            ∙ ap
                (λ k.
                  elf_load_read fs (pos (suc fd)) (suc file) (suc n)
                    (fread fs k 1 (pos (suc fd)) open_ds f1) l)
                z
            ∙ ap (λ (x : ℤ × List ℕ × F). elf_load_read fs (pos (suc fd)) (suc file) (suc n) x l) d,
      )

  -- What the check of the header gives: the program, or -EINFORMAT.
  check_run :
      (file n : ℕ) (s : Store) (f : F) (res : Status) (elf : ElfFile)
      → elf_process_loaded s.memory (new_elf_file n) ≡ (res, elf)
      → elf_load_check fs (pos (suc fd)) file n (files s open_ds f) ≡ elim res [
        | all_ok ↦ close_load fs (pos (suc fd)) (pos 0) (some (file, elf)) (files s open_ds f)
        | err ↦ close_load fs (pos (suc fd)) (code err) none (files s open_ds f)
      ]
  unfolding elf_load_check
  check_run file n s f res elf e =
      ap
        (λ (x : Status × ElfFile). elim x.0 as (λ y. Option (ℤ × Option (ℕ × ElfFile) × Files F)) [
          | all_ok ↦ close_load fs (pos (suc fd)) (pos 0) (some (file, x.1)) (files s open_ds f)
          | err ↦ close_load fs (pos (suc fd)) (code err) none (files s open_ds f)
        ])
        e

  binary_opened :
      (s : Store) (f f1 : F)
      → fopen fs filename read_mode ds f ≡ some (suc fd, open_ds, f1)
      → process_load_binary fs filename (files s ds f)
        ≡ binary_stat fs (pos (suc fd)) (fstat fs (pos (suc fd)) open_ds f1) (files s open_ds f1)
  unfolding process_load_binary
  binary_opened s f f1 o = rw (o, process_load_binary) refl

  binary_sized :
      (k : ℕ) (stat : FileStat) (s s' : Store) (f1 : F)
      → alloc stat.filesize s ≡ some (suc k, s')
      → binary_stat fs (pos (suc fd)) (pos 0, some stat) (files s open_ds f1)
        ≡ binary_read fs
            (pos (suc fd))
            (suc k)
            stat.filesize
            (fread fs stat.filesize 1 (pos (suc fd)) open_ds f1)
            (files s' open_ds f1)
  unfolding binary_stat
  binary_sized k stat s s' f1 b = rw (b, binary_stat) refl

  binary_run :
      (k : ℕ) (s s' : Store) (f : F)
      → Ready f
      → alloc (length bytes) s ≡ some (suc k, s')
      → (f' : F) × Open f'
        × (process_load_binary fs filename (files s ds f)
            ≡ close_load fs
                (pos (suc fd))
                (pos 0)
                (some (binary_data (suc k), length bytes))
                (files (holding (suc k) bytes s') open_ds f'))
  unfolding binary_read
  binary_run k s s' f r b =
      let (f1, o, r1) = v.opened f r in
      let (stat, t, z) = v.sized f1 r1 in
      let (f2, d, r2) = v.read f1 r1 in
      let l = files s' open_ds f1 in
      (
        f2,
        r2,
        binary_opened s f f1 o
            ∙ ap (λ (x : ℤ × Option FileStat). binary_stat fs (pos (suc fd)) x (files s open_ds f1))
                t
            ∙ binary_sized k stat s s' f1 (ap (λ q. alloc q s) z ∙ b)
            ∙ ap
                (λ q.
                  binary_read fs (pos (suc fd)) (suc k) q (fread fs q 1 (pos (suc fd)) open_ds f1)
                    l)
                z
            ∙ ap (λ (x : ℤ × List ℕ × F). binary_read fs (pos (suc fd)) (suc k) (length bytes) x l)
                d,
      )

  module _ (file n : ℕ) (s s1 s2 : Store) (f : F) (r : Ready f)
      (a : alloc elf_file_size s ≡ some (suc file, s1))
      (b : alloc (length bytes) s1 ≡ some (suc n, s2)) where
    -- The memory that holds the file.
    abbrev pub read_store : Store
    read_store = holding (suc n) bytes s2

    loaded :
        elf_validate_loaded (header_at read_store.memory (suc n)) ≡ all_ok
        → (f' : F) × Ready f'
          × (process_load_data fs filename (files s ds f)
              ≡ some (
                pos 0,
                some (
                  elf_data
                      (suc file)
                      (elf_process_pheaders read_store.memory (new_elf_file (suc n))),
                  0,
                ),
                files read_store ds f',
              ))
    unfolding process_load_data elf_or_binary elf_process_loaded
    loaded e =
        let (f1, r1, run) = elf_run file n s s1 s2 f r a b in
        let elf = elf_process_pheaders read_store.memory (new_elf_file (suc n)) in
        let (f2, closes, r2) = close_run (pos 0) (some (suc file, elf)) read_store f1 r1 in
        let check : elf_process_loaded read_store.memory (new_elf_file (suc n)) ≡ (all_ok, elf) =
          rw (e, elf_process_loaded) refl in
        (
          f2,
          r2,
          ap (elf_or_binary fs filename)
              (run ∙ check_run (suc file) (suc n) read_store f1 all_ok elf check ∙ closes),
        )

    fallback :
        elf_validate_loaded (header_at read_store.memory (suc n)) ≡ einformat
        → (f' : F) × Ready f'
          × (process_load_data fs filename (files s ds f)
              ≡ process_load_binary fs filename (files read_store ds f'))
    unfolding process_load_data elf_or_binary elf_process_loaded code
    fallback e =
        let (f1, r1, run) = elf_run file n s s1 s2 f r a b in
        let out : Option (ℕ × ElfFile) = none in
        let (f2, closes, r2) = close_run (negsuc 8) out read_store f1 r1 in
        let check : elf_process_loaded read_store.memory (new_elf_file (suc n))
            ≡ (einformat, new_elf_file (suc n)) =
          rw (e, elf_process_loaded) refl in
        (
          f2,
          r2,
          ap (elf_or_binary fs filename) (
              run
              ∙ check_run (suc file) (suc n) read_store f1 einformat (new_elf_file (suc n)) check
              ∙ closes),
        )

    -- A file that the file system serves, with memory for the ELF structure and for the file, and a header
    -- that is accepted: 0 is returned with that structure, the bounds of its segments and the file in its
    -- memory, and the table of descriptors is given back.
    pub process_load_data_elf :
        elf_validate_loaded (header_at read_store.memory (suc n)) ≡ all_ok
        → (f' : F) × (process_load_data fs filename (files s ds f)
            ≡ some (
              pos 0,
              some (
                elf_data (suc file) (elf_process_pheaders read_store.memory (new_elf_file (suc n))),
                0,
              ),
              files read_store ds f',
            ))
    process_load_data_elf e = let (f', q, run) = loaded e in (f', run)

    -- A file that the file system serves, with memory for the ELF structure and for its bytes, whose
    -- header is refused as no ELF file, and memory for its bytes a second time: 0 is returned with the
    -- file as a binary program in that second memory, and the table of descriptors is given back. The
    -- heap is the one behind all three allocations: the first two are not freed.
    pub process_load_data_binary :
        (k : ℕ) (s3 : Store)
        → elf_validate_loaded (header_at read_store.memory (suc n)) ≡ einformat
        → alloc (length bytes) read_store ≡ some (suc k, s3)
        → (f' : F) × (process_load_data fs filename (files s ds f)
            ≡ some (
              pos 0,
              some (binary_data (suc k), length bytes),
              files (holding (suc k) bytes s3) ds f',
            ))
    process_load_data_binary k s3 e c =
        let (f1, r1, back) = fallback e in
        let (f2, r2, run) = binary_run k read_store s3 f1 r1 c in
        let (f3, closes, r3) =
          close_run (pos 0) (some (binary_data (suc k), length bytes)) (holding (suc k) bytes s3) f2
            r2 in
        (f3, back ∙ run ∙ closes)
