-- ===== src/Loader/Program/Missing.antt =====
-- src/task/process.c: a program whose file cannot be opened.
use maer_os.Common.{ℕ, suc, ◌≡◌, refl, ap, none, some, List, pos, negsuc}
use maer_os.File.{FileSystem, Descriptors, fopen, fclose, file_get_descriptor}
use maer_os.Process.{Store}
use maer_os.Process.Table.{process_get, process_get_free_slot}
use maer_os.Loader.{code, alloc, read_mode, elf_file_size, process_size, close_load, elf_load}
use maer_os.Loader.Program.{
  Machine, elf_or_binary, process_load_data, program_load, process_load_for_slot, process_load,
}

module _ {F : Type 0} (fs : FileSystem F) (filename : List ℕ) (ds ds' : Descriptors) (f f' : F)
    (file : ℕ) (s s' : Store) (a : alloc elf_file_size s ≡ some (file, s'))
    (o : fopen fs filename read_mode ds f ≡ some (0, ds', f')) where
  elf_load_missing :
      elf_load fs filename (record { store = s; descriptors = ds; files = f })
      ≡ some (negsuc 0, none, record { store = s'; descriptors = ds'; files = f' })
  unfolding elf_load close_load fclose file_get_descriptor code
  elf_load_missing = rw (a, elf_load) (rw o refl)

  data_missing :
      process_load_data fs filename (record { store = s; descriptors = ds; files = f })
      ≡ some (negsuc 0, none, record { store = s'; descriptors = ds'; files = f' })
  unfolding process_load_data elf_or_binary
  data_missing = ap (elf_or_binary fs filename) elf_load_missing

-- With a free slot and memory for the process, a file that cannot be opened ends the loading with -EIO:
-- no process and no task is added, and the memory of the process and of the ELF structure stays
-- allocated.
pub process_load_missing :
    {F : Type 0} (fs : FileSystem F) (filename : List ℕ) (m : Machine F) (slot process file : ℕ)
    (s1 s2 : Store) (ds : Descriptors) (f : F)
    → process_get_free_slot m.processes ≡ some slot
    → process_get (pos slot) m.processes ≡ none
    → alloc process_size m.files.store ≡ some (suc process, s1)
    → alloc elf_file_size s1 ≡ some (file, s2)
    → fopen fs filename read_mode m.files.descriptors m.files.files ≡ some (0, ds, f)
    → process_load fs filename m
      ≡ some
          (negsuc 0, none, record m { files = record { store = s2; descriptors = ds; files = f } })
unfolding process_load process_load_for_slot program_load
process_load_missing fs filename m slot process file s1 s2 ds f free empty a b o =
    rw (free, process_load)
      (rw (empty, process_load_for_slot)
        (rw a (
          rw (data_missing fs filename m.files.descriptors ds m.files.files f file s1 s2 b o)
            refl)))
