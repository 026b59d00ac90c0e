-- ===== src/Loader/Program.antt =====
-- src/task/process.c: the loading of a program into a process with its task, and its end.
pub mod Slots
pub mod Data
pub mod Missing
use maer_os.Common.{
  ℕ, zero, suc, ◌+◌, ◌*◌, Bool, true, false, Option, none, some, List, [], ◌∷◌, replicate, ◌==◌,
  if◌then◌else◌, ℤ, pos, negsuc, Status, all_ok, eio, einvarg, enomem, eistkn, einformat,
}
use maer_os.Memory.{Memory}
use maer_os.Paging.{paging_new_4gb}
use maer_os.File.{FileSystem, FileStat, fopen, fstat, fread}
use maer_os.Elf.{ElfFile, header_at, program_virtual_address}
use maer_os.Idt.{Registers}
use maer_os.Task.{Tasks, task_new}
use maer_os.Process.{
  Process, ProgramData, elf_data, binary_data, Store, unused_allocation, max_program_allocations,
  free_in, task_free, process_free_program_data, process_terminate_allocations,
}
use maer_os.Process.Arguments.{write_bytes}
use maer_os.Process.Mapping.{stack_size, process_map_memory}
use maer_os.Process.Table.{
  Processes, process_get, process_switch, process_get_free_slot, add_process, process_unlink,
}
use maer_os.Loader.{code, Files, alloc, read_mode, elf_load, close_load, process_size, task_size}
use maer_os.Loader.NewTasks.{NewTask, new_task, task_init}

-- A program that was read, with the size that is kept for a binary one.
abbrev pub Program : Type 0
Program = ProgramData × ℕ

-- What the loading of a program changes.
pub record Machine (F : Type 0) : Type 0 where
  pub files : Files F
  pub tasks : Tasks
  pub processes : Processes

-- A process at its address, with its task.
pub record Loaded : Type 0 where
  pub address : ℕ
  pub process : Process
  pub task : NewTask

abbrev pub new_process : ℕ → NewTask → Program → ℕ → Process
new_process id task (program, size) stack = record {
  id = id;
  task = task.address;
  page_directory = task.directory;
  allocations = replicate max_program_allocations unused_allocation;
  program = program;
  stack = stack;
  size = size;
  argc = 0;
  argv = 0;
}

module _ {F : Type 0} (fs : FileSystem F) where
  -- `process_load_binary` behind the read of the file into `ptr`; any other number than 1 of blocks is
  -- -EIO, and the memory is freed.
  pub binary_read : ℤ → ℕ → ℕ → ℤ × List ℕ × F → Files F → Option (ℤ × Option Program × Files F)
  binary_read fd ptr size (res, bytes, f) l =
      let store : Store = record (l.store) { memory = write_bytes ptr bytes l.store.memory } in
      elim res [
        | pos (suc zero) ↦
            close_load fs fd (pos 0) (some (binary_data ptr, size))
              (record l { store = store; files = f })
        | other ↦ elim (free_in ptr store) [
          | none ↦ none
          | some store' ↦ close_load fs fd (code eio) none (record l { store = store'; files = f })
        ]
      ]

  -- Behind `fstat`: with an error the pointer that is freed is not initialised.
  pub binary_stat : ℤ → ℤ × Option FileStat → Files F → Option (ℤ × Option Program × Files F)
  binary_stat fd (pos zero, some stat) l = elim (alloc stat.filesize l.store) [
    | none ↦ none
    | some (zero, store) ↦ close_load fs fd (code enomem) none (record l { store = store })
    | some (suc n, store) ↦
        binary_read fd (suc n) stat.filesize (fread fs stat.filesize 1 fd l.descriptors l.files)
          (record l { store = store })
  ]
  binary_stat fd (pos zero, none) l = none
  binary_stat fd (pos (suc n), stat) l = close_load fs fd (pos (suc n)) none l
  binary_stat fd (negsuc n, stat) l = none

  pub process_load_binary : List ℕ → Files F → Option (ℤ × Option Program × Files F)
  process_load_binary filename l = elim (fopen fs filename read_mode l.descriptors l.files) [
    | none ↦ none
    | some (zero, ds, f) ↦ none
    | some (suc fd, ds, f) ↦
        binary_stat (pos (suc fd)) (fstat fs (pos (suc fd)) ds f)
          (record l { descriptors = ds; files = f })
  ]

  -- A file that is no ELF file is loaded as a binary one.
  pub elf_or_binary :
      List ℕ → Option (ℤ × Option (ℕ × ElfFile) × Files F) → Option (ℤ × Option Program × Files F)
  elf_or_binary filename none = none
  elf_or_binary filename (some (res, some (file, elf), l)) =
      some (res, some (elf_data file elf, 0), l)
  elf_or_binary filename (some (pos n, none, l)) = some (pos n, none, l)
  elf_or_binary filename (some (negsuc n, none, l)) =
      if n == 8 then process_load_binary filename l else some (negsuc n, none, l)

  pub process_load_data : List ℕ → Files F → Option (ℤ × Option Program × Files F)
  process_load_data filename l = elf_or_binary filename (elf_load fs filename l)

  abbrev pub refused : ℤ → Machine F → Files F → Option (ℤ × Option Loaded × Machine F)
  refused res m l = some (res, none, record m { files = l })

  -- The way out with an error behind the task: it is freed.
  pub failed_load : ℤ → Loaded → Machine F → Option (ℤ × Option Loaded × Machine F)
  failed_load res p m =
      elim (task_free p.task.chunk p.task.directory p.task.address m.tasks m.files.store) [
        | none ↦ none
        | some (tasks, store) ↦
            refused res (record m { tasks = tasks }) (record (m.files) { store = store })
      ]

  -- The end of `process_load_for_slot`, by what the mapping returned: the process goes to its slot, or
  -- its task is freed.
  pub finish_load : ℕ → Loaded → Status → Machine F → Option (ℤ × Option Loaded × Machine F)
  finish_load slot p all_ok m =
      some (pos 0, some p, record m { processes = add_process slot p.address m.processes })
  finish_load slot p err m = failed_load (code err) p m

  -- With the task on the list: the program and the stack are mapped.
  pub map_load : ℕ → Loaded → Machine F → Option (ℤ × Option Loaded × Machine F)
  map_load slot p m =
      let store = m.files.store in
      let mapped = process_map_memory store.memory p.process store.words in
      finish_load slot p mapped.0
        (record m { files = record (m.files) { store = record store { words = mapped.1 } } })

  -- With the program and the stack: the task is allocated and joins the list of tasks.
  pub task_load : ℕ → ℕ → Program → ℕ → Files F → Machine F → Option (ℤ × Option Loaded × Machine F)
  task_load slot process program stack l m = elim (new_task program.0 l.store) [
    | none ↦ none
    | some (task, store) ↦ elim (task_new task.address m.tasks) [
      | none ↦ none
      | some tasks ↦
          map_load slot
            (record {
              address = process;
              process = new_process slot task program stack;
              task = task;
            })
            (record m { files = record l { store = store }; tasks = tasks })
    ]
  ]

  -- Behind `process_load_data`: an error leaves the process's memory allocated. A number from 0 on
  -- without a program leaves a null program.
  pub program_load :
      ℕ → ℕ → ℤ × Option Program × Files F → Machine F → Option (ℤ × Option Loaded × Machine F)
  program_load slot process (negsuc n, program, l) m = refused (negsuc n) m l
  program_load slot process (pos n, none, l) m = none
  program_load slot process (pos n, some program, l) m = elim (alloc stack_size l.store) [
    | none ↦ none
    | some (zero, store) ↦ refused (code enomem) m (record l { store = store })
    | some (suc stack, store) ↦
        task_load slot process program (suc stack) (record l { store = store }) m
  ]

  -- A slot that is taken ends it with an uninitialised process.
  pub process_load_for_slot : List ℕ → ℕ → Machine F → Option (ℤ × Option Loaded × Machine F)
  process_load_for_slot filename slot m = elim (process_get (pos slot) m.processes) [
    | some taken ↦ none
    | none ↦ elim (alloc process_size m.files.store) [
      | none ↦ none
      | some (zero, store) ↦ refused (code enomem) m (record (m.files) { store = store })
      | some (suc process, store) ↦
          elim (process_load_data filename (record (m.files) { store = store })) [
            | none ↦ none
            | some loaded ↦ program_load slot (suc process) loaded m
          ]
    ]
  ]

  pub process_load : List ℕ → Machine F → Option (ℤ × Option Loaded × Machine F)
  process_load filename m = elim (process_get_free_slot m.processes) [
    | none ↦ some (code eistkn, none, m)
    | some slot ↦ process_load_for_slot filename slot m
  ]

  abbrev pub switched :
      Option (ℤ × Option Loaded × Machine F) → Option (ℤ × Option Loaded × Machine F)
  switched none = none
  switched (some (res, none, m)) = some (res, none, m)
  switched (some (res, some p, m)) =
      some (res, some p, record m { processes = process_switch p.address m.processes })

  -- The process becomes the current one if there is one, which is when 0 is returned.
  pub process_load_switch : List ℕ → Machine F → Option (ℤ × Option Loaded × Machine F)
  process_load_switch filename m = switched (process_load filename m)

-- What the end of a process changes.
pub record Running : Type 0 where
  pub store : Store
  pub tasks : Tasks
  pub processes : Processes

-- Behind the program's data: the stack, the task and the slot.
pub terminate_rest : Loaded → Running → Option Running
terminate_rest p r = elim (free_in p.process.stack r.store) [
  | none ↦ none
  | some s1 ↦ elim (task_free p.task.chunk p.task.directory p.task.address r.tasks s1) [
    | none ↦ none
    | some (tasks, s2) ↦ elim (process_unlink p.process.id p.address r.processes) [
      | none ↦ none
      | some processes ↦ some (record { store = s2; tasks = tasks; processes = processes })
    ]
  ]
]

pub process_terminate : Loaded → Running → Option Running
process_terminate p r = elim (process_terminate_allocations p.process r.store) [
  | none ↦ none
  | some (process, s1) ↦ elim (process_free_program_data process s1) [
    | none ↦ none
    | some s2 ↦ terminate_rest (record p { process = process }) (record r { store = s2 })
  ]
]
