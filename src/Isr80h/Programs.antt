-- ===== src/Isr80h/Programs.antt =====
-- src/isr80h/process.c: the commands that load a program and end one; src/idt/idt.c: the handlers of an
-- exception and of the clock. `none` is a fault.
use maer_os.Common.{
  ℕ, ◌+◌, Option, none, some, List, [], ◌∷◌, ◌++◌, length, ltb, if◌then◌else◌, ℤ, pos, negsuc,
  Status, all_ok,
}
use maer_os.File.{FileSystem}
use maer_os.Task.{Tasks, task_switch, task_next}
use maer_os.UserMemory.{copy_string_from_task, task_get_stack_item}
use maer_os.Loader.NewTasks.{NewTask}
use maer_os.Loader.Program.{Machine, Loaded, Running, process_load_switch, process_terminate}
use maer_os.Isr80h.{string_at}

-- `MAEROS_MAX_PATH`
abbrev pub max_path : ℕ
max_path = 108

-- `path` as it is built from the name; a name that does not fit is written behind the array.
pub path_of : List ℕ → Option (List ℕ)
path_of filename =
    if ltb (length filename + 3) max_path
    then some (0x30 ∷ 0x3a ∷ 0x2f ∷ (filename ++ (0x00 ∷ [])))
    else none

module _ {F : Type 0} (fs : FileSystem F) where
  -- Behind `process_load_switch`, by what it returned: the task of the process is entered. `none` in
  -- place of a task is the return to the program that called.
  pub enter_loaded : ℤ × Option Loaded × Machine F → Option (Option NewTask × Machine F)
  enter_loaded (negsuc n, p, m) = some (none, m)
  enter_loaded (pos n, none, m) = none
  enter_loaded (pos n, some p, m) =
      some (some p.task, record m { tasks = task_switch p.task.address m.tasks })

  -- With the name in the kernel's buffer at `buf`.
  pub load_start : ℕ → Machine F → Option (Option NewTask × Machine F)
  load_start buf m = elim (string_at max_path m.files.store.memory buf) [
    | none ↦ none
    | some filename ↦ elim (path_of filename) [
      | none ↦ none
      | some path ↦ elim (process_load_switch fs path m) [
        | none ↦ none
        | some loaded ↦ enter_loaded loaded
      ]
    ]
  ]

  -- Behind `copy_string_from_task`, by what it returned.
  pub copied_start : ℕ → Status → Machine F → Option (Option NewTask × Machine F)
  copied_start buf all_ok m = load_start buf m
  copied_start buf err m = some (none, m)

  -- For the task with the page directory and the saved stack pointer; `buf` is the address of `filename`
  -- on the kernel's stack.
  pub isr80h_command6_process_load_start :
      ℕ → ℕ → ℕ → Machine F → Option (Option NewTask × Machine F)
  isr80h_command6_process_load_start directory esp buf m =
      elim (task_get_stack_item directory esp 0 m.files.store) [
        | none ↦ none
        | some filename ↦
            elim (copy_string_from_task directory filename buf max_path m.files.store) [
              | none ↦ none
              | some (res, s) ↦
                  copied_start buf res (record m { files = record (m.files) { store = s } })
            ]
      ]

-- The process of the current task ends, and the next task is entered.
pub isr80h_command9_exit : Loaded → Running → Option Running
isr80h_command9_exit p r = elim (process_terminate p r) [
  | none ↦ none
  | some r' ↦ elim (task_next r'.tasks) [
    | none ↦ none
    | some tasks ↦ some (record r' { tasks = tasks })
  ]
]

pub idt_handle_exception : Loaded → Running → Option Running
idt_handle_exception p r = elim (process_terminate p r) [
  | none ↦ none
  | some r' ↦ elim (task_next r'.tasks) [
    | none ↦ none
    | some tasks ↦ some (record r' { tasks = tasks })
  ]
]

-- The byte for the interrupt controller is left out.
pub idt_clock : Tasks → Option Tasks
idt_clock s = task_next s
