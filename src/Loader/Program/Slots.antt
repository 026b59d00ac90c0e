-- ===== src/Loader/Program/Slots.antt =====
-- src/task/process.c: what every way through process_load leaves in the table of processes.
use maer_os.Common.{
  ℕ, zero, suc, ◌<◌, ◌≡◌, refl, ap, Option, none, some, List, ℤ, pos, negsuc, Status, all_ok,
  Option-cases, inl, inr, arith, subst,
}
use maer_os.File.{FileSystem}
use maer_os.Process.{task_free}
use maer_os.Process.Mapping.{stack_size}
use maer_os.Process.Table.{process_get, process_get_free_slot, add_process}
use maer_os.Task.{task_new}
use maer_os.Loader.{code, Files, alloc, process_size}
use maer_os.Loader.NewTasks.{new_task}
use maer_os.Loader.Program.{
  Program, Machine, Loaded, process_load_data, failed_load, finish_load, map_load, task_load,
  program_load, process_load_for_slot, process_load,
}

abbrev pub IsError : ℤ → Type 0
IsError (pos n) = ⊥
IsError (negsuc n) = Unit {0}

-- A process that was loaded into a slot, from the machine before to the one behind: it has the slot, its
-- own directory and its stack, and its task is the last of the list.
pub record IsLoaded {F : Type 0} (slot : ℕ) (p : Loaded) (m m' : Machine F) : Type 0 where
  pub free : process_get_free_slot m.processes ≡ some slot
  pub added : m'.processes ≡ add_process slot p.address m.processes
  pub id : p.process.id ≡ slot
  pub real : 0 < p.address
  pub task : p.process.task ≡ p.task.address
  pub directory : p.process.page_directory ≡ p.task.directory
  pub listed : task_new p.task.address m.tasks ≡ some m'.tasks

abbrev pub Outcome : {F : Type 0} → Machine F → Option (ℤ × Option Loaded × Machine F) → Type 0
Outcome m none = Unit {0}
Outcome m (some (res, none, m')) = IsError res × (m'.processes ≡ m.processes)
Outcome m (some (res, some p, m')) = (res ≡ pos 0) × (slot : ℕ) × IsLoaded slot p m m'

module _ {F : Type 0} (fs : FileSystem F) (m : Machine F) (slot : ℕ)
    (free : process_get_free_slot m.processes ≡ some slot) where
  failed_load-Outcome :
      (res : ℤ) (p : Loaded) (n : Machine F)
      → IsError res
      → n.processes ≡ m.processes
      → Outcome m (failed_load fs res p n)
  unfolding failed_load
  failed_load-Outcome res p n e h =
      elim (Option-cases
        (task_free p.task.chunk p.task.directory p.task.address n.tasks n.files.store)) [
          | inl z ↦ rw (z, failed_load, Outcome) tt
          | inr (r, z) ↦ rw (z, failed_load, Outcome) (e, h)
        ]

  finish_load-Outcome :
      (p : Loaded) (st : Status) (n : Machine F)
      → n.processes ≡ m.processes
      → task_new p.task.address m.tasks ≡ some n.tasks
      → p.process.id ≡ slot
      → 0 < p.address
      → p.process.task ≡ p.task.address
      → p.process.page_directory ≡ p.task.directory
      → Outcome m (finish_load fs slot p st n)
  unfolding finish_load code
  finish_load-Outcome p all_ok n h t i a k d = (
    refl,
    slot,
    record {
      free = free;
      added = ap (add_process slot p.address) h;
      id = i;
      real = a;
      task = k;
      directory = d;
      listed = t;
    },
  )
  finish_load-Outcome p err n h t i a k d = failed_load-Outcome (code err) p n tt h

  task_load-Outcome :
      (process : ℕ) (program : Program) (stack : ℕ) (l : Files F)
      → 0 < process
      → Outcome m (task_load fs slot process program stack l m)
  unfolding task_load map_load
  task_load-Outcome process program stack l a = elim (Option-cases (new_task program.0 l.store)) [
    | inl z ↦ rw (z, task_load, Outcome) tt
    | inr ((task, store), z) ↦
        rw (z, task_load, Outcome)
          (elim (Option-cases (task_new task.address m.tasks)) [
            | inl y ↦ rw (y, Outcome) tt
            | inr (tasks, y) ↦ rw (y, Outcome) (finish_load-Outcome _ _ _ refl y refl a refl refl)
          ])
  ]

  program_load-Outcome :
      (process : ℕ) (r : ℤ × Option Program × Files F)
      → 0 < process
      → Outcome m (program_load fs slot process r m)
  unfolding program_load code
  program_load-Outcome process (negsuc n, program, l) a = (tt, refl)
  program_load-Outcome process (pos n, none, l) a = tt
  program_load-Outcome process (pos n, some program, l) a =
      elim (Option-cases (alloc stack_size l.store)) [
        | inl z ↦ rw (z, program_load, Outcome) tt
        | inr ((zero, store), z) ↦ rw (z, program_load, Outcome) (tt, refl)
        | inr ((suc stack, store), z) ↦
            rw (z, program_load, Outcome) (task_load-Outcome process program (suc stack) _ a)
      ]

  for_slot-Outcome : (filename : List ℕ) → Outcome m (process_load_for_slot fs filename slot m)
  unfolding process_load_for_slot code
  for_slot-Outcome filename = elim (Option-cases (process_get (pos slot) m.processes)) [
    | inr (q, z) ↦ rw (z, process_load_for_slot, Outcome) tt
    | inl z ↦
        rw (z, process_load_for_slot, Outcome)
          (elim (Option-cases (alloc process_size m.files.store)) [
            | inl y ↦ rw (y, Outcome) tt
            | inr ((zero, store), y) ↦ rw (y, Outcome) (tt, refl)
            | inr ((suc process, store), y) ↦
                rw (y, Outcome)
                  (elim (Option-cases
                    (process_load_data fs filename (record (m.files) { store = store }))) [
                      | inl x ↦ rw (x, Outcome) tt
                      | inr (r, x) ↦
                          rw (x, Outcome) (program_load-Outcome (suc process) r (omega arith))
                    ])
          ])
  ]

run-Outcome :
    {F : Type 0} (fs : FileSystem F) (filename : List ℕ) (m : Machine F)
    → Outcome m (process_load fs filename m)
unfolding process_load code
run-Outcome fs filename m = elim (Option-cases (process_get_free_slot m.processes)) [
  | inl z ↦ rw (z, process_load, Outcome) (tt, refl)
  | inr (slot, z) ↦ rw (z, process_load, Outcome) (for_slot-Outcome fs m slot z filename)
]

-- A load of a program that ends without a fault returns an error and leaves the table of processes as it
-- was, or returns 0 with a process: the first free slot, which is its number, now holds it, its address
-- is not null, it has its task's page directory, and that task is put behind all others of the list.
pub process_load-Outcome :
    {F : Type 0} (fs : FileSystem F) (filename : List ℕ) (m : Machine F)
    (r : ℤ × Option Loaded × Machine F)
    → process_load fs filename m ≡ some r
    → Outcome m (some r)
process_load-Outcome fs filename m r e = subst (Outcome m) e (run-Outcome fs filename m)
