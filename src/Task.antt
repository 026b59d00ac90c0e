-- ===== src/Task.antt =====
-- src/task/task.c: the list of tasks and the choice of the next one. A task is its address, and 0 is
-- no task; the links are kept for every address, a freed one too.
pub mod Order
pub mod Removal
pub mod Turns
mod Tests
use maer_os.Common.{ℕ, Bool, true, false, Option, none, some, ◌==◌, if◌then◌else◌}

-- `task_head`, `task_tail`, `current_task` and the links of each `struct task`.
pub record Tasks : Type 0 where
  pub head : Option ℕ
  pub tail : Option ℕ
  pub current : Option ℕ
  pub next : ℕ → Option ℕ
  pub prev : ℕ → Option ℕ

-- `task->next = v`, and so on
abbrev pub link : (ℕ → Option ℕ) → ℕ → Option ℕ → ℕ → Option ℕ
link f task v x = if task == x then v else f x

-- `task_new` for a task that was allocated at an address and initialised, its links with zeros. `none`
-- is a store through a null tail.
pub task_new : ℕ → Tasks → Option Tasks
task_new task s =
    let next = link s.next task none in
    let prev = link s.prev task none in
    elim s.head [
      | none ↦ some (record {
        head = some task;
        tail = some task;
        current = some task;
        next = next;
        prev = prev;
      })
      | some head ↦ elim s.tail [
        | none ↦ none
        | some tail ↦ some (record {
          head = some head;
          tail = some task;
          current = s.current;
          next = link next tail (some task);
          prev = link prev task (some tail);
        })
      ]
    ]

-- The outer `none` is an access through a null current task.
pub task_get_next : Tasks → Option (Option ℕ)
task_get_next s = elim s.current [
  | none ↦ none
  | some current ↦ elim (s.next current) [ none ↦ some s.head | some next ↦ some (some next) ]
]

-- The task becomes the current one; its directory and registers are loaded in assembly.
pub task_switch : ℕ → Tasks → Tasks
task_switch task s = record s { current = some task }

-- Of the tasks' list; `none` is the panic without a task, or an access through a null current task.
pub task_next : Tasks → Option Tasks
unfolding task_switch
task_next s = elim (task_get_next s) [
  | none ↦ none
  | some none ↦ none
  | some (some task) ↦ some (task_switch task s)
]

abbrev pub is : Option ℕ → ℕ → Bool
is none task = false
is (some x) task = x == task

abbrev pub unlink_prev : ℕ → Tasks → Tasks
unlink_prev task s = elim (s.prev task) [
  | none ↦ s
  | some prev ↦ record s { next = link s.next prev (s.next task) }
]

abbrev pub unlink_head : ℕ → Tasks → Tasks
unlink_head task s = if is s.head task then record s { head = s.next task } else s

abbrev pub unlink_tail : ℕ → Tasks → Tasks
unlink_tail task s = if is s.tail task then record s { tail = s.prev task } else s

-- The current task steps on if it is the one that is removed.
abbrev pub step_on : ℕ → Tasks → Option Tasks
step_on task s =
    if is s.current task
    then elim (task_get_next s) [ none ↦ none | some next ↦ some (record s { current = next }) ]
    else some s

pub task_list_remove : ℕ → Tasks → Option Tasks
task_list_remove task s = step_on task (unlink_tail task (unlink_head task (unlink_prev task s)))
