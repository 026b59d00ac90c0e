-- ===== src/Task/Tests.antt =====
-- The theorems on tasks at the list of the tasks 10, 20 and 30.
use maer_os.Common.{
  ℕ, zero, suc, ◌+◌, ◌*◌, ◌<◌, ◌≤◌, ◌≡◌, refl, arith, Option, none, some, List, [], ◌∷◌, ◌++◌,
  get_or, ◌==◌, if◌then◌else◌,
}
use maer_os.Task.{Tasks, task_new, task_get_next, task_list_remove}
use maer_os.Task.Order.{IsTaskList, Fresh, task_new-IsTaskList}
use maer_os.Task.Turns.{ticks, ticks-Reaches}
use maer_os.Task.Removal.{task_list_remove_twice}

abbrev no_tasks : Tasks
no_tasks = record { head = none; tail = none; current = none; next = λ x. none; prev = λ x. none }

abbrev next_task : ℕ → Option ℕ
next_task x = if x == 10 then some 20 else if x == 20 then some 30 else none

abbrev prev_task : ℕ → Option ℕ
prev_task x = if x == 20 then some 10 else if x == 30 then some 20 else none

abbrev three : Tasks
three = record {
  head = some 10;
  tail = some 30;
  current = some 10;
  next = next_task;
  prev = prev_task;
}

abbrev order : List ℕ
order = 10 ∷ 20 ∷ 30 ∷ []

next_runs : task_get_next three ≡ some (some 20)
unfolding task_get_next
next_runs = refl

-- The current task is removed, and the next one runs.
remove_runs : task_list_remove 10 three ≡ some (record three { head = some 20; current = some 20 })
unfolding task_list_remove task_get_next
remove_runs = refl

order_entry : (i : ℕ) → i < 3 → get_or order i 0 ≡ 10 * (i + 1)
order_entry zero h = refl
order_entry (suc zero) h = refl
order_entry (suc (suc zero)) h = refl
order_entry (suc (suc (suc i))) h = absurd (omega arith)

three-IsTaskList : IsTaskList three order
three-IsTaskList = record {
  first = refl;
  last = elim [
    | suc (suc zero) ↦ λ e. refl
    | zero ↦ λ e. absurd (omega (arith, e))
    | suc zero ↦ λ e. absurd (omega (arith, e))
    | suc (suc (suc n)) ↦ λ e. absurd (omega (arith, e))
  ];
  nexts = elim [
    | zero ↦ λ h. refl
    | suc zero ↦ λ h. refl
    | suc (suc zero) ↦ λ h. refl
    | suc (suc (suc n)) ↦ λ h. absurd (omega arith)
  ];
  prevs = elim [
    | zero ↦ λ h. refl
    | suc zero ↦ λ h. refl
    | suc (suc n) ↦ λ h. absurd (omega arith)
  ];
  distinct = λ i j h k e. omega (arith, order_entry i h, order_entry j k, e);
}

order-Fresh : Fresh 40 order
order-Fresh zero h e = omega (arith, e)
order-Fresh (suc zero) h e = omega (arith, e)
order-Fresh (suc (suc zero)) h e = omega (arith, e)
order-Fresh (suc (suc (suc i))) h e = omega arith

task_new-IsTaskList_example :
    (s' : Tasks) × (task_new 40 three ≡ some s') × IsTaskList s' (order ++ (40 ∷ []))
task_new-IsTaskList_example = task_new-IsTaskList three order 40 three-IsTaskList order-Fresh

task_list_remove_twice_example :
    (s' : Tasks) × (s'' : Tasks) × (task_list_remove 20 three ≡ some s')
    × (s'.prev 30 ≡ some 20)
    × (task_list_remove 30 s' ≡ some s'')
    × (task_get_next s'' ≡ some (some 30))
task_list_remove_twice_example =
    task_list_remove_twice three order 0 three-IsTaskList (omega arith) refl

ticks-Reaches_example :
    (k : ℕ) × (0 < k) × (k ≤ 3) × (ticks k three ≡ some (record three { current = some 10 }))
ticks-Reaches_example =
    ticks-Reaches three order 0 0 three-IsTaskList (omega arith) (omega arith) refl
