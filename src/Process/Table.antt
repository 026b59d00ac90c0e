-- ===== src/Process/Table.antt =====
-- src/task/process.c: the table of processes and the current one. A process is its address.
pub mod Unlink
use maer_os.Common.{
  ℕ, zero, suc, ◌+◌, Bool, true, false, Option, none, some, List, [], ◌∷◌, set, get_elem?, ltb, leb,
  ◌==◌, if◌then◌else◌, ℤ, pos, negsuc,
}

-- `MAEROS_MAX_PROCESSES`
abbrev pub max_processes : ℕ
max_processes = 12

-- `processes` and `current_process`
pub record Processes : Type 0 where
  pub processes : List (Option ℕ)
  pub current_process : Option ℕ

unfoldable pub process_get : ℤ → Processes → Option ℕ
process_get (negsuc n) s = none
process_get (pos id) s =
    if leb max_processes id
    then none
    else elim (get_elem? s.processes id) [ none ↦ none | some slot ↦ slot ]

unfoldable pub process_switch : ℕ → Processes → Processes
process_switch process s = record s { current_process = some process }

-- The first process of the table, and the first slot without one, from index `i` on.
unfoldable pub first_process : List (Option ℕ) → Option ℕ
first_process [] = none
first_process (none ∷ slots) = first_process slots
first_process (some process ∷ slots) = some process

unfoldable pub find_free_slot : List (Option ℕ) → ℕ → Option ℕ
find_free_slot [] i = none
find_free_slot (none ∷ slots) i = some i
find_free_slot (some process ∷ slots) i = find_free_slot slots (i + 1)

-- `none` is the panic.
unfoldable pub process_switch_to_any : Processes → Option Processes
process_switch_to_any s = elim (first_process s.processes) [
  | none ↦ none
  | some process ↦ some (process_switch process s)
]

abbrev pub is_current : ℕ → Option ℕ → Bool
is_current process none = false
is_current process (some c) = c == process

-- Of the process at an address with its id.
unfoldable pub process_unlink : ℕ → ℕ → Processes → Option Processes
process_unlink id process s =
    let s' : Processes = record s { processes = set s.processes id none } in
    elim (is_current process s.current_process) [
      | true ↦ process_switch_to_any s'
      | false ↦ some s'
    ]

-- `none` is -EISTKN.
unfoldable pub process_get_free_slot : Processes → Option ℕ
process_get_free_slot s = find_free_slot s.processes 0

-- The end of `process_load_for_slot`: the process goes to its slot.
unfoldable pub add_process : ℕ → ℕ → Processes → Processes
add_process slot process s = record s { processes = set s.processes slot (some process) }
