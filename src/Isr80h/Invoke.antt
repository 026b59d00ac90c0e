-- ===== src/Isr80h/Invoke.antt =====
-- src/isr80h/process.c: the command that loads a program and gives it arguments. `none` is a fault.
use maer_os.Common.{
  ℕ, zero, suc, ◌+◌, ◌*◌, ◌^◌, ◌≡◌, ◌≢◌, refl, Option, none, some, List, [], ◌∷◌, length, leb,
  if◌then◌else◌, ◌==◌, u32, ℤ, pos, negsuc, all_ok, einvarg, ==_false,
}
use maer_os.Memory.{Memory}
use maer_os.Strings.{strncpy}
use maer_os.File.{FileSystem}
use maer_os.Process.Arguments.{process_inject_arguments}
use maer_os.UserMemory.{task_get_stack_item, task_virtual_address_to_physical}
use maer_os.Loader.{code}
use maer_os.Loader.Program.{Machine, Loaded, process_load_switch}
use maer_os.Task.{task_switch}
use maer_os.Isr80h.Programs.{max_path}

-- The bytes from an address on.
pub bytes_at : ℕ → Memory → ℕ → List ℕ
bytes_at zero m a = []
bytes_at (suc n) m a = m a ∷ bytes_at n m (u32 (a + 1))

unfoldable pub word_from : Memory → ℕ → ℕ
word_from m a = m a + m (u32 (a + 1)) * 2 ^ 8 + m (u32 (a + 2)) * 2 ^ 16 + m (u32 (a + 3)) * 2 ^ 24

-- `sizeof(argument)` of `struct command_argument`, behind which its `next` lies
abbrev pub argument_bytes : ℕ
argument_bytes = 512

abbrev pub argument_then : List ℕ → Option (List (List ℕ)) → Option (List (List ℕ))
argument_then argument none = none
argument_then argument (some rest) = some (argument ∷ rest)

-- The arguments that the `next` pointers chain from an address on. On fuel: the chain may be a circle.
pub arguments_at : ℕ → Memory → ℕ → Option (List (List ℕ))
arguments_at zero m a = none
arguments_at (suc fuel) m a =
    let rest = arguments_at fuel m (word_from m (u32 (a + argument_bytes))) in
    if a == 0 then some [] else argument_then (bytes_at argument_bytes m a) rest

-- A chain that ends, with the arguments on it.
pub data IsChain (m : Memory) : ℕ → List (List ℕ) → Type 0 where
  end : IsChain m 0 []
  argument :
      {a : ℕ} {rest : List (List ℕ)}
      → a ≢ 0
      → IsChain m (word_from m (u32 (a + argument_bytes))) rest
      → IsChain m a (bytes_at argument_bytes m a ∷ rest)

-- A round for each argument and one for the end are enough.
pub arguments_at-IsChain :
    {m : Memory} {a : ℕ} {l : List (List ℕ)}
    → IsChain m a l
    → arguments_at (suc (length l)) m a ≡ some l
unfolding arguments_at
arguments_at-IsChain end = refl
arguments_at-IsChain {m} {a} (argument h c) = rw (==_false a 0 h, arguments_at-IsChain c) refl

-- `path` with the program's name; what does not fit is written behind the array.
pub program_path : List ℕ → Option (List ℕ)
program_path name = elim (strncpy name max_path) [
  | none ↦ none
  | some bytes ↦ if leb (length bytes + 3) max_path then some (0x30 ∷ 0x3a ∷ 0x2f ∷ bytes) else none
]

-- What a system command returns: a number, and the process whose task is entered. Without a process the
-- number is returned to the program that called.
abbrev pub Returned : Type 0 → Type 0
Returned F = ℤ × Option Loaded × Machine F

-- The process that was loaded is given the arguments, and its task is entered.
pub invoke_injected : {F : Type 0} → List (List ℕ) → Loaded → Machine F → Option (Returned F)
invoke_injected arguments p m = elim (process_inject_arguments arguments p.process m.files.store) [
  | none ↦ none
  | some (all_ok, process, s) ↦ some (
    pos 0,
    some (record p { process = process }),
    record m { files = record (m.files) { store = s }; tasks = task_switch p.task.address m.tasks },
  )
  | some (err, process, s) ↦
      some (code err, none, record m { files = record (m.files) { store = s } })
]

-- Behind the loading, by what that returned.
pub invoke_loaded : {F : Type 0} → ℕ → ℕ → Returned F → Option (Returned F)
invoke_loaded fuel arguments (negsuc n, p, m) = some (negsuc n, none, m)
invoke_loaded fuel arguments (pos n, none, m) = none
invoke_loaded fuel arguments (pos n, some p, m) =
    elim (arguments_at fuel m.files.store.memory arguments) [
      | none ↦ none
      | some chain ↦ invoke_injected chain p m
    ]

module _ {F : Type 0} (fs : FileSystem F) where
  -- With the arguments at their physical address: the first one is the program's name.
  pub invoke_at : ℕ → ℕ → Machine F → Option (Returned F)
  invoke_at fuel arguments m =
      let memory = m.files.store.memory in
      elim (program_path (bytes_at argument_bytes memory arguments)) [
        | none ↦ none
        | some path ↦ elim (process_load_switch fs path m) [
          | none ↦ none
          | some loaded ↦ invoke_loaded fuel arguments loaded
        ]
      ]

  -- For the task with the page directory and the saved stack pointer. The name is empty when its first
  -- byte is 0.
  pub isr80h_command7_invoke_system_command : ℕ → ℕ → ℕ → Machine F → Option (Returned F)
  isr80h_command7_invoke_system_command fuel directory esp m =
      elim (task_get_stack_item directory esp 0 m.files.store) [
        | none ↦ none
        | some item ↦
            let arguments = task_virtual_address_to_physical directory item m.files.store in
            let invoked = invoke_at fuel arguments m in
            if arguments == 0
            then some (code einvarg, none, m)
            else if m.files.store.memory arguments == 0x00
            then some (code einvarg, none, m)
            else invoked
      ]
