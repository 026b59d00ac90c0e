-- ===== src/Isr80h.antt =====
-- src/isr80h: the commands that a program calls by interrupt 0x80, over the current task's memory, the
-- kernel's memory, the terminal and the keyboard. `none` is a fault.
pub mod Print
pub mod Programs
pub mod Invoke
mod Tests
use maer_os.Common.{
  ℕ, zero, suc, ◌+◌, ◌-◌, ◌^◌, Option, none, some, List, [], ◌∷◌, ltb, ◌==◌, if◌then◌else◌, u32, u8,
  Status, pos,
}
use maer_os.Memory.{Memory}
use maer_os.Terminal.{Terminal, print, terminal_writechar}
use maer_os.Keyboard.{KeyboardBuffer, keyboard_pop}
use maer_os.Process.{Process, Store, process_malloc, process_free}
use maer_os.Process.Arguments.{store32, process_get_arguments}
use maer_os.UserMemory.{
  copy_string_from_task, task_get_stack_item, task_virtual_address_to_physical,
}
use maer_os.Idt.{Handlers, isr80h_register_command}

-- What the commands use of the kernel: its memory, the process of the current task, the stack pointer
-- that was saved for that task, the terminal, and the keyboard's buffer of the current process.
pub record Kernel : Type 0 where
  pub store : Store
  pub process : Process
  pub esp : ℕ
  pub terminal : Terminal
  pub keyboard : Option KeyboardBuffer

-- `task_get_stack_item(task_current(), index)`
abbrev pub stack_item : ℕ → Kernel → Option ℕ
stack_item index k = task_get_stack_item k.process.page_directory k.esp index k.store

pub isr80h_command0_sum : Kernel → Option (ℕ × Kernel)
isr80h_command0_sum k = elim (stack_item 1 k) [
  | none ↦ none
  | some v2 ↦ elim (stack_item 0 k) [ none ↦ none | some v1 ↦ some (u32 (v1 + v2), k) ]
]

abbrev pub byte_before : ℕ → Option (List ℕ) → Option (List ℕ)
byte_before c none = none
byte_before c (some cs) = some (c ∷ cs)

-- The string at an address, if it ends within `left` bytes.
unfoldable pub string_at : ℕ → Memory → ℕ → Option (List ℕ)
string_at zero m a = none
string_at (suc left) m a =
    let rest = byte_before (m a) (string_at left m (u32 (a + 1))) in
    if m a == 0x00 then some [] else rest

-- `sizeof(buf)`
abbrev pub message_size : ℕ
message_size = 1024

-- `print` of the buffer, which has to hold a string.
pub print_buffer : ℕ → Kernel → Option (ℕ × Kernel)
print_buffer buf k = elim (string_at message_size k.store.memory buf) [
  | none ↦ none
  | some message ↦ some (0, record k { terminal = print message k.terminal })
]

-- `buf` is the address of the buffer on the kernel's stack. What the copy returns is dropped.
pub isr80h_command1_print : ℕ → Kernel → Option (ℕ × Kernel)
isr80h_command1_print buf k = elim (stack_item 0 k) [
  | none ↦ none
  | some message ↦
      elim (copy_string_from_task k.process.page_directory message buf message_size k.store) [
        | none ↦ none
        | some (res, s) ↦ print_buffer buf (record k { store = s })
      ]
]

-- A `char` as an `int`.
abbrev pub sign_extended : ℕ → ℕ
sign_extended c = if ltb c 128 then c else 2 ^ 32 - 256 + c

pub isr80h_command2_getkey : Kernel → Option (ℕ × Kernel)
isr80h_command2_getkey k =
    let (c, keyboard) = keyboard_pop k.keyboard in
    some (sign_extended c, record k { keyboard = keyboard })

pub isr80h_command3_putchar : Kernel → Option (ℕ × Kernel)
isr80h_command3_putchar k = elim (stack_item 0 k) [
  | none ↦ none
  | some c ↦ some (0, record k { terminal = terminal_writechar (u8 c) 15 k.terminal })
]

pub isr80h_command4_malloc : Kernel → Option (ℕ × Kernel)
isr80h_command4_malloc k = elim (stack_item 0 k) [
  | none ↦ none
  | some size ↦ elim (process_malloc size k.process k.store) [
    | none ↦ none
    | some (ptr, process, store) ↦ some (ptr, record k { process = process; store = store })
  ]
]

pub isr80h_command5_free : Kernel → Option (ℕ × Kernel)
isr80h_command5_free k = elim (stack_item 0 k) [
  | none ↦ none
  | some ptr ↦ elim (process_free ptr k.process k.store) [
    | none ↦ none
    | some (process, store) ↦ some (0, record k { process = process; store = store })
  ]
]

-- `argc` and `argv` are stored at the physical address of the program's structure.
pub isr80h_command8_get_program_arguments : Kernel → Option (ℕ × Kernel)
isr80h_command8_get_program_arguments k = elim (stack_item 0 k) [
  | none ↦ none
  | some arguments ↦
      let (argc, argv) = process_get_arguments k.process in
      let a = task_virtual_address_to_physical k.process.page_directory arguments k.store in
      let m = store32 (u32 (a + 4)) argv (store32 a argc k.store.memory) in
      some (0, record k { store = record (k.store) { memory = m } })
]

-- The commands are registered in order, under their numbers from `id` on; `none` is a panic.
pub register_from : ℕ → List ℕ → Handlers → Option Handlers
register_from id [] h = some h
register_from id (command ∷ commands) h = elim (isr80h_register_command (pos id) command h) [
  | none ↦ none
  | some h' ↦ register_from (id + 1) commands h'
]

-- The ten commands by their addresses: sum, print, getkey, putchar, malloc, free, process_load_start,
-- invoke_system_command, get_program_arguments and exit.
pub isr80h_register_commands : (ℕ → ℕ) → Handlers → Option Handlers
unfolding register_from
isr80h_register_commands address h =
    register_from 0
      (address 0
        ∷ address 1
        ∷ address 2
        ∷ address 3
        ∷ address 4
        ∷ address 5
        ∷ address 6
        ∷ address 7
        ∷ address 8
        ∷ address 9
        ∷ [])
      h
