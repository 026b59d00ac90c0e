-- ===== src/Idt.antt =====
-- src/idt/idt.c: the interrupt descriptors, the table of callbacks, and the commands behind interrupt
-- 0x80; and task_save_state of src/task/task.c, which keeps the registers of an interrupted task.
pub mod Laws
mod Tests
use maer_os.Common.{
  ℕ, zero, suc, ◌+◌, ◌/◌, ◌^◌, Bool, true, false, Option, none, some, ltb, leb, ◌==◌, ◌||◌,
  if◌then◌else◌, bit_and, Status, all_ok, einvarg, ℤ, pos, negsuc,
}

-- `MAEROS_TOTAL_INTERRUPTS`
abbrev pub total_interrupts : ℕ
total_interrupts = 512

-- `MAEROS_MAX_ISR80H_COMMANDS`
abbrev pub max_isr80h_commands : ℕ
max_isr80h_commands = 1024

-- `struct idt_desc`
pub record IdtDesc : Type 0 where
  pub offset_1 : ℕ
  pub selector : ℕ
  pub unused : ℕ
  pub type_attr : ℕ
  pub offset_2 : ℕ

-- `idt_descriptors` by number; 0x08 is `KERNEL_CODE_SELECTOR`.
pub idt_set : ℕ → ℕ → (ℕ → IdtDesc) → ℕ → IdtDesc
idt_set interrupt_no address table n =
    if interrupt_no == n
    then record {
      offset_1 = bit_and address 0xffff;
      selector = 0x08;
      unused = 0x00;
      type_attr = 0xEE;
      offset_2 = address / 2 ^ 16;
    }
    else table n

-- `interrupt_callbacks` and `isr80h_commands`, each a function by its address, or none.
pub record Handlers : Type 0 where
  pub callbacks : ℕ → Option ℕ
  pub commands : ℕ → Option ℕ

abbrev pub put : (ℕ → Option ℕ) → ℕ → ℕ → ℕ → Option ℕ
put f n v m = if n == m then some v else f m

-- An index that is not in an array of a given size.
abbrev pub outside : ℤ → ℕ → Bool
outside (pos n) size = leb size n
outside (negsuc n) size = true

abbrev pub index_of : ℤ → ℕ
index_of (pos n) = n
index_of (negsuc n) = 0

pub idt_register_interrupt_callback : ℤ → ℕ → Handlers → Status × Handlers
idt_register_interrupt_callback interrupt callback h =
    if outside interrupt total_interrupts
    then (einvarg, h)
    else (all_ok, record h { callbacks = put h.callbacks (index_of interrupt) callback })

-- `none` is a panic.
pub isr80h_register_command : ℤ → ℕ → Handlers → Option Handlers
isr80h_register_command command_id command h =
    if outside command_id max_isr80h_commands
    then none
    else elim (h.commands (index_of command_id)) [
      | some taken ↦ none
      | none ↦ some (record h { commands = put h.commands (index_of command_id) command })
    ]

-- The result of the command with this number, given what a call of a command at an address returns;
-- 0 for a number that is no command's.
pub isr80h_handle_command : (ℕ → ℕ) → ℤ → Handlers → ℕ
isr80h_handle_command call command h =
    if outside command max_isr80h_commands
    then 0
    else elim (h.commands (index_of command)) [ none ↦ 0 | some function ↦ call function ]

-- `struct interrupt_frame`
pub record InterruptFrame : Type 0 where
  pub edi : ℕ
  pub esi : ℕ
  pub ebp : ℕ
  pub reserved : ℕ
  pub ebx : ℕ
  pub edx : ℕ
  pub ecx : ℕ
  pub eax : ℕ
  pub ip : ℕ
  pub cs : ℕ
  pub flags : ℕ
  pub esp : ℕ
  pub ss : ℕ

-- `struct registers` of src/task/task.h
pub record Registers : Type 0 where
  pub edi : ℕ
  pub esi : ℕ
  pub ebp : ℕ
  pub ebx : ℕ
  pub edx : ℕ
  pub ecx : ℕ
  pub eax : ℕ
  pub ip : ℕ
  pub cs : ℕ
  pub flags : ℕ
  pub esp : ℕ
  pub ss : ℕ

pub task_save_state : InterruptFrame → Registers
task_save_state frame = record {
  ip = frame.ip;
  cs = frame.cs;
  flags = frame.flags;
  esp = frame.esp;
  ss = frame.ss;
  eax = frame.eax;
  ebp = frame.ebp;
  ebx = frame.ebx;
  ecx = frame.ecx;
  edi = frame.edi;
  edx = frame.edx;
  esi = frame.esi;
}

-- The registers of the current task, if there is one; without one it panics.
pub task_current_save_state : InterruptFrame → Option Registers → Option Registers
task_current_save_state frame none = none
task_current_save_state frame (some registers) = some (task_save_state frame)

-- The callback that is called, if one is registered, and the registers of the current task; the
-- switches of pages and the port have no part in it. `none` is a panic.
pub interrupt_handler :
    ℕ → InterruptFrame → Handlers → Option Registers → Option (Option ℕ × Option Registers)
interrupt_handler interrupt frame h current = elim (h.callbacks interrupt) [
  | none ↦ some (none, current)
  | some callback ↦ elim (task_current_save_state frame current) [
    | none ↦ none
    | some registers ↦ some (some callback, some registers)
  ]
]

pub isr80h_handler :
    (ℕ → ℕ) → ℤ → InterruptFrame → Handlers → Option Registers → Option (ℕ × Option Registers)
isr80h_handler call command frame h current = elim (task_current_save_state frame current) [
  | none ↦ none
  | some registers ↦ some (isr80h_handle_command call command h, some registers)
]

-- The loop of `idt_init` over the descriptors at number `i`, with `left` to go.
pub set_pointers : ℕ → ℕ → (ℕ → ℕ) → (ℕ → IdtDesc) → ℕ → IdtDesc
set_pointers zero i pointer_table table = table
set_pointers (suc left) i pointer_table table =
    set_pointers left (i + 1) pointer_table (idt_set i (pointer_table i) table)

-- Its loop over the exceptions.
pub register_exceptions : ℕ → ℕ → ℕ → Handlers → Handlers
register_exceptions zero i exception h = h
register_exceptions (suc left) i exception h =
    register_exceptions left (i + 1) exception
      (idt_register_interrupt_callback (pos i) exception h).1

-- The addresses are those of `interrupt_pointer_table`, `idt_zero`, `isr80h_wrapper`,
-- `idt_handle_exception` and `idt_clock`; the descriptors are zero before.
pub idt_init : (ℕ → ℕ) → ℕ → ℕ → ℕ → ℕ → Handlers → (ℕ → IdtDesc) × Handlers
idt_init pointer_table idt_zero isr80h_wrapper exception clock h =
    let cleared : ℕ → IdtDesc =
      λ n. record { offset_1 = 0; selector = 0; unused = 0; type_attr = 0; offset_2 = 0 } in
    (
      idt_set 0x80 isr80h_wrapper
          (idt_set 0 idt_zero (set_pointers total_interrupts 0 pointer_table cleared)),
      (idt_register_interrupt_callback (pos 0x20) clock (register_exceptions 0x20 0 exception h)).1,
    )
