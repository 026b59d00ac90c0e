-- ===== src/Keyboard.antt =====
-- src/keyboard/keyboard.c: the ring buffer of key presses in each process, and the list of keyboards.
pub mod Queue
pub mod Runs
pub mod Edges
pub mod Classic
pub mod Letters
mod Tests
use maer_os.Common.{
  ℕ, ◌+◌, ◌-◌, ◌%◌, ◌^◌, Option, none, some, ◌==◌, if◌then◌else◌, u32, Status, all_ok, einvarg,
}

-- `MAEROS_KEYBOARD_BUFFER_SIZE`
abbrev pub buffer_size : ℕ
buffer_size = 1024

-- `struct keyboard_buffer`: the bytes by index, and the two counters, which are taken modulo the
-- unsigned size of the buffer.
pub record KeyboardBuffer : Type 0 where
  pub buffer : ℕ → ℕ
  pub tail : ℕ
  pub head : ℕ

pub keyboard_get_tail_index : KeyboardBuffer → ℕ
keyboard_get_tail_index k = k.tail % buffer_size

-- `buffer[i] = c`
abbrev pub put : ℕ → ℕ → KeyboardBuffer → KeyboardBuffer
put i c k = record k { buffer = λ j. if i == j then c else k.buffer j }

pub keyboard_backspace : KeyboardBuffer → KeyboardBuffer
keyboard_backspace k =
    let k' = record k { tail = u32 (k.tail + 2 ^ 32 - 1) } in
    put (keyboard_get_tail_index k') 0x00 k'

-- The buffer is that of the current process, if there is one.
pub keyboard_push : ℕ → Option KeyboardBuffer → Option KeyboardBuffer
keyboard_push c none = none
keyboard_push c (some k) =
    if c == 0
    then some k
    else some (record (put (keyboard_get_tail_index k) c k) { tail = u32 (k.tail + 1) })

-- Of the buffer of the current task's process, while keyboard_push is of the buffer of the current
-- process. The clock changes the task alone, so these may be the buffers of two processes.
pub keyboard_pop : Option KeyboardBuffer → ℕ × Option KeyboardBuffer
keyboard_pop none = (0, none)
keyboard_pop (some k) =
    let real_index = k.head % buffer_size in
    let c = k.buffer real_index in
    if c == 0x00
    then (0, some k)
    else (c, some (record (put real_index 0 k) { head = u32 (k.head + 1) }))

-- The list of keyboards by number: the first, the last and the `next` of each.
pub record KeyboardList : Type 0 where
  pub head : Option ℕ
  pub last : Option ℕ
  pub next : ℕ → Option ℕ

-- `init` is what a keyboard's own initialisation returns, if it has one.
pub keyboard_insert : (ℕ → Option Status) → ℕ → KeyboardList → Status × KeyboardList
keyboard_insert init keyboard l = elim (init keyboard) [
  | none ↦ (einvarg, l)
  | some res ↦ (
    res,
    elim (l.last) [
      | some last ↦ record l {
        last = some keyboard;
        next = λ n. if last == n then some keyboard else l.next n;
      }
      | none ↦ record l { head = some keyboard; last = some keyboard }
    ],
  )
]
