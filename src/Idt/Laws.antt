-- ===== src/Idt/Laws.antt =====
-- Descriptors hold their handler's address, and registered commands are the ones that are called.
use maer_os.Common.{
  ℕ, ◌+◌, ◌*◌, ◌^◌, ◌<◌, ◌≡◌, ◌≢◌, refl, none, some, leb, ◌==◌, if_eq, if_ne, bit_and_mask, arith,
  true, false, pos,
}
use maer_os.Idt.{IdtDesc, idt_set, Handlers, put, isr80h_register_command, isr80h_handle_command}

-- The address of the handler that the processor reads from a descriptor.
abbrev pub handler_of : IdtDesc → ℕ
handler_of d = d.offset_1 + d.offset_2 * 2 ^ 16

-- A descriptor that was set gives back the address of its handler, and every other descriptor is
-- what it was.
pub idt_set_lem :
    (n address : ℕ) (table : ℕ → IdtDesc)
    → (handler_of (idt_set n address table n) ≡ address)
      × ((m : ℕ) → n ≢ m → idt_set n address table m ≡ table m)
unfolding idt_set
idt_set_lem n address table =
    let e : (n == n) ≡ true = ground arith in
    (rw (e, idt_set) (rw (bit_and_mask 16 address) (omega arith)), λ m h. if_ne n m _ _ h)

-- A command that is free and in range is registered; from then on its number calls it, every other
-- number calls what it called before, and registering it again panics.
isr80h_register_command_lem :
    (call : ℕ → ℕ) (id command : ℕ) (h : Handlers)
    → id < 1024
    → h.commands id ≡ none
    → (h' : Handlers) × (isr80h_register_command (pos id) command h ≡ some h')
      × (isr80h_handle_command call (pos id) h' ≡ call command)
      × ((m : ℕ)
          → id ≢ m
          → isr80h_handle_command call (pos m) h' ≡ isr80h_handle_command call (pos m) h)
      × ((other : ℕ) → isr80h_register_command (pos id) other h' ≡ none)
unfolding isr80h_register_command isr80h_handle_command
isr80h_register_command_lem call id command h r free =
    let b : leb 1024 id ≡ false = ground arith in
    let h' : Handlers = record h { commands = put h.commands id command } in
    let new : put h.commands id command id ≡ some command = if_eq id id _ _ refl in
    (
      h',
      rw (b, isr80h_register_command) (rw free refl),
      rw (b, isr80h_handle_command) (rw new refl),
      λ m q.
          let e : put h.commands id command m ≡ h.commands m = if_ne id m _ _ q in
          rw (e, isr80h_handle_command) refl,
      λ other. rw (b, isr80h_register_command) (rw new refl),
    )
