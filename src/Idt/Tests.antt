-- ===== src/Idt/Tests.antt =====
-- Runs of the interrupt tables.
use maer_os.Common.{ℕ, ◌+◌, ◌≡◌, refl, none, some, negsuc, einvarg}
use maer_os.Idt.{idt_init, register_exceptions, IdtDesc, Handlers, idt_register_interrupt_callback}

abbrev empty_table : ℕ → IdtDesc
empty_table n = record { offset_1 = 0; selector = 0; unused = 0; type_attr = 0; offset_2 = 0 }

abbrev no_handlers : Handlers
no_handlers = record { callbacks = λ n. none; commands = λ n. none }

abbrev twice : ℕ → ℕ
twice n = n + n

register_refuses : idt_register_interrupt_callback (negsuc 0) 5 no_handlers ≡ (einvarg, no_handlers)
unfolding idt_register_interrupt_callback
register_refuses = refl

abbrev system_call : ℕ
system_call = 0x80

abbrev wrapper : ℕ
wrapper = 0x00101234

-- The timer's callback, and an exception's.
init_runs : (idt_init twice 1 2 3 4 no_handlers).1.callbacks 0x20 ≡ some 4
unfolding idt_init register_exceptions idt_register_interrupt_callback
init_runs = refl

exception_runs : (idt_init twice 1 2 3 4 no_handlers).1.callbacks 13 ≡ some 3
unfolding idt_init register_exceptions idt_register_interrupt_callback
exception_runs = refl
