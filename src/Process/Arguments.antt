-- ===== src/Process/Arguments.antt =====
-- src/task/process.c: the arguments of a program.
use maer_os.Common.{
  ℕ, zero, suc, ◌+◌, ◌*◌, ◌/◌, ◌^◌, true, false, Option, none, some, List, [], ◌∷◌, ◌==◌, u32, u8,
  Status, all_ok, eio, enomem,
}
use maer_os.Memory.{Memory, write}
use maer_os.Strings.{strncpy}
use maer_os.Process.{Process, Store, process_malloc}

-- A 32-bit store into the memory of bytes.
abbrev pub store32 : ℕ → ℕ → Memory → Memory
store32 a v m =
    write
      (write (write (write m a (u8 v)) (u32 (a + 1)) (u8 (v / 2 ^ 8))) (u32 (a + 2))
        (u8 (v / 2 ^ 16)))
      (u32 (a + 3)) (u8 (v / 2 ^ 24))

-- Bytes written from an address on.
abbrev pub write_bytes : ℕ → List ℕ → Memory → Memory
write_bytes a [] m = m
write_bytes a (b ∷ bs) m = write_bytes (u32 (a + 1)) bs (write m a b)

-- The list of arguments is the list that the `next` pointers chain, each of 512 bytes.
pub process_count_command_arguments : List (List ℕ) → ℕ
process_count_command_arguments [] = 0
process_count_command_arguments (argument ∷ rest) = process_count_command_arguments rest + 1

-- The loop of `process_inject_arguments` at index `i`.
pub inject_loop : List (List ℕ) → ℕ → ℕ → Process → Store → Option (Status × Process × Store)
inject_loop [] i argv p s = some (all_ok, p, s)
inject_loop (argument ∷ rest) i argv p s = elim (process_malloc 512 p s) [
  | none ↦ none
  | some (zero, p', s') ↦ some (enomem, p', s')
  | some (suc n, p', s') ↦ elim (strncpy argument 512) [
    | none ↦ none
    | some bytes ↦
        let m = store32 (u32 (argv + 4 * i)) (suc n) (write_bytes (suc n) bytes s'.memory) in
        inject_loop rest (i + 1) argv p' (record s' { memory = m })
  ]
]

abbrev pub with_arguments :
    ℕ → ℕ → Option (Status × Process × Store) → Option (Status × Process × Store)
with_arguments argc argv none = none
with_arguments argc argv (some (all_ok, p, s)) =
    some (all_ok, record p { argc = argc; argv = argv }, s)
with_arguments argc argv (some (err, p, s)) = some (err, p, s)

pub process_inject_arguments : List (List ℕ) → Process → Store → Option (Status × Process × Store)
process_inject_arguments arguments p s =
    let argc = process_count_command_arguments arguments in
    elim (argc == 0) [
      | true ↦ some (eio, p, s)
      | false ↦ elim (process_malloc (4 * argc) p s) [
        | none ↦ none
        | some (zero, p', s') ↦ some (enomem, p', s')
        | some (suc n, p', s') ↦ with_arguments argc (suc n) (inject_loop arguments 0 (suc n) p' s')
      ]
    ]

-- `argc` and `argv`
pub process_get_arguments : Process → ℕ × ℕ
process_get_arguments p = (p.argc, p.argv)
