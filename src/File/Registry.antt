-- ===== src/File/Registry.antt =====
-- src/fs/file.c: the array of file systems, and the one that a disk has. A file system is its number; what
-- its `resolve` returns for the disk is a parameter.
use maer_os.Common.{
  ℕ, zero, suc, ◌+◌, Option, none, some, List, [], ◌∷◌, set, replicate, ℤ, pos, negsuc,
}

-- `MAEROS_MAX_FILESYSTEMS`
abbrev pub max_filesystems : ℕ
max_filesystems = 12

-- `filesystems`
abbrev pub Filesystems : Type 0
Filesystems = List (Option ℕ)

-- The loop of `fs_get_free_filesystem` at index `i`.
pub free_filesystem : Filesystems → ℕ → Option ℕ
free_filesystem [] i = none
free_filesystem (none ∷ l) i = some i
free_filesystem (some fs ∷ l) i = free_filesystem l (i + 1)

pub fs_get_free_filesystem : Filesystems → Option ℕ
unfolding free_filesystem
fs_get_free_filesystem l = free_filesystem l 0

-- `none` is the endless loop behind the message.
pub fs_insert_filesystem : ℕ → Filesystems → Option Filesystems
unfolding fs_get_free_filesystem
fs_insert_filesystem fs l = elim (fs_get_free_filesystem l) [
  | none ↦ none
  | some i ↦ some (set l i (some fs))
]

-- `fs_static_load` on an empty array; `fat16` is what `fat16_init` returns.
pub fs_load : ℕ → Option Filesystems
unfolding fs_insert_filesystem
fs_load fat16 = fs_insert_filesystem fat16 (replicate max_filesystems none)

abbrev pub is_zero : ℤ → Option ℕ → Option ℕ → Option ℕ
is_zero (pos zero) yes_value no_value = yes_value
is_zero (pos (suc n)) yes_value no_value = no_value
is_zero (negsuc n) yes_value no_value = no_value

-- The first file system of the array whose `resolve` returns 0 for the disk.
pub fs_resolve : (ℕ → ℤ) → Filesystems → Option ℕ
fs_resolve resolve [] = none
fs_resolve resolve (none ∷ l) = fs_resolve resolve l
fs_resolve resolve (some fs ∷ l) = is_zero (resolve fs) (some fs) (fs_resolve resolve l)
