-- ===== src/Fat/Naming.antt =====
-- The names of directory items, and their comparison.
use maer_os.Common.{
  ℕ, zero, ◌-◌, Bool, true, false, Option, none, some, List, [], ◌∷◌, ◌++◌, length, get_or,
  replicate, leb, ◌==◌, ◌||◌, if◌then◌else◌, ℤ, pos,
}
use maer_os.Strings.{written, istrncmp}
use maer_os.PathParser.{max_path}
use maer_os.Fat.Layout.{FatDirectoryItem}

-- A null or a space ends a field.
abbrev pub ends_field : ℕ → Bool
ends_field c = c == 0x00 || c == 0x20

-- The bytes in front of the terminator that is written; `size` counts what may still be read.
unfoldable pub fat16_to_proper_string : List ℕ → ℕ → Option (List ℕ)
fat16_to_proper_string [] size = none
fat16_to_proper_string (c ∷ cs) size =
    if ends_field c
    then some []
    else if leb size 1
    then some (c ∷ [])
    else written c (fat16_to_proper_string cs (size - 1))

-- The buffer of `max_len` bytes that holds a name.
abbrev pub in_buffer : ℕ → List ℕ → List ℕ
in_buffer max_len name = name ++ replicate (max_len - length name) 0x00

unfoldable pub fat16_get_full_relative_filename : FatDirectoryItem → ℕ → Option (List ℕ)
fat16_get_full_relative_filename item max_len = elim (fat16_to_proper_string item.filename 8) [
  | none ↦ none
  | some name ↦ elim (ends_field (get_or item.ext 0 0x00)) [
    | true ↦ some (in_buffer max_len name)
    | false ↦ elim (fat16_to_proper_string item.ext 3) [
      | none ↦ none
      | some ext ↦ some (in_buffer max_len (name ++ (0x2e ∷ ext)))
    ]
  ]
]

-- The test that a comparison gave 0; `none` is a read behind a string.
abbrev pub is_zero : Option ℤ → Option Bool
is_zero none = none
is_zero (some (pos zero)) = some true
is_zero (some other) = some false

-- The comparison of an item's name, without regard to case.
unfoldable pub same_name : FatDirectoryItem → List ℕ → Option Bool
same_name item name = elim (fat16_get_full_relative_filename item max_path) [
  | none ↦ none
  | some tmp_filename ↦ is_zero (istrncmp tmp_filename name max_path)
]
