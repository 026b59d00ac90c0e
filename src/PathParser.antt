-- ===== src/PathParser.antt =====
-- src/fs/pparser.c: paths such as "0:/bin/a.elf". The allocations succeed; the parts of a path are the
-- list that the `next` pointers chain.
pub mod Print
mod Tests
use maer_os.Common.{
  ℕ, zero, suc, ◌+◌, ◌-◌, Bool, true, false, Option, none, some, List, [], ◌∷◌, length, drop,
  get_or, ltb, leb, ◌==◌, ◌&&◌, ◌||◌, if◌then◌else◌, ℤ,
}
use maer_os.Strings.{strlen, strnlen, isdigit, tonumericdigit}

-- `MAEROS_MAX_PATH`
abbrev pub max_path : ℕ
max_path = 108

-- `struct path_root`
pub record PathRoot : Type 0 where
  pub drive_no : ℤ
  pub parts : List (List ℕ)

-- `memcmp(&filename[1], ":/", 2) == 0`
abbrev pub colon_slash : List ℕ → Bool
colon_slash filename = get_or filename 1 0 == 0x3a && get_or filename 2 0 == 0x2f

-- `none` is a read behind the string.
unfoldable pub pathparser_path_valid_format : List ℕ → Option Bool
pathparser_path_valid_format filename = elim (strnlen filename max_path) [
  | none ↦ none
  | some len ↦ some (leb 3 len && isdigit (get_or filename 0 0) && colon_slash filename)
]

-- The drive's number and the path behind the prefix, or the null that stands for -EBADPATH.
unfoldable pub pathparser_get_drive_by_path : List ℕ → Option (Option (ℤ × List ℕ))
pathparser_get_drive_by_path [] = none
pathparser_get_drive_by_path (c ∷ cs) = elim (pathparser_path_valid_format (c ∷ cs)) [
  | none ↦ none
  | some false ↦ some none
  | some true ↦ some (some (tonumericdigit c, drop 2 cs))
]

-- The bytes up to a slash or the terminator, and the path from there on.
abbrev pub in_part : ℕ → Option (List ℕ × List ℕ) → Option (List ℕ × List ℕ)
in_part c none = none
in_part c (some (part, path)) = some (c ∷ part, path)

unfoldable pub part_loop : List ℕ → Option (List ℕ × List ℕ)
part_loop [] = none
part_loop (c ∷ cs) = if c == 0x2f || c == 0x00 then some ([], c ∷ cs) else in_part c (part_loop cs)

unfoldable pub skip_slash : List ℕ → List ℕ
skip_slash [] = []
skip_slash (c ∷ cs) = if c == 0x2f then cs else c ∷ cs

-- The part, empty where the source returns null, and the path behind it.
unfoldable pub pathparser_get_path_part : List ℕ → Option (List ℕ × List ℕ)
pathparser_get_path_part path = elim (part_loop path) [
  | none ↦ none
  | some (part, path') ↦ some (part, skip_slash path')
]

abbrev pub linked : List ℕ → Option (List (List ℕ)) → Option (List (List ℕ))
linked part none = none
linked part (some parts) = some (part ∷ parts)

-- The calls of `pathparser_parse_path_part` in `pathparser_parse`, until one returns null.
unfoldable pub parse_parts : ℕ → List ℕ → Option (List (List ℕ))
parse_parts zero path = none
parse_parts (suc fuel) path = elim (pathparser_get_path_part path) [
  | none ↦ none
  | some ([], path') ↦ some []
  | some (c ∷ part, path') ↦ linked (c ∷ part) (parse_parts fuel path')
]

abbrev pub rooted : ℤ → Option (List (List ℕ)) → Option (Option PathRoot)
rooted drive none = none
rooted drive (some parts) = some (some (record { drive_no = drive; parts = parts }))

-- `some none` is the null that a refused path gives.
unfoldable pub pathparser_parse : List ℕ → Option (Option PathRoot)
pathparser_parse path = elim (strlen path) [
  | none ↦ none
  | some len ↦ if ltb max_path len then some none else elim (pathparser_get_drive_by_path path) [
    | none ↦ none
    | some none ↦ some none
    | some (some (drive, path')) ↦ rooted drive (parse_parts (suc (length path)) path')
  ]
]
