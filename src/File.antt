-- ===== src/File.antt =====
-- src/fs/file.c: the table of file descriptors and the calls on them. The file system behind the
-- function pointers is an interface; its own state is passed along.
pub mod Table
pub mod Calls
pub mod Registry
mod Tests
use maer_os.Common.{
  ℕ, zero, suc, ◌+◌, ◌-◌, Bool, true, false, Option, none, some, List, [], ◌∷◌, get_elem?, set,
  replicate, ltb, leb, ◌==◌, ◌||◌, if◌then◌else◌, Status, all_ok, eio, einvarg, enomem, ℤ, pos,
  negsuc,
}
use maer_os.Strings.{strncmp}
use maer_os.Disk.{disk_get}
use maer_os.PathParser.{PathRoot, pathparser_parse}

-- `MAEROS_MAX_FILE_DESCRIPTORS`
abbrev pub max_file_descriptors : ℕ
max_file_descriptors = 512

-- `struct file_descriptor`, with the file system's private data as a handle; there is one disk, and it
-- has the one file system.
pub record FileDescriptor : Type 0 where
  pub index : ℕ
  pub private_data : ℕ

-- `file_descriptors`
abbrev pub Descriptors : Type 0
Descriptors = List (Option FileDescriptor)

pub data FileMode : Type 0 where
  mode_read : FileMode
  mode_write : FileMode
  mode_append : FileMode
  mode_invalid : FileMode

-- `struct file_stat`
pub record FileStat : Type 0 where
  pub flags : ℕ
  pub filesize : ℕ

-- The functions of `struct filesystem`, over the file system's state: an open gives a handle or an
-- error, a read what it returns with the bytes, a stat what it returns and what it stores.
pub record FileSystem (F : Type 0) : Type 0 where
  pub open_path : List (List ℕ) → FileMode → F → Option ℕ × F
  pub read : ℕ → ℕ → ℕ → F → ℤ × List ℕ × F
  pub seek : ℕ → ℕ → ℕ → F → ℤ × F
  pub close : ℕ → F → ℤ × F
  pub stat : ℕ → F → ℤ × Option FileStat

-- `fs_init`, of the descriptors
pub clear_descriptors : Descriptors
clear_descriptors = replicate max_file_descriptors none

-- The loop of `file_new_descriptor` at index `i`: the first free slot.
unfoldable pub free_slot : Descriptors → ℕ → Option ℕ
free_slot [] i = none
free_slot (none ∷ ds) i = some i
free_slot (some d ∷ ds) i = free_slot ds (i + 1)

-- `none` is -ENOMEM; the private data is what `fopen` stores behind the call.
unfoldable pub file_new_descriptor : ℕ → Descriptors → Option (FileDescriptor × Descriptors)
file_new_descriptor private_data ds = elim (free_slot ds 0) [
  | none ↦ none
  | some i ↦
      let desc : FileDescriptor = record { index = i + 1; private_data = private_data } in
      some (desc, set ds i (some desc))
]

-- Descriptors start at 1.
unfoldable pub file_get_descriptor : ℤ → Descriptors → Option FileDescriptor
file_get_descriptor (negsuc n) ds = none
file_get_descriptor (pos zero) ds = none
file_get_descriptor (pos (suc index)) ds =
    if leb max_file_descriptors (suc index)
    then none
    else elim (get_elem? ds index) [ none ↦ none | some slot ↦ slot ]

unfoldable pub file_free_descriptor : FileDescriptor → Descriptors → Descriptors
file_free_descriptor desc ds = set ds (desc.index - 1) none

abbrev pub starts_with : List ℕ → ℕ → Bool
starts_with str c = elim (strncmp str (c ∷ 0 ∷ []) 1) [ some (pos zero) ↦ true | _ ↦ false ]

-- The modes "r", "w" and "a", by the first byte.
unfoldable pub file_get_mode_by_string : List ℕ → FileMode
file_get_mode_by_string str =
    if starts_with str 0x72
    then mode_read
    else if starts_with str 0x77
    then mode_write
    else if starts_with str 0x61
    then mode_append
    else mode_invalid

-- `fd < 1`
abbrev pub below_one : ℤ → Bool
below_one (pos zero) = true
below_one (pos (suc n)) = false
below_one (negsuc n) = true

-- The index of the disk that a path names, if it is not below 0.
abbrev pub disk_of : ℤ → Option ℕ
disk_of (pos n) = disk_get n
disk_of (negsuc n) = none

module _ {F : Type 0} (fs : FileSystem F) where
  -- `fopen` behind the checks of the path: the file system's open, and a descriptor for its handle.
  unfoldable pub open_file : List (List ℕ) → FileMode → Descriptors → F → ℕ × Descriptors × F
  open_file parts mode_invalid ds f = (0, ds, f)
  open_file parts mode ds f =
      let (private_data, f') = fs.open_path parts mode f in
      elim private_data [
        | none ↦ (0, ds, f')
        | some p ↦ elim (file_new_descriptor p ds) [
          | none ↦ (0, ds, f')
          | some (desc, ds') ↦ (desc.index, ds', f')
        ]
      ]

  -- What is 0 stands for every error. `none` is a read behind the end of the path.
  unfoldable pub fopen : List ℕ → List ℕ → Descriptors → F → Option (ℕ × Descriptors × F)
  fopen filename mode_str ds f = elim (pathparser_parse filename) [
    | none ↦ none
    | some none ↦ some (0, ds, f)
    | some (some root) ↦ elim root.parts [
      | [] ↦ some (0, ds, f)
      | part ∷ parts ↦ elim (disk_of root.drive_no) [
        | none ↦ some (0, ds, f)
        | some disk ↦ some (open_file (part ∷ parts) (file_get_mode_by_string mode_str) ds f)
      ]
    ]
  ]

  unfoldable pub fclose : ℤ → Descriptors → F → ℤ × Descriptors × F
  fclose fd ds f = elim (file_get_descriptor fd ds) [
    | none ↦ (negsuc 0, ds, f)
    | some desc ↦
        let (res, f') = fs.close desc.private_data f in
        elim res [
          | pos zero ↦ (pos zero, file_free_descriptor desc ds, f')
          | pos (suc n) ↦ (pos (suc n), ds, f')
          | negsuc n ↦ (negsuc n, ds, f')
        ]
  ]

  pub fseek : ℤ → ℕ → ℕ → Descriptors → F → ℤ × F
  fseek fd offset whence ds f = elim (file_get_descriptor fd ds) [
    | none ↦ (negsuc 0, f)
    | some desc ↦ fs.seek desc.private_data offset whence f
  ]

  unfoldable pub fread : ℕ → ℕ → ℤ → Descriptors → F → ℤ × List ℕ × F
  fread size nmemb fd ds f =
      if size == 0 || nmemb == 0 || below_one fd
      then (negsuc 1, [], f)
      else elim (file_get_descriptor fd ds) [
        | none ↦ (negsuc 1, [], f)
        | some desc ↦ fs.read desc.private_data size nmemb f
      ]

  unfoldable pub fstat : ℤ → Descriptors → F → ℤ × Option FileStat
  fstat fd ds f = elim (file_get_descriptor fd ds) [
    | none ↦ (negsuc 0, none)
    | some desc ↦ fs.stat desc.private_data f
  ]
