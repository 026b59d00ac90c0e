-- ===== src/Loader/Volume.antt =====
-- src/fs/fat/fat16.c: fat16_fs, the driver's functions behind the interface of the files, from which
-- programs are loaded.
pub mod Calls
pub mod Served
use maer_os.Common.{
  ℕ, zero, suc, ◌+◌, ◌-◌, ◌^◌, Option, none, some, List, [], ◌∷◌, ◌++◌, get_elem?, set,
  if◌then◌else◌, ℤ, pos, negsuc, Status,
}
use maer_os.Disk.{Device}
use maer_os.File.{FileSystem, FileStat, FileMode}
use maer_os.Fat.Layout.{FatPrivate, is_negative}
use maer_os.Fat.Directory.{FatFileDescriptor, OpenResult, opened, refused, fat16_open}
use maer_os.Fat.Calls.{
  FileSeekMode, seek_set, seek_cur, seek_end, seek_other, fat16_stat, fat16_seek, fat16_read,
}
use maer_os.Loader.{code}

-- The descriptors that the driver has allocated. The one at an index has the index and 1 as its address,
-- and a new one goes to the first free place.
abbrev pub FatFiles : Type 0
FatFiles = List (Option FatFileDescriptor)

pub free_place : FatFiles → ℕ
free_place [] = 0
free_place (none ∷ l) = 0
free_place (some d ∷ l) = suc (free_place l)

-- A list is one place longer with a descriptor behind its end.
pub place : FatFiles → ℕ → FatFileDescriptor → FatFiles
place [] i d = some d ∷ []
place (x ∷ l) zero d = some d ∷ l
place (x ∷ l) (suc i) d = x ∷ place l i d

unfoldable pub descriptor_at : ℕ → FatFiles → Option FatFileDescriptor
descriptor_at zero l = none
descriptor_at (suc i) l = elim (get_elem? l i) [ none ↦ none | some x ↦ x ]

-- The driver's state; `none` is one that has faulted.
abbrev pub State : Type 0
State = Option FatFiles

-- A 32-bit `int`.
abbrev pub to_int : ℕ → ℤ
to_int w = if is_negative w then negsuc (2 ^ 32 - 1 - w) else pos w

abbrev pub whence_mode : ℕ → FileSeekMode
whence_mode zero = seek_set
whence_mode (suc zero) = seek_cur
whence_mode (suc (suc zero)) = seek_end
whence_mode (suc (suc (suc n))) = seek_other

-- What `fat16_open` returned: the descriptor is allocated.
pub keep_opened : FatFiles → Option OpenResult → Option ℕ × State
keep_opened l none = (none, none)
keep_opened l (some (refused err)) = (none, some l)
keep_opened l (some (opened d)) = (some (suc (free_place l)), some (place l (free_place l) d))

-- The string of a path's part is in cleared memory, so zeros are behind it.
abbrev pub part_string : List ℕ → List ℕ
part_string part = part ++ (0x00 ∷ [])

abbrev pub part_strings : List (List ℕ) → List (List ℕ)
part_strings [] = []
part_strings (part ∷ parts) = part_string part ∷ part_strings parts

module _ (device : Device) (fuel : ℕ) (private : FatPrivate) where
  pub open_in : List (List ℕ) → FileMode → State → Option ℕ × State
  open_in parts mode none = (none, none)
  open_in [] mode (some l) = (none, none)
  open_in (part ∷ parts) mode (some l) =
      keep_opened l (fat16_open device fuel private (part_string part) (part_strings parts) mode)

  pub read_in : ℕ → ℕ → ℕ → State → ℤ × List ℕ × State
  read_in p size nmemb none = (negsuc 0, [], none)
  read_in p size nmemb (some l) = elim (descriptor_at p l) [
    | none ↦ (negsuc 0, [], none)
    | some d ↦ elim (fat16_read device private d size nmemb) [
      | none ↦ (negsuc 0, [], none)
      | some (res, bytes) ↦ (to_int res, bytes, some l)
    ]
  ]

  pub seek_in : ℕ → ℕ → ℕ → State → ℤ × State
  seek_in p offset whence none = (negsuc 0, none)
  seek_in p offset whence (some l) = elim (descriptor_at p l) [
    | none ↦ (negsuc 0, none)
    | some d ↦
        let (res, d') = fat16_seek d offset (whence_mode whence) in
        (code res, some (set l (p - 1) (some d')))
  ]

  pub stat_in : ℕ → State → ℤ × Option FileStat
  stat_in p none = (negsuc 0, none)
  stat_in p (some l) = elim (descriptor_at p l) [
    | none ↦ (negsuc 0, none)
    | some d ↦ let (res, stat) = fat16_stat d in (code res, stat)
  ]

  -- `fat16_close` frees the descriptor and returns 0.
  pub close_in : ℕ → State → ℤ × State
  close_in p none = (negsuc 0, none)
  close_in p (some l) = elim (descriptor_at p l) [
    | none ↦ (negsuc 0, none)
    | some d ↦ (pos 0, some (set l (p - 1) none))
  ]

  unfoldable pub fat16_fs : FileSystem State
  fat16_fs = record {
    open_path = open_in;
    read = read_in;
    seek = seek_in;
    close = close_in;
    stat = stat_in;
  }
