-- ===== src/Loader/Volume/Calls.antt =====
-- The calls on a file through the table of descriptors and the FAT16 driver.
use maer_os.Common.{
  ℕ, zero, suc, ◌+◌, ◌-◌, ◌<◌, ◌≡◌, refl, sym, ap, subst, ◌∙◌, none, some, List, [], ◌∷◌, get_elem?,
  set, length, pos, ◌==◌, if◌then◌else◌, bit_and, arith, ==_false,
}
use mathlib.Core.Option.{some-injective}
use maer_os.Disk.{Device, bytes_from, disk_get}
use maer_os.Strings.{strncmp}
use maer_os.PathParser.{pathparser_parse}
use maer_os.File.{
  FileDescriptor, Descriptors, FileSystem, mode_read, file_new_descriptor, file_get_mode_by_string,
  fopen, fclose, fread, fstat,
}
use maer_os.File.Table.{IsNew, file_new_descriptor-IsNew}
use maer_os.File.Calls.{open_reading, close_found}
use maer_os.Fat.Layout.{FatDirectoryItem, FatPrivate}
use maer_os.Fat.Directory.{file_item, FatFileDescriptor, opened, fat16_open}
use maer_os.Fat.Calls.{fat16_stat, fat16_read}
use maer_os.Loader.{code, read_mode}
use maer_os.Loader.Volume.{
  FatFiles, State, free_place, place, keep_opened, part_string, part_strings, descriptor_at,
  fat16_fs, open_in, read_in, stat_in, close_in,
}

pub get_elem?-place :
    (l : FatFiles) (d : FatFileDescriptor)
    → get_elem? (place l (free_place l) d) (free_place l) ≡ some (some d)
unfolding place free_place
get_elem?-place [] d = refl
get_elem?-place (none ∷ l) d = refl
get_elem?-place (some e ∷ l) d = get_elem?-place l d

-- Freeing it makes its place the first free one again.
pub free_place-place :
    (l : FatFiles) (d : FatFileDescriptor)
    → free_place (set (place l (free_place l) d) (free_place l) none) ≡ free_place l
unfolding place free_place
free_place-place [] d = refl
free_place-place (none ∷ l) d = refl
free_place-place (some e ∷ l) d = ap suc (free_place-place l d)

pub length-bytes_from : (f : ℕ → ℕ) (i n : ℕ) → length (bytes_from f i n) ≡ n
length-bytes_from f i zero = refl
length-bytes_from f i (suc n) = omega (arith, length-bytes_from f (i + 1) n)

-- The driver has not faulted, and its first free place is that at the index `a`.
abbrev pub Ready : ℕ → State → Type 0
Ready a s = (l : FatFiles) × (s ≡ some l) × (free_place l ≡ a)

-- The descriptor is at the index `a`, which is the first free place when it is closed.
abbrev pub Open : ℕ → FatFileDescriptor → State → Type 0
Open a d s =
    (l : FatFiles) × (s ≡ some l)
    × (get_elem? l a ≡ some (some d))
    × (free_place (set l a none) ≡ a)

-- What `fopen` leaves: the descriptor at the index `a` of the driver and the number `fd + 1`.
abbrev pub file_descriptor : ℕ → ℕ → FileDescriptor
file_descriptor a fd = record { index = suc fd; private_data = suc a }

-- A file at the start of its descriptor.
abbrev pub from_start : FatDirectoryItem → FatFileDescriptor
from_start item = record { item = file_item item; pos = 0 }

module _ (device : Device) (fuel : ℕ) (private : FatPrivate) (a fd : ℕ) (ds open_ds : Descriptors)
    (item : FatDirectoryItem) where
  abbrev fs : FileSystem State
  fs = fat16_fs device fuel private

  pub file_descriptor-IsNew :
      (free : ℕ)
      → get_elem? ds free ≡ some none
      → file_new_descriptor (suc a) ds ≡ some (file_descriptor a fd, open_ds)
      → IsNew (suc a) ds open_ds (file_descriptor a fd)
  file_descriptor-IsNew free z e =
      let (desc, ds', e', new) = file_new_descriptor-IsNew (suc a) ds free z in
      subst (λ (x : FileDescriptor × Descriptors). IsNew (suc a) ds x.1 x.0)
        (some-injective _ _ (sym e' ∙ e)) new

  open_path_found :
      (part : List ℕ) (parts : List (List ℕ)) (l : FatFiles)
      → fat16_open device fuel private (part_string part) (part_strings parts) mode_read
        ≡ some (opened (from_start item))
      → free_place l ≡ a
      → open_in device fuel private (part ∷ parts) mode_read (some l)
        ≡ (some (suc a), some (place l a (from_start item)))
  unfolding open_in keep_opened
  open_path_found part parts l o p =
      rw (o, open_in) (ap (λ k. (some (suc k), some (place l k (from_start item)))) p)

  pub fopen_found :
      (filename part : List ℕ) (parts : List (List ℕ)) (l : FatFiles)
      → pathparser_parse filename ≡ some (some (record { drive_no = pos 0; parts = part ∷ parts }))
      → fat16_open device fuel private (part_string part) (part_strings parts) mode_read
        ≡ some (opened (from_start item))
      → file_new_descriptor (suc a) ds ≡ some (file_descriptor a fd, open_ds)
      → free_place l ≡ a
      → fopen fs filename read_mode ds (some l)
        ≡ some (suc fd, open_ds, some (place l a (from_start item)))
  unfolding fopen disk_get fat16_fs file_get_mode_by_string strncmp
  fopen_found filename part parts l e o d p =
      rw (e, fopen)
        (ap (λ (x : ℕ × Descriptors × State). some x)
          (open_reading fs (part ∷ parts) ds open_ds (some l) (some (place l a (from_start item)))
            (suc a) (file_descriptor a fd) (open_path_found part parts l o p) d))

  descriptor_here :
      (l : FatFiles)
      → get_elem? l a ≡ some (some (from_start item))
      → descriptor_at (suc a) l ≡ some (from_start item)
  unfolding descriptor_at
  descriptor_here l e = rw (e, descriptor_at) refl

  module _ (new : IsNew (suc a) ds open_ds (file_descriptor a fd)) (below : suc fd < 512)
      (l : FatFiles) (e : get_elem? l a ≡ some (some (from_start item))) where
    pub fstat_found : fstat fs (pos (suc fd)) open_ds (some l) ≡ (
      pos 0,
      some (record {
        flags = if bit_and item.attribute 0x01 == 0 then 0x00 else 0x01;
        filesize = item.filesize;
      }),
    )
    unfolding fstat fat16_fs stat_in fat16_stat code
    fstat_found = rw (new.found below, fstat) (rw (descriptor_here l e, stat_in) refl)

    pub fread_found :
        (bytes : List ℕ)
        → 0 < item.filesize
        → fat16_read device private (from_start item) item.filesize 1 ≡ some (1, bytes)
        → fread fs item.filesize 1 (pos (suc fd)) open_ds (some l) ≡ (pos 1, bytes, some l)
    unfolding fread fat16_fs read_in
    fread_found bytes p r =
        rw (==_false item.filesize 0 (λ z. omega (arith, z)), fread)
          (rw (new.found below) (rw (descriptor_here l e, read_in) (rw r refl)))

    pub fclose_found : fclose fs (pos (suc fd)) open_ds (some l) ≡ (pos 0, ds, some (set l a none))
    unfolding fat16_fs close_in
    fclose_found =
        let z : suc a - 1 ≡ a = omega arith in
        close_found fs (suc fd) open_ds (some l) (some (set l a none)) (file_descriptor a fd)
          (new.found below)
          (rw (descriptor_here l e, close_in) (ap (λ k. (pos 0, some (set l k none))) z))
        ∙ ap (λ (x : Descriptors). (pos 0, x, some (set l a none))) new.freed
