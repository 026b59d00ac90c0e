-- ===== src/Fat/Directory.antt =====
-- Directories: their items, the root directory, the path to an item, and opening a volume
-- and a file. Allocations succeed; what is freed is not modelled.
pub mod Count
pub mod Names
pub mod Find
pub mod Root
pub mod Walk
use maer_os.Common.{
  ℕ, zero, suc, ◌+◌, ◌-◌, ◌*◌, ◌/◌, ◌%◌, bit_and, Bool, true, false, Option, none, some, List, [],
  ◌∷◌, ◌++◌, length, get_or, take, drop, replicate, leb, ◌==◌, ◌||◌, if◌then◌else◌, u32, Status,
  all_ok, eio, efsnotus, erdonly, ℤ, pos,
}
use maer_os.Strings.{written, istrncmp}
use maer_os.PathParser.{max_path}
use maer_os.File.{FileMode, mode_read}
use maer_os.Disk.{Device, DiskStream, sector_size}
use maer_os.Fat.Naming.{same_name}
use maer_os.Fat.Layout.{
  FatH, fat_h_of, sizeof_fat_h, FatDirectoryItem, sizeof_item, item_of, FatDirectory, FatPrivate,
  minus, is_negative,
}
use maer_os.Fat.Clusters.{
  stream_read, fat16_sector_to_absolute, fat16_get_first_cluster, fat16_cluster_to_sector,
  size_of_cluster_bytes, fat16_read_internal,
}

-- The copy, or the null that a size below the item's gives.
unfoldable pub fat16_clone_directory_item : FatDirectoryItem → ℕ → Option FatDirectoryItem
fat16_clone_directory_item item size = if leb sizeof_item size then some item else none

-- The items in the bytes of a directory.
unfoldable pub items_of : ℕ → List ℕ → List FatDirectoryItem
items_of zero bytes = []
items_of (suc n) bytes = item_of bytes ∷ items_of n (drop sizeof_item bytes)

-- `struct fat_item`. A directory that could not be loaded is freed, and the item keeps the pointer; of
-- an item that is none there is no directory, and the pointer is null.
pub data FatItem : Type 0 where
  directory_item : FatDirectory → FatItem
  file_item : FatDirectoryItem → FatItem
  dangling_item : FatItem
  null_item : FatItem

-- `struct fat_file_descriptor`
pub record FatFileDescriptor : Type 0 where
  pub item : FatItem
  pub pos : ℕ

-- What `fat16_open` returns: a descriptor, or a code as a pointer.
pub data OpenResult : Type 0 where
  opened : FatFileDescriptor → OpenResult
  refused : Status → OpenResult

-- How many rounds a loop up to an `int` has.
abbrev pub rounds : ℕ → ℕ
rounds total = if is_negative total then 0 else total

-- The directory's loop at a position, with the items counted so far; -EIO if a read fails.
unfoldable pub count_loop : Device → ℕ → ℕ → ℕ → Option ℕ
count_loop device zero at i = none
count_loop device (suc fuel) at i = elim (stream_read device at sizeof_item) [
  | none ↦ none
  | some (all_ok, bytes, stream) ↦ elim (get_or bytes 0 0 == 0x00) [
    | true ↦ some i
    | false ↦ elim (get_or bytes 0 0 == 0xE5) [
      | true ↦ count_loop device fuel stream.pos i
      | false ↦ count_loop device fuel stream.pos (i + 1)
    ]
  ]
  | some (res, bytes, stream) ↦ some (minus 1)
]

-- Two fields of the header as one position on the disk.
unfoldable pub root_dir_sector_pos : FatH → ℕ
root_dir_sector_pos header =
    header.primary_header.fat_copies * header.primary_header.sectors_per_fat
    + header.primary_header.reserved_sectors

-- `fuel` is the number of items of a directory that are looked at; `none` is a fault.
module _ (device : Device) (fuel : ℕ) where
  unfoldable pub fat16_get_total_items_for_directory : ℕ → Option ℕ
  fat16_get_total_items_for_directory directory_start_sector =
      count_loop device fuel (u32 (directory_start_sector * sector_size)) 0

  unfoldable pub fat16_get_root_directory : FatH → Option (Status × Option FatDirectory)
  fat16_get_root_directory header =
      let at = root_dir_sector_pos header in
      let root_dir_size = header.primary_header.root_dir_entries * sizeof_item in
      elim (fat16_get_total_items_for_directory at) [
        | none ↦ none
        | some total_items ↦ elim (stream_read device (fat16_sector_to_absolute at) root_dir_size) [
          | none ↦ none
          | some (all_ok, bytes, stream) ↦ some (
            all_ok,
            some (record {
              item = items_of header.primary_header.root_dir_entries bytes;
              total = total_items;
              sector_pos = at;
              ending_sector_pos = at + root_dir_size / sector_size;
            }),
          )
          | some (res, bytes, stream) ↦ some (eio, none)
        ]
      ]

  -- The status and the volume; `disk->filesystem` is set whatever the status.
  unfoldable pub fat16_resolve : Option (Status × Option FatPrivate)
  fat16_resolve = elim (stream_read device 0 sizeof_fat_h) [
    | none ↦ none
    | some (all_ok, bytes, stream) ↦
        let header = fat_h_of bytes in
        elim (header.extended_header.signature == 0x29) [
          | false ↦ some (efsnotus, none)
          | true ↦ elim (fat16_get_root_directory header) [
            | none ↦ none
            | some (res, none) ↦ some (eio, none)
            | some (res, some root) ↦
                some (all_ok, some (record { header = header; root_directory = root }))
          ]
        ]
    | some (res, bytes, stream) ↦ some (eio, none)
  ]

  module _ (private : FatPrivate) where
    -- `FAT_FILE_SUBDIRECTORY` is 0x10. A count of -EIO makes a size that `kzalloc` cannot clear.
    unfoldable pub fat16_load_fat_directory : FatDirectoryItem → Option FatItem
    fat16_load_fat_directory item =
        let cluster = fat16_get_first_cluster item in
        elim (bit_and item.attribute 0x10 == 0) [
          | true ↦ some null_item
          | false ↦
              elim (fat16_get_total_items_for_directory (fat16_cluster_to_sector private cluster)) [
                | none ↦ none
                | some total ↦ elim (is_negative total) [
                  | true ↦ none
                  | false ↦
                      let size = total * sizeof_item in
                      elim (fat16_read_internal device private (size + 1) cluster 0 size) [
                        | none ↦ none
                        | some (zero, bytes) ↦ some (
                            directory_item (record {
                              item = items_of total bytes;
                              total = total;
                              sector_pos = 0;
                              ending_sector_pos = 0;
                            }))
                        | some (res, bytes) ↦ some dangling_item
                      ]
                ]
              ]
        ]

    unfoldable pub fat16_new_fat_item_for_directory_item : FatDirectoryItem → Option FatItem
    fat16_new_fat_item_for_directory_item item = elim (bit_and item.attribute 0x10 == 0) [
      | false ↦ fat16_load_fat_directory item
      | true ↦ elim (fat16_clone_directory_item item sizeof_item) [
        | none ↦ none
        | some copy ↦ some (file_item copy)
      ]
    ]

    -- The loop over the items with some rounds left; a later match replaces an earlier one.
    unfoldable pub find_loop :
        List FatDirectoryItem → ℕ → List ℕ → Option FatItem → Option (Option FatItem)
    find_loop items zero name f_item = some f_item
    find_loop [] (suc left) name f_item = none
    find_loop (item ∷ items) (suc left) name f_item = elim (same_name item name) [
      | none ↦ none
      | some false ↦ find_loop items left name f_item
      | some true ↦ elim (fat16_new_fat_item_for_directory_item item) [
        | none ↦ none
        | some found ↦ find_loop items left name (some found)
      ]
    ]

    unfoldable pub fat16_find_item_in_directory : FatDirectory → List ℕ → Option (Option FatItem)
    fat16_find_item_in_directory directory name =
        find_loop directory.item (rounds directory.total) name none

    -- The loop over the parts of a path. The item of a part that is missing is null, and its type is
    -- read all the same when a part follows.
    pub entry_loop : List (List ℕ) → Option FatItem → Option (Option FatItem)
    entry_loop [] current_item = some current_item
    entry_loop (part ∷ parts) none = none
    entry_loop (part ∷ parts) (some (file_item item)) = some none
    entry_loop (part ∷ parts) (some dangling_item) = none
    entry_loop (part ∷ parts) (some null_item) = none
    entry_loop (part ∷ parts) (some (directory_item directory)) =
        elim (fat16_find_item_in_directory directory part) [
          | none ↦ none
          | some tmp_item ↦ entry_loop parts tmp_item
        ]

    unfoldable pub fat16_get_directory_entry : List ℕ → List (List ℕ) → Option (Option FatItem)
    fat16_get_directory_entry part parts =
        elim (fat16_find_item_in_directory private.root_directory part) [
          | none ↦ none
          | some none ↦ some none
          | some (some root_item) ↦ entry_loop parts (some root_item)
        ]

    -- The first part of the path and the others.
    unfoldable pub fat16_open : List ℕ → List (List ℕ) → FileMode → Option OpenResult
    fat16_open part parts mode_read = elim (fat16_get_directory_entry part parts) [
      | none ↦ none
      | some none ↦ some (refused eio)
      | some (some item) ↦ some (opened (record { item = item; pos = 0 }))
    ]
    fat16_open part parts mode = some (refused erdonly)
