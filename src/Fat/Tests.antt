-- ===== src/Fat/Tests.antt =====
-- The FAT16 theorems on a small volume: the root directory in sector 2, with an unused item before the
-- file "A", whose clusters 2 and 3 are the sectors 3 and 4.
use maer_os.File.{Descriptors, file_new_descriptor, free_slot}
use maer_os.Loader.Program.Data.{IsServed}
use maer_os.Loader.Volume.{fat16_fs}
use maer_os.Loader.Volume.Calls.{Ready, Open, from_start}
use maer_os.Loader.Volume.Served.{fat16_fs-IsServed}
use maer_os.Common.{
  ℕ, true, dec_lt, ◌+◌, ◌*◌, ◌<◌, ◌≡◌, ◌↔◌, inl, inr, refl, none, some, List, [], ◌∷◌, ◌++◌, arith,
  ◌==◌, ◌&&◌, leb, pos, if◌then◌else◌, replicate, take, all_ok, eio,
}
use maer_os.Strings.{istrncmp, tolower, strnlen, strlen, isdigit, tonumericdigit}
use maer_os.PathParser.{
  pathparser_path_valid_format, pathparser_get_drive_by_path, part_loop, skip_slash,
  pathparser_get_path_part, parse_parts, pathparser_parse,
}
use maer_os.Strings.Laws.{IsText, c_string}
use maer_os.Strings.Case.{lowered}
use maer_os.Disk.{Device, bytes_from, disk_read_block, diskstreamer_read, total_to_read}
use maer_os.Disk.Read.{Holds}
use maer_os.File.{mode_read}
use maer_os.Fat.Layout.{FatH, fat_h_of, FatDirectoryItem, item_of, FatDirectory, FatPrivate}
use maer_os.Fat.Clusters.{
  fat16_get_first_cluster, fat16_get_cluster_for_offset, cluster_loop, starting_pos, stream_read,
  fat16_cluster_to_sector, fat_entry_position, fat16_read_internal,
}
use maer_os.Fat.Clusters.Reads.{IsChain, file_byte}
use maer_os.Fat.Naming.{same_name, fat16_get_full_relative_filename, fat16_to_proper_string}
use maer_os.Fat.Directory.{
  file_item, directory_item, FatFileDescriptor, opened, refused, root_dir_sector_pos, items_of,
  fat16_clone_directory_item, count_loop, fat16_get_total_items_for_directory,
  fat16_get_root_directory, fat16_load_fat_directory, fat16_new_fat_item_for_directory_item,
  find_loop, fat16_find_item_in_directory, fat16_open,
}
use maer_os.Fat.Directory.Count.{used}
use maer_os.Fat.Directory.Find.{Differ, Scanned, fat16_find_item_in_directory_last}
use maer_os.Fat.Directory.Walk.{Walks, here, InRoot, fat16_open_iff, fat16_open_missing}
use maer_os.Fat.Calls.{seek_set, fat16_seek, fat16_read}
use maer_os.Fat.Calls.Laws.{Fits, fat16_read_lem, fat16_read-fat16_seek}
use maer_os.Fat.Directory.Names.{IsField, HasName, same_name_iff}
use maer_os.Fat.Directory.Root.{HasRoot, root_items, fat16_find_item_in_directory_hidden}
use maer_os.Fat.Clusters.Entries.{fat_entry_position_wrong}

-- The bytes of the volume behind the header.
volume : ℕ → ℕ
volume k =
    if k == 1024
    then 0xE5
    else if k == 1056
    then 65
    else if leb 1057 k && leb k 1066
    then 0x20
    else if k == 2048
    then 3
    else 0

abbrev disk : Device
disk s = some (λ i. volume (s * 512 + i))

abbrev header : FatH
header = fat_h_of (
    0 ∷ 0 ∷ 0 ∷ replicate 8 0
    ++ (0 ∷ 2 ∷ 1 ∷ 1 ∷ 0 ∷ 1 ∷ 16 ∷ 0 ∷ 0 ∷ 0 ∷ 0xF8 ∷ 1 ∷ replicate 40 0))

-- "A", of 600 bytes from cluster 2 on
abbrev item_a : FatDirectoryItem
item_a = item_of (65 ∷ replicate 10 0x20 ++ replicate 15 0 ++ (2 ∷ 0 ∷ 0x58 ∷ 2 ∷ []))

abbrev private : FatPrivate
private = record {
  header = header;
  root_directory = record { item = item_a ∷ []; total = 1; sector_pos = 2; ending_sector_pos = 3 };
}

abbrev chain : ℕ → ℕ
chain i = i + 2

disk-Holds : Holds disk volume 6
disk-Holds s p = refl

chain-IsChain : IsChain volume private 6 chain 1
unfolding fat16_cluster_to_sector fat_h_of volume
chain-IsChain = record {
  links = λ i p. let z : i ≡ 0 = omega arith in rw z refl;
  links_on_disk = λ i p. let z : i ≡ 0 = omega arith in rw z (omega arith);
  reserved = omega arith;
  goes_on = λ i p. let z : i ≡ 0 = omega arith in rw z refl;
  positive = λ i p. omega arith;
  on_disk = λ i p. omega arith;
  disk_size = omega arith;
  cluster_size = omega arith;
}

fat_entry_position_wrong_example : 1 * 512 + 2 * 2 < fat_entry_position private 2
unfolding fat_h_of
fat_entry_position_wrong_example =
    fat_entry_position_wrong private 2 (omega arith) (omega arith) (omega arith)

-- "a", which is asked for in small letters
abbrev name_a : List ℕ
name_a = 97 ∷ []

abbrev capital_a : List ℕ
capital_a = 65 ∷ []

a-HasName : HasName item_a capital_a []
unfolding IsField item_of
a-HasName = record {
  filename = refl;
  ext_field = refl;
  name_field = (refl, tt);
  extension = tt;
  name_fits = omega arith;
  ext_fits = omega arith;
}

name_a-IsText : IsText name_a
unfolding IsText
name_a-IsText = ((λ e. omega (arith, e)), tt)

a_found : same_name item_a (c_string name_a []) ≡ some true
unfolding lowered tolower
a_found = (same_name_iff item_a capital_a [] name_a [] a-HasName name_a-IsText (omega arith)).1 refl

volume-HasRoot : HasRoot disk volume 6 9 2 header
unfolding root_dir_sector_pos fat_h_of volume
volume-HasRoot = record {
  holds = disk-Holds;
  enough = omega arith;
  named = λ k p. elim (dec_lt k 1) [
    | yes q ↦ let z : k ≡ 0 = omega arith in rw z (λ e. omega (arith, e))
    | no q ↦ let z : k ≡ 1 = omega arith in rw z (λ e. omega (arith, e))
  ];
  ended = refl;
  inside = omega arith;
  on_disk = omega arith;
  disk_size = omega arith;
}

-- The item with a null in its name is another one than "a".
unused-Differ : Differ (take (used volume 1024 2) (root_items volume header)) (c_string name_a [])
unfolding Differ used root_dir_sector_pos items_of fat_h_of item_of same_name
    fat16_get_full_relative_filename fat16_to_proper_string istrncmp tolower volume
unused-Differ = (refl, tt)

first_unused : volume (root_dir_sector_pos header * 512 + 32 * 0) ≡ 0xE5
unfolding root_dir_sector_pos fat_h_of volume
first_unused = refl

-- "a" is the one used item, at index 1, and is not found.
fat16_find_item_in_directory_hidden_example :
    (root : FatDirectory) × (fat16_get_root_directory disk 9 header ≡ some (all_ok, some root))
    × (root.total ≡ used volume (root_dir_sector_pos header * 512) 2)
    × (root.total < 2)
    × (fat16_find_item_in_directory disk 9 private root (c_string name_a []) ≡ some none)
unfolding root_dir_sector_pos fat_h_of
fat16_find_item_in_directory_hidden_example =
    fat16_find_item_in_directory_hidden disk volume 6 9 2 header private (c_string name_a []) 0
      volume-HasRoot (omega arith) first_unused unused-Differ

a_new : fat16_new_fat_item_for_directory_item disk 9 private item_a ≡ some (file_item item_a)
unfolding fat16_new_fat_item_for_directory_item fat16_clone_directory_item item_of
a_new = refl

fat16_find_item_in_directory_last_example :
    fat16_find_item_in_directory disk 9 private private.root_directory (c_string name_a [])
    ≡ some (some (file_item item_a))
unfolding Differ Scanned
fat16_find_item_in_directory_last_example =
    fat16_find_item_in_directory_last disk 9 private (c_string name_a []) private.root_directory []
      [] [] item_a (file_item item_a) refl refl tt a_found a_new tt

a-InRoot : InRoot disk 9 private (c_string name_a []) (file_item item_a)
unfolding Differ Scanned
a-InRoot =
    fat16_find_item_in_directory_last disk 9 private (c_string name_a []) private.root_directory []
      [] [] item_a (file_item item_a) refl refl tt a_found a_new tt

fat16_open_iff_example :
    (fat16_open disk 9 private (c_string name_a []) [] mode_read
      ≡ some (opened (record { item = file_item item_a; pos = 0 })))
    ↔ Walks disk 9 private (file_item item_a) [] (file_item item_a)
fat16_open_iff_example =
    fat16_open_iff disk 9 private (c_string name_a []) [] (file_item item_a) (file_item item_a)
      a-InRoot

-- A volume whose one item is an empty directory.
abbrev empty : FatDirectory
empty = record { item = []; total = 0; sector_pos = 0; ending_sector_pos = 0 }

abbrev with_directory : FatPrivate
with_directory = record private {
  root_directory = record {
    item = record item_a { attribute = 0x10 } ∷ [];
    total = 1;
    sector_pos = 2;
    ending_sector_pos = 3;
  };
}

directory-InRoot : InRoot disk 9 with_directory (c_string name_a []) (directory_item empty)
unfolding fat16_find_item_in_directory find_loop same_name fat16_get_full_relative_filename
    fat16_to_proper_string istrncmp tolower item_of fat16_new_fat_item_for_directory_item
    fat16_load_fat_directory fat16_get_total_items_for_directory count_loop items_of
    fat16_get_first_cluster fat16_cluster_to_sector fat16_read_internal fat16_get_cluster_for_offset
    cluster_loop starting_pos stream_read diskstreamer_read disk_read_block total_to_read fat_h_of
    volume
directory-InRoot = refl

empty_missing :
    fat16_find_item_in_directory disk 9 with_directory empty (c_string name_a []) ≡ some none
unfolding fat16_find_item_in_directory find_loop
empty_missing = refl

fat16_open_missing_example :
    (fat16_open disk 9 with_directory
        (c_string name_a [])
        ([] ++ (c_string name_a [] ∷ []))
        mode_read
      ≡ some (refused eio))
    × (fat16_open disk 9 with_directory
          (c_string name_a [])
          ([] ++ (c_string name_a [] ∷ c_string name_a [] ∷ []))
          mode_read
        ≡ none)
fat16_open_missing_example =
    fat16_open_missing disk 9 with_directory (c_string name_a []) (c_string name_a [])
      (c_string name_a []) [] [] (directory_item empty) empty directory-InRoot here empty_missing

-- Three blocks of 200 bytes from offset 0 on do not all fit the clusters, one of 600 bytes does.
abbrev desc_a : FatFileDescriptor
desc_a = record { item = file_item item_a; pos = 0 }

a_cluster : fat16_get_first_cluster item_a ≡ chain 0
unfolding fat16_get_first_cluster item_of
a_cluster = refl

one_block : (i : ℕ) → i < 1 → Fits private (0 + i * 600) 600
unfolding fat_h_of
one_block i p = let z : i ≡ 0 = omega arith in rw z (inl refl)

fat16_read_lem_example :
    fat16_read disk private desc_a 600 1
    ≡ some (1, bytes_from (file_byte volume private chain) 0 (1 * 600))
unfolding fat_h_of
fat16_read_lem_example =
    fat16_read_lem disk volume private 6 chain 1 chain-IsChain disk-Holds desc_a item_a 600 1 refl
      a_cluster one_block (omega arith) (omega arith) (omega arith)

blocks : (i : ℕ) → i < 2 → Fits private (256 + i * 128) 128
unfolding fat_h_of
blocks i p = inr (omega arith)

-- Two blocks of 128 bytes from offset 256 on.
fat16_read-fat16_seek_example :
    ((fat16_seek desc_a 256 seek_set).0 ≡ all_ok)
    × (fat16_read disk private (fat16_seek desc_a 256 seek_set).1 128 2
        ≡ some (2, bytes_from (file_byte volume private chain) 256 (2 * 128)))
unfolding fat_h_of item_of
fat16_read-fat16_seek_example =
    fat16_read-fat16_seek disk volume private 6 chain 1 chain-IsChain disk-Holds desc_a item_a 256
      128 2 refl (omega arith) a_cluster blocks (omega arith) (omega arith) (omega arith)

-- "0:/a"
abbrev path_a : List ℕ
path_a = 0x30 ∷ 0x3a ∷ 0x2f ∷ 97 ∷ 0 ∷ []

parsed_a : pathparser_parse path_a ≡ some (some (record { drive_no = pos 0; parts = name_a ∷ [] }))
unfolding strnlen strlen isdigit tonumericdigit pathparser_path_valid_format
    pathparser_get_drive_by_path part_loop skip_slash pathparser_get_path_part parse_parts
    pathparser_parse
parsed_a = refl

opened_a :
    fat16_open disk 9 private (c_string name_a []) [] mode_read ≡ some (opened (from_start item_a))
opened_a =
    (fat16_open_iff disk 9 private (c_string name_a []) [] (file_item item_a) (file_item item_a)
        a-InRoot).1
      here

one_open : Descriptors
one_open = some (record { index = 1; private_data = 1 }) ∷ none ∷ []

new_descriptor_a :
    file_new_descriptor 1 (none ∷ none ∷ [])
    ≡ some (record { index = 1; private_data = 1 }, one_open)
unfolding file_new_descriptor free_slot one_open
new_descriptor_a = refl

fat16_fs-IsServed_example :
    IsServed
      (fat16_fs disk 9 private)
      (Ready 0)
      (Open 0 (from_start item_a))
      path_a
      (bytes_from (file_byte volume private chain) 0 item_a.filesize)
      0
      (none ∷ none ∷ [])
      one_open
unfolding fat_h_of item_of
fat16_fs-IsServed_example =
    fat16_fs-IsServed disk volume private 6 chain 1 chain-IsChain disk-Holds 9 path_a name_a []
      item_a parsed_a opened_a a_cluster (omega arith) (omega arith) (omega arith) 0 0 0
      (none ∷ none ∷ []) one_open refl new_descriptor_a (omega arith)
