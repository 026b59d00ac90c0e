-- ===== src/Fat/Layout.antt =====
-- The packed structures of a FAT16 volume, read from their bytes.
use maer_os.Common.{ℕ, ◌+◌, ◌*◌, ◌-◌, ◌^◌, List, get_or, take, drop, leb, Bool}

-- The little-endian fields at byte `i`.
abbrev pub le16 : List ℕ → ℕ → ℕ
le16 b i = get_or b i 0 + get_or b (i + 1) 0 * 2 ^ 8

abbrev pub le32 : List ℕ → ℕ → ℕ
le32 b i = le16 b i + le16 b (i + 2) * 2 ^ 16

-- `struct fat_header_extended`
pub record FatHeaderExtended : Type 0 where
  pub drive_number : ℕ
  pub win_nt_bit : ℕ
  pub signature : ℕ
  pub volume_id : ℕ
  pub volume_id_string : List ℕ
  pub system_id_string : List ℕ

-- `struct fat_header`
pub record FatHeader : Type 0 where
  pub short_jmp_ins : List ℕ
  pub oem_identifier : List ℕ
  pub bytes_per_sector : ℕ
  pub sectors_per_cluster : ℕ
  pub reserved_sectors : ℕ
  pub fat_copies : ℕ
  pub root_dir_entries : ℕ
  pub number_of_sectors : ℕ
  pub media_type : ℕ
  pub sectors_per_fat : ℕ
  pub sectors_per_track : ℕ
  pub number_of_heads : ℕ
  pub hidden_sectors : ℕ
  pub sectors_big : ℕ

-- `struct fat_h`
pub record FatH : Type 0 where
  pub primary_header : FatHeader
  pub extended_header : FatHeaderExtended

abbrev pub sizeof_fat_h : ℕ
sizeof_fat_h = 62

unfoldable pub fat_h_of : List ℕ → FatH
fat_h_of b = record {
  primary_header = record {
    short_jmp_ins = take 3 b;
    oem_identifier = take 8 (drop 3 b);
    bytes_per_sector = le16 b 11;
    sectors_per_cluster = get_or b 13 0;
    reserved_sectors = le16 b 14;
    fat_copies = get_or b 16 0;
    root_dir_entries = le16 b 17;
    number_of_sectors = le16 b 19;
    media_type = get_or b 21 0;
    sectors_per_fat = le16 b 22;
    sectors_per_track = le16 b 24;
    number_of_heads = le16 b 26;
    hidden_sectors = le32 b 28;
    sectors_big = le32 b 32;
  };
  extended_header = record {
    drive_number = get_or b 36 0;
    win_nt_bit = get_or b 37 0;
    signature = get_or b 38 0;
    volume_id = le32 b 39;
    volume_id_string = take 11 (drop 43 b);
    system_id_string = take 8 (drop 54 b);
  };
}

-- `struct fat_directory_item`
pub record FatDirectoryItem : Type 0 where
  pub filename : List ℕ
  pub ext : List ℕ
  pub attribute : ℕ
  pub reserved : ℕ
  pub creation_time_tenths_of_a_sec : ℕ
  pub creation_time : ℕ
  pub creation_date : ℕ
  pub last_access : ℕ
  pub high_16_bits_first_cluster : ℕ
  pub last_mod_time : ℕ
  pub last_mod_date : ℕ
  pub low_16_bits_first_cluster : ℕ
  pub filesize : ℕ

abbrev pub sizeof_item : ℕ
sizeof_item = 32

unfoldable pub item_of : List ℕ → FatDirectoryItem
item_of b = record {
  filename = take 8 b;
  ext = take 3 (drop 8 b);
  attribute = get_or b 11 0;
  reserved = get_or b 12 0;
  creation_time_tenths_of_a_sec = get_or b 13 0;
  creation_time = le16 b 14;
  creation_date = le16 b 16;
  last_access = le16 b 18;
  high_16_bits_first_cluster = le16 b 20;
  last_mod_time = le16 b 22;
  last_mod_date = le16 b 24;
  low_16_bits_first_cluster = le16 b 26;
  filesize = le32 b 28;
}

-- `struct fat_directory`; the array is what was read into it.
pub record FatDirectory : Type 0 where
  pub item : List FatDirectoryItem
  pub total : ℕ
  pub sector_pos : ℕ
  pub ending_sector_pos : ℕ

-- `struct fat_private`, without its streams.
pub record FatPrivate : Type 0 where
  pub header : FatH
  pub root_directory : FatDirectory

-- `-n`
abbrev pub minus : ℕ → ℕ
minus n = 2 ^ 32 - n

abbrev pub is_negative : ℕ → Bool
is_negative w = leb (2 ^ 31) w
