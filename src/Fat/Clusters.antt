-- ===== src/Fat/Clusters.antt =====
-- Clusters: where they lie, the table that chains them, and reads along the chain.
pub mod Reads
pub mod Entries
use maer_os.Common.{
  ℕ, zero, suc, ◌+◌, ◌-◌, ◌*◌, ◌/◌, ◌%◌, Bool, true, false, Option, none, some, List, [], ◌∷◌, ◌++◌,
  get_or, ltb, ◌==◌, ◌||◌, if◌then◌else◌, bit_or, u32, sub32, Status, all_ok, eio,
}
use maer_os.Disk.{Device, DiskStream, ReadResult, diskstreamer_read, sector_size}
use maer_os.Fat.Layout.{FatHeader, FatPrivate, FatDirectoryItem, le16, minus, is_negative}

-- A read with as many rounds as it touches sectors, which `Disk.Read` shows to be enough.
unfoldable pub stream_read : Device → ℕ → ℕ → Option ReadResult
stream_read device at total =
    diskstreamer_read device ((at % sector_size + total) / sector_size + 1) (record { pos = at })
      total

unfoldable pub fat16_sector_to_absolute : ℕ → ℕ
fat16_sector_to_absolute sector = u32 (sector * sector_size)

unfoldable pub fat16_get_first_cluster : FatDirectoryItem → ℕ
fat16_get_first_cluster item = bit_or item.high_16_bits_first_cluster item.low_16_bits_first_cluster

unfoldable pub fat16_cluster_to_sector : FatPrivate → ℕ → ℕ
fat16_cluster_to_sector private cluster = u32 (
    private.root_directory.ending_sector_pos
    + sub32 cluster 2 * private.header.primary_header.sectors_per_cluster)

unfoldable pub fat16_get_first_fat_sector : FatPrivate → ℕ
fat16_get_first_fat_sector private = private.header.primary_header.reserved_sectors

abbrev pub size_of_cluster_bytes : FatPrivate → ℕ
size_of_cluster_bytes private = private.header.primary_header.sectors_per_cluster * sector_size

-- Where the entry of a cluster is read.
unfoldable pub fat_entry_position : FatPrivate → ℕ → ℕ
fat_entry_position private cluster =
    let fat_table_position = u32 (fat16_get_first_fat_sector private * sector_size) in
    u32 (fat_table_position * (cluster * 2))

-- `MAEROS_FAT16_BAD_SECTOR` and the other entries that end the search.
abbrev pub ends_chain : ℕ → Bool
ends_chain entry =
    entry == 0xFF8
    || entry == 0xFFF
    || entry == 0xFF7
    || entry == 0xFF0
    || entry == 0xFF6
    || entry == 0x00

-- The result and the bytes that went to `out`.
abbrev pub joined : List ℕ → Option (ℕ × List ℕ) → Option (ℕ × List ℕ)
joined bytes none = none
joined bytes (some (res, rest)) = some (res, bytes ++ rest)

-- How much one round reads.
abbrev pub round_size : FatPrivate → ℕ → ℕ
round_size private total =
    if ltb (size_of_cluster_bytes private) total then size_of_cluster_bytes private else total

-- Where a round reads in a cluster.
unfoldable pub starting_pos : FatPrivate → ℕ → ℕ → ℕ
starting_pos private cluster offset =
    u32 (
      fat16_cluster_to_sector private cluster * sector_size
      + offset % size_of_cluster_bytes private)

module _ (device : Device) (private : FatPrivate) where
  -- The entry, or -EIO.
  unfoldable pub fat16_get_fat_entry : ℕ → Option ℕ
  fat16_get_fat_entry cluster = elim (stream_read device (fat_entry_position private cluster) 2) [
    | none ↦ none
    | some (all_ok, bytes, stream) ↦ some (le16 bytes 0)
    | some (res, bytes, stream) ↦ some (minus 1)
  ]

  -- The loop of `fat16_get_cluster_for_offset` with some clusters ahead.
  unfoldable pub cluster_loop : ℕ → ℕ → Option ℕ
  cluster_loop zero cluster_to_use = some cluster_to_use
  cluster_loop (suc ahead) cluster_to_use = elim (fat16_get_fat_entry cluster_to_use) [
    | none ↦ none
    | some entry ↦ elim (ends_chain entry) [
      | true ↦ some (minus 1)
      | false ↦ cluster_loop ahead entry
    ]
  ]

  -- A cluster of 0 bytes is a division by zero.
  unfoldable pub fat16_get_cluster_for_offset : ℕ → ℕ → Option ℕ
  fat16_get_cluster_for_offset starting_cluster offset =
      if size_of_cluster_bytes private == 0
      then none
      else cluster_loop (offset / size_of_cluster_bytes private) starting_cluster

  -- `fat16_read_internal` on the one stream; `none` also stands for fuel that ran out.
  unfoldable pub fat16_read_internal : ℕ → ℕ → ℕ → ℕ → Option (ℕ × List ℕ)
  fat16_read_internal zero cluster offset total = none
  fat16_read_internal (suc fuel) cluster offset total =
      elim (fat16_get_cluster_for_offset cluster offset) [
        | none ↦ none
        | some cluster_to_use ↦ elim (is_negative cluster_to_use) [
          | true ↦ some (cluster_to_use, [])
          | false ↦
              let n = round_size private total in
              elim (stream_read device (starting_pos private cluster_to_use offset) n) [
                | none ↦ none
                | some (all_ok, bytes, stream) ↦ elim (ltb 0 (total - n)) [
                  | true ↦ joined bytes (fat16_read_internal fuel cluster (offset + n) (total - n))
                  | false ↦ some (0, bytes)
                ]
                | some (res, bytes, stream) ↦ some (minus 1, bytes)
              ]
        ]
      ]
