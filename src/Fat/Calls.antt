-- ===== src/Fat/Calls.antt =====
-- The calls on an open file: stat, seek and read.
pub mod Laws
use maer_os.Common.{
  ℕ, zero, suc, ◌+◌, bit_and, Bool, true, false, Option, none, some, List, [], ◌++◌, leb, ◌==◌,
  if◌then◌else◌, u32, Status, all_ok, eio, einvarg, eunimp,
}
use maer_os.File.{FileStat}
use maer_os.Disk.{Device}
use maer_os.Fat.Layout.{FatDirectoryItem, FatPrivate, is_negative}
use maer_os.Fat.Clusters.{fat16_get_first_cluster, joined, fat16_read_internal}
use maer_os.Fat.Directory.{FatItem, file_item, directory_item, dangling_item, FatFileDescriptor}

-- `FAT_FILE_READ_ONLY` and `FILE_STAT_READ_ONLY` are both 1.
unfoldable pub fat16_stat : FatFileDescriptor → Status × Option FileStat
fat16_stat desc = elim desc.item [
  | file_item ritem ↦ (
    all_ok,
    some (record {
      flags = if bit_and ritem.attribute 0x01 == 0 then 0x00 else 0x01;
      filesize = ritem.filesize;
    }),
  )
  | other ↦ (einvarg, none)
]

-- `FILE_SEEK_MODE`, with every other number as the last.
pub data FileSeekMode : Type 0 where
  seek_set seek_cur seek_end seek_other : FileSeekMode

pub seek_to : FatFileDescriptor → ℕ → FileSeekMode → Status × FatFileDescriptor
seek_to desc offset seek_set = (all_ok, record desc { pos = offset })
seek_to desc offset seek_end = (eunimp, desc)
seek_to desc offset seek_cur = (all_ok, record desc { pos = u32 (desc.pos + offset) })
seek_to desc offset seek_other = (einvarg, desc)

pub fat16_seek : FatFileDescriptor → ℕ → FileSeekMode → Status × FatFileDescriptor
fat16_seek desc offset seek_mode = elim desc.item [
  | file_item ritem ↦
      if leb ritem.filesize offset then (eio, desc) else seek_to desc offset seek_mode
  | other ↦ (einvarg, desc)
]

-- The loop of `fat16_read` with some rounds left: the status and the bytes that went to `out_ptr`.
pub read_loop : Device → FatPrivate → ℕ → ℕ → ℕ → ℕ → Option (ℕ × List ℕ)
read_loop device private cluster size zero offset = some (0, [])
read_loop device private cluster size (suc left) offset =
    elim (fat16_read_internal device private (size + 1) cluster offset size) [
      | none ↦ none
      | some (res, bytes) ↦ elim (is_negative res) [
        | true ↦ some (res, bytes)
        | false ↦ joined bytes (read_loop device private cluster size left (offset + size))
      ]
    ]

-- The descriptor is not changed. The type is not looked at: of a directory, the memory of its
-- structure is read as an item, which is a fault here.
pub fat16_read : Device → FatPrivate → FatFileDescriptor → ℕ → ℕ → Option (ℕ × List ℕ)
fat16_read device private desc size nmemb = elim desc.item [
  | file_item item ↦
      elim (read_loop device private (fat16_get_first_cluster item) size nmemb desc.pos) [
        | none ↦ none
        | some (res, bytes) ↦ some (if is_negative res then res else nmemb, bytes)
      ]
  | other ↦ none
]
