-- ===== src/Disk.antt =====
-- src/disk/disk.c and src/disk/streamer.c: one disk, read in sectors, and streams of bytes over it.
-- The device behind the ports is a parameter.
pub mod Read
mod Tests
use maer_os.Common.{
  ℕ, zero, suc, ◌+◌, ◌-◌, ◌*◌, ◌/◌, ◌%◌, ◌^◌, Bool, true, false, Option, none, some, List, [], ◌∷◌,
  ◌++◌, leb, ◌==◌, if◌then◌else◌, u32, Status, all_ok, eio,
}

-- `MAEROS_SECTOR_SIZE`
abbrev pub sector_size : ℕ
sector_size = 512

-- What the device gives for a sector: its bytes by index, or nothing if it never gets ready. The code
-- waits for it, and reads no error.
abbrev pub Device : Type 0
Device = ℕ → Option (ℕ → ℕ)

-- `disk_get`: the one disk has index 0.
unfoldable pub disk_get : ℕ → Option ℕ
disk_get index = if index == 0 then some 0 else none

-- `n` bytes from index `i` on.
abbrev pub bytes_from : (ℕ → ℕ) → ℕ → ℕ → List ℕ
bytes_from buf i zero = []
bytes_from buf i (suc n) = buf i ∷ bytes_from buf (i + 1) n

-- `struct disk_stream` on the one disk. The position is an `int`, whose negative values are the numbers
-- from 2 ^ 31 on.
pub record DiskStream : Type 0 where
  pub pos : ℕ

-- `diskstreamer_new`, without the allocation.
pub diskstreamer_new : ℕ → Option DiskStream
diskstreamer_new disk_id = elim (disk_get disk_id) [
  | none ↦ none
  | some disk ↦ some (record { pos = 0 })
]

pub diskstreamer_seek : DiskStream → ℕ → Status × DiskStream
diskstreamer_seek stream pos = (all_ok, record stream { pos = u32 pos })

-- What a read returns: the status, the bytes that went to `out`, and the stream after it.
abbrev pub ReadResult : Type 0
ReadResult = Status × List ℕ × DiskStream

-- How many of `total` bytes are read from the first sector.
unfoldable pub total_to_read : ℕ → ℕ → ℕ
total_to_read offset total =
    if leb sector_size (offset + total) then total - (offset + total - sector_size) else total

abbrev pub behind : List ℕ → Option ReadResult → Option ReadResult
behind bytes none = none
behind bytes (some (res, rest, stream)) = some (res, bytes ++ rest, stream)

module _ (device : Device) where
  -- The status and the sector; a disk other than the one in the system is refused with -EIO. `none` is a
  -- device that never gets ready, for which the code waits.
  unfoldable pub disk_read_block : ℕ → ℕ → Option (Status × (ℕ → ℕ))
  disk_read_block disk lba =
      if disk == 0
      then elim (device lba) [ none ↦ none | some buf ↦ some (all_ok, buf) ]
      else some (eio, λ i. 0)

  -- `none` is a device that never gets ready, a position beyond an `int`, or fuel that ran out.
  unfoldable pub diskstreamer_read : ℕ → DiskStream → ℕ → Option ReadResult
  diskstreamer_read zero stream total = none
  diskstreamer_read (suc fuel) stream total = elim (leb (2 ^ 31) (stream.pos + total)) [
    | true ↦ none
    | false ↦
        let sector = stream.pos / sector_size in
        let offset = stream.pos % sector_size in
        let n = total_to_read offset total in
        elim (disk_read_block 0 sector) [
          | none ↦ none
          | some (all_ok, buf) ↦
              let bytes = bytes_from buf offset n in
              let stream' = record stream { pos = stream.pos + n } in
              elim (leb sector_size (offset + total)) [
                | true ↦ behind bytes (diskstreamer_read fuel stream' (total - n))
                | false ↦ some (all_ok, bytes, stream')
              ]
          | some (err, buf) ↦ some (err, [], stream)
        ]
  ]
