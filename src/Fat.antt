-- ===== src/Fat.antt =====
-- src/fs/fat/fat16.c: the FAT16 file system, read-only. Integers are 32-bit words, a negative one as
-- its two's complement. Positions stay below 2 ^ 31; allocations succeed; every use of a stream seeks
-- first, so no position outlives a call. Where a function can fault, `none` is the fault.
pub mod Layout
pub mod Clusters
pub mod Naming
pub mod Directory
pub mod Calls
mod Tests
