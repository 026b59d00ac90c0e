-- ===== src/Memory/Tests.antt =====
-- The theorems on the block operations at concrete regions.
use maer_os.Common.{◌≡◌, refl, u8, negsuc}
use maer_os.Memory.{Memory, memset, memset_loop, memcmp}

-- Every byte is the low byte of its address.
abbrev ramp : Memory
ramp q = u8 q

memset_runs : memset 16 0x141 4 ramp 18 ≡ 0x41
unfolding memset memset_loop
memset_runs = refl

memcmp_runs : memcmp 16 32 4 ramp ≡ negsuc 0
unfolding memcmp
memcmp_runs = refl

-- As a `char` the byte 200 is below the byte 16.
memcmp_signed : memcmp 200 16 1 ramp ≡ negsuc 0
unfolding memcmp
memcmp_signed = refl
