-- ===== src/Fat/Calls/Laws.antt =====
-- What the calls on an open file do.
use maer_os.Common.{
  ℕ, zero, suc, ◌+◌, ◌*◌, ◌/◌, ◌%◌, ◌^◌, ◌≤◌, ◌<◌, ◌≡◌, ◌⊎◌, refl, sym, ap, subst, ◌∙◌, false, some,
  leb, arith, Status, all_ok,
}
use native.Mathlib.Nat.{div-add-mod', mod-lt, mul-le-mul}
use maer_os.Disk.{Device, bytes_from}
use maer_os.Disk.Read.{Holds, bytes_from-append}
use maer_os.Fat.Layout.{FatDirectoryItem, FatPrivate}
use maer_os.Fat.Clusters.{
  size_of_cluster_bytes, fat16_get_first_cluster, joined, fat16_read_internal,
}
use maer_os.Fat.Clusters.Reads.{IsChain, file_byte, fat16_read_internal_lem}
use maer_os.Fat.Directory.{file_item, FatFileDescriptor}
use maer_os.Fat.Calls.{seek_set, seek_to, fat16_seek, read_loop, fat16_read}

-- A block at an offset starts a cluster, or ends in the cluster where it starts.
abbrev pub Fits : FatPrivate → ℕ → ℕ → Type 0
Fits private offset size =
    (offset % size_of_cluster_bytes private ≡ 0)
    ⊎ (offset % size_of_cluster_bytes private + size ≤ size_of_cluster_bytes private)

at_least_once : (size c : ℕ) → 0 < c → size ≤ (size + 1) * c
at_least_once size c p =
    let e : size * 1 ≡ size = omega arith in
    subst (λ (k : ℕ). k ≤ (size + 1) * c) e
      (mul-le-mul {n₁ = size} {m₁ = 1} {n₂ = size + 1} {m₂ = c} (omega arith) p)

module _ (device : Device) (image : ℕ → ℕ) (private : FatPrivate) (limit : ℕ) (chain : ℕ → ℕ)
    (n : ℕ) (v : IsChain image private limit chain n) (h : Holds device image limit) where
  abbrev file : ℕ → ℕ
  file = file_byte image private chain

  read_block :
      (offset size : ℕ)
      → Fits private offset size
      → offset + size ≤ (n + 1) * size_of_cluster_bytes private
      → 0 < size
      → fat16_read_internal device private (size + 1) (chain 0) offset size
        ≡ some (0, bytes_from file offset size)
  read_block offset size f b p =
      let c = size_of_cluster_bytes private in
      let e : offset / c * c + offset % c ≡ offset = div-add-mod' offset c in
      let w =
        fat16_read_internal_lem device image private limit chain n v h (size + 1) (offset / c)
          (offset % c) size (mod-lt offset v.cluster_size) f (at_least_once size c v.cluster_size)
          (subst (λ (k : ℕ). k + size ≤ (n + 1) * c) (sym e) b) p in
      subst
        (λ k.
          fat16_read_internal device private (size + 1) (chain 0) k size
          ≡ some (0, bytes_from file k size))
        e w

  read_loop_lem :
      (nmemb offset size : ℕ)
      → ((i : ℕ) → i < nmemb → Fits private (offset + i * size) size)
      → offset + nmemb * size ≤ (n + 1) * size_of_cluster_bytes private
      → 0 < size
      → read_loop device private (chain 0) size nmemb offset
        ≡ some (0, bytes_from file offset (nmemb * size))
  unfolding read_loop
  read_loop_lem zero offset size f b p = let z : 0 * size ≡ 0 = omega arith in rw z refl
  read_loop_lem (suc nmemb) offset size f b p =
      let first : offset + 0 * size ≡ offset = omega arith in
      let next : (i : ℕ) → offset + suc i * size ≡ offset + size + i * size = λ i. omega arith in
      let f0 : Fits private offset size =
        subst (λ (k : ℕ). Fits private k size) first (f 0 (omega arith)) in
      let rest : (i : ℕ) → i < nmemb → Fits private (offset + size + i * size) size =
        λ i q. subst (λ (k : ℕ). Fits private k size) (next i) (f (suc i) (omega arith)) in
      let s : size + nmemb * size ≡ suc nmemb * size = omega arith in
      rw (read_block offset size f0 (omega arith) p, read_loop)
        (ap (joined (bytes_from file offset size))
            (read_loop_lem nmemb (offset + size) size rest (omega arith) p)
          ∙ ap (λ l. some (0, l))
              (bytes_from-append file offset size (nmemb * size) ∙ ap (bytes_from file offset) s))

  -- On a device that holds an image, with clusters within the first 2 ^ 31 bytes of the disk that are
  -- joined by the links that the driver reads, the 16-bit words at the table's position times twice the
  -- cluster (a single cluster needs none, and FAT16 has its links elsewhere): a read of `nmemb` blocks
  -- of a positive `size` at the position of a descriptor of a file that starts with the first of them
  -- returns `nmemb` and exactly those bytes of the clusters, as long as they end within the clusters and
  -- below 2 ^ 31, and each block starts a cluster or ends in the cluster where it starts.
  pub fat16_read_lem :
      (desc : FatFileDescriptor) (item : FatDirectoryItem) (size nmemb : ℕ)
      → desc.item ≡ file_item item
      → fat16_get_first_cluster item ≡ chain 0
      → ((i : ℕ) → i < nmemb → Fits private (desc.pos + i * size) size)
      → desc.pos + nmemb * size ≤ (n + 1) * size_of_cluster_bytes private
      → desc.pos + nmemb * size < 2 ^ 31
      → 0 < size
      → fat16_read device private desc size nmemb
        ≡ some (nmemb, bytes_from file desc.pos (nmemb * size))
  unfolding fat16_read
  fat16_read_lem desc item size nmemb d c f b bound p =
      rw (d, fat16_read) (rw (c) (rw (read_loop_lem nmemb desc.pos size f b p) refl))

  -- On a device that holds an image, with clusters within the first 2 ^ 31 bytes of the disk that are
  -- joined by the links that the driver reads, the 16-bit words at the table's position times twice the
  -- cluster (a single cluster needs none, and FAT16 has its links elsewhere): a seek from the start to
  -- an offset in a file that starts with the first of them succeeds, and a read of blocks behind it,
  -- which end within the clusters and below 2 ^ 31 and each start a cluster or end in the cluster where
  -- they start, returns their number and the bytes of the clusters from that offset on.
  pub fat16_read-fat16_seek :
      (desc : FatFileDescriptor) (item : FatDirectoryItem) (offset size nmemb : ℕ)
      → desc.item ≡ file_item item
      → offset < item.filesize
      → fat16_get_first_cluster item ≡ chain 0
      → ((i : ℕ) → i < nmemb → Fits private (offset + i * size) size)
      → offset + nmemb * size ≤ (n + 1) * size_of_cluster_bytes private
      → offset + nmemb * size < 2 ^ 31
      → 0 < size
      → ((fat16_seek desc offset seek_set).0 ≡ all_ok)
        × (fat16_read device private (fat16_seek desc offset seek_set).1 size nmemb
            ≡ some (nmemb, bytes_from file offset (nmemb * size)))
  unfolding fat16_seek seek_to
  fat16_read-fat16_seek desc item offset size nmemb d o c f b bound p =
      let inside : leb item.filesize offset ≡ false = ground arith in
      let sought : fat16_seek desc offset seek_set ≡ (all_ok, record desc { pos = offset }) =
        rw (d, fat16_seek) (rw inside (ap (λ i. (all_ok, record { item = i; pos = offset })) d)) in
      (
        ap (λ (r : Status × FatFileDescriptor). r.0) sought,
        ap (λ (r : Status × FatFileDescriptor). fat16_read device private r.1 size nmemb) sought
            ∙ fat16_read_lem (record desc { pos = offset }) item size nmemb d c f b bound p,
      )
