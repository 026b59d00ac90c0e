-- ===== src/Fat/Clusters/Reads.antt =====
-- `fat16_read_internal` along a chain of clusters.
use maer_os.Common.{
  ℕ, zero, suc, ◌+◌, ◌-◌, ◌*◌, ◌/◌, ◌%◌, ◌^◌, ◌≤◌, ◌<◌, ◌≡◌, ◌⊎◌, inl, inr, refl, sym, ap, ap₂, ◌∙◌,
  true, false, some, List, ◌∷◌, ◌++◌, ltb, ◌==◌, if◌then◌else◌, lt→ltb, le→ltb, u32, arith, dec_lt,
  all_ok,
}
use native.Mathlib.Nat.{
  mul-add-div_right, div-eq_of_lt, mul-add-mod_self_right, mod-eq_of_lt, lt_of_mul-lt-mul_right,
}
use maer_os.Disk.{Device, bytes_from}
use maer_os.Disk.Read.{bytes_from-append, Holds, diskstreamer_read_lem}
use maer_os.Fat.Layout.{FatPrivate, is_negative}
use maer_os.Fat.Clusters.{
  stream_read, fat16_cluster_to_sector, size_of_cluster_bytes, ends_chain, fat16_get_fat_entry,
  fat_entry_position, fat16_get_first_fat_sector, cluster_loop, fat16_get_cluster_for_offset,
  joined, round_size, starting_pos, fat16_read_internal,
}

pub stream_read_lem :
    (device : Device) (image : ℕ → ℕ) (limit at n : ℕ)
    → Holds device image limit
    → at + n < limit * 512
    → limit ≤ 2 ^ 22
    → stream_read device at n ≡ some (all_ok, bytes_from image at n, record { pos = at + n })
unfolding stream_read
stream_read_lem device image limit at n h b l =
    diskstreamer_read_lem device image ((at % 512 + n) / 512 + 1) n (record { pos = at })
      (λ s p. h s (omega arith)) (omega arith) (omega arith)

-- Where cluster `c` begins on the disk.
abbrev pub cluster_start : FatPrivate → ℕ → ℕ
cluster_start private c = fat16_cluster_to_sector private c * 512

-- The byte at offset `k` of the file whose clusters are given by their numbers in the file.
pub file_byte : (ℕ → ℕ) → FatPrivate → (ℕ → ℕ) → ℕ → ℕ
file_byte image private chain k =
    let size = size_of_cluster_bytes private in
    image (cluster_start private (chain (k / size)) + k % size)

-- Where the driver takes the link of a cluster from: at the table's position times twice the cluster,
-- which is not where FAT16 has the cluster's entry.
abbrev pub link_position : FatPrivate → ℕ → ℕ
link_position private cluster = private.header.primary_header.reserved_sectors * 512 * (cluster * 2)

-- The 16-bit word of the image there.
abbrev pub link_of : (ℕ → ℕ) → FatPrivate → ℕ → ℕ
link_of image private cluster =
    let at = link_position private cluster in image at + image (at + 1) * 2 ^ 8

-- Clusters on the disk, each the link of the one before. One cluster needs no link.
pub record IsChain (image : ℕ → ℕ) (private : FatPrivate) (limit : ℕ) (chain : ℕ → ℕ) (n : ℕ)
    : Type 0 where
  pub links : (i : ℕ) → i < n → link_of image private (chain i) ≡ chain (i + 1)
  pub links_on_disk : (i : ℕ) → i < n → link_position private (chain i) + 2 < limit * 512
  pub goes_on : (i : ℕ) → i < n → ends_chain (chain (i + 1)) ≡ false
  pub positive : (i : ℕ) → i ≤ n → chain i < 2 ^ 31
  pub on_disk :
      (i : ℕ)
      → i ≤ n
      → cluster_start private (chain i) + size_of_cluster_bytes private < limit * 512
  pub reserved : private.header.primary_header.reserved_sectors < 2 ^ 16
  pub disk_size : limit ≤ 2 ^ 22
  pub cluster_size : 0 < size_of_cluster_bytes private

le_of_chain :
    (size q n r total : ℕ) → 0 < size → q * size + r + total ≤ (n + 1) * size → 0 < total → q ≤ n
le_of_chain size q n r total p h t =
    let k : q * size < (n + 1) * size = omega arith in
    let m = lt_of_mul-lt-mul_right size k in omega arith

module _ (device : Device) (image : ℕ → ℕ) (private : FatPrivate) (limit : ℕ) (chain : ℕ → ℕ)
    (n : ℕ) (v : IsChain image private limit chain n) (h : Holds device image limit) where
  abbrev size : ℕ
  size = size_of_cluster_bytes private

  entry_lem : (i : ℕ) → i < n → fat16_get_fat_entry device private (chain i) ≡ some (chain (i + 1))
  unfolding fat16_get_fat_entry fat_entry_position fat16_get_first_fat_sector
  entry_lem i p =
      let table = private.header.primary_header.reserved_sectors * 512 in
      let at = link_position private (chain i) in
      let b : at + 2 < limit * 512 = v.links_on_disk i p in
      let l : limit ≤ 2 ^ 22 = v.disk_size in
      let t : u32 table ≡ table = omega (arith, v.reserved) in
      let e : u32 (u32 table * (chain i * 2)) ≡ at =
        ap (λ x. u32 (x * (chain i * 2))) t ∙ omega arith in
      rw (e, fat16_get_fat_entry)
        (rw (stream_read_lem device image limit at 2 h b l) (ap some (v.links i p)))

  loop_along :
      (ahead i : ℕ)
      → i + ahead ≤ n
      → cluster_loop device private ahead (chain i) ≡ some (chain (i + ahead))
  unfolding cluster_loop
  loop_along zero i b = let e : i + 0 ≡ i = omega arith in rw e refl
  loop_along (suc ahead) i b =
      let e : i + suc ahead ≡ i + 1 + ahead = omega arith in
      let x = entry_lem i (omega arith) in
      let g = v.goes_on i (omega arith) in
      rw e (rw (x, cluster_loop) (rw g (loop_along ahead (i + 1) (omega arith))))

  module _ (q r : ℕ) (inside : r < size) where
    index_lem : (q * size + r) / size ≡ q
    index_lem = mul-add-div_right v.cluster_size q r ∙ omega (arith, div-eq_of_lt inside)

    offset_lem : (q * size + r) % size ≡ r
    offset_lem = mul-add-mod_self_right q size r ∙ mod-eq_of_lt inside

    file_byte_lem :
        file_byte image private chain (q * size + r) ≡ image (cluster_start private (chain q) + r)
    unfolding file_byte
    file_byte_lem = ap₂ (λ i j. image (cluster_start private (chain i) + j)) index_lem offset_lem

    cluster_found :
        q ≤ n
        → fat16_get_cluster_for_offset device private (chain 0) (q * size + r) ≡ some (chain q)
    unfolding fat16_get_cluster_for_offset
    cluster_found b =
        let z : (size == 0) ≡ false = ground (arith, v.cluster_size) in
        rw (z, fat16_get_cluster_for_offset)
          (rw index_lem (loop_along q 0 (omega arith) ∙ ap (λ i. some (chain i)) (omega arith)))

    start_found :
        q ≤ n → starting_pos private (chain q) (q * size + r) ≡ cluster_start private (chain q) + r
    unfolding starting_pos
    start_found b =
        ap (λ j. u32 (cluster_start private (chain q) + j)) offset_lem
        ∙ omega (arith, v.on_disk q b, v.disk_size)

  -- The bytes of one round are the file's.
  within :
      (q r total : ℕ)
      → r + total ≤ size
      → bytes_from image (cluster_start private (chain q) + r) total
        ≡ bytes_from (file_byte image private chain) (q * size + r) total
  within q r zero b = refl
  within q r (suc total) b =
      let e : cluster_start private (chain q) + r + 1 ≡ cluster_start private (chain q) + (r + 1) =
        omega arith in
      let f : q * size + r + 1 ≡ q * size + (r + 1) = omega arith in
      rw (e, f)
        (ap₂ (λ x l. x ∷ l) (sym (file_byte_lem q r (omega arith)))
          (within q (r + 1) total (omega arith)))

  -- One round from offset `r` of cluster `q`: `m` bytes from there, whatever cluster they lie in.
  round :
      (q r m : ℕ)
      → r < size
      → m ≤ size
      → q ≤ n
      → cluster_start private (chain q) + r + m < limit * 512
      → stream_read device (starting_pos private (chain q) (q * size + r)) m
        ≡ some (
          all_ok,
          bytes_from image (cluster_start private (chain q) + r) m,
          record { pos = cluster_start private (chain q) + r + m },
        )
  round q r m inside b c d =
      rw (start_found q r inside c) (stream_read_lem device image limit _ m h d v.disk_size)

  positive_lem : (q : ℕ) → q ≤ n → is_negative (chain q) ≡ false
  positive_lem q b = let p = v.positive q b in ground arith

  pub fat16_read_internal_one_round :
      (fuel q r total : ℕ)
      → r < size
      → total ≤ size
      → q ≤ n
      → cluster_start private (chain q) + r + total < limit * 512
      → fat16_read_internal device private (suc fuel) (chain 0) (q * size + r) total
        ≡ some (0, bytes_from image (cluster_start private (chain q) + r) total)
  unfolding fat16_read_internal
  fat16_read_internal_one_round fuel q r total inside b c d =
      let z : round_size private total ≡ total =
        ap (λ c. if c then size else total) (le→ltb size total b) in
      let done : ltb 0 (total - round_size private total) ≡ false =
        rw z (le→ltb 0 (total - total) (omega arith)) in
      rw (cluster_found q r inside c, fat16_read_internal)
        (rw (positive_lem q c, z) (rw (round q r total inside b c d) (rw done refl)))

  more_rounds :
      (fuel q total : ℕ) (rest : List ℕ)
      → size < total
      → q ≤ n
      → fat16_read_internal device private fuel (chain 0) (q * size + 0 + size) (total - size)
        ≡ some (0, rest)
      → fat16_read_internal device private (suc fuel) (chain 0) (q * size + 0) total
        ≡ some (0, bytes_from image (cluster_start private (chain q) + 0) size ++ rest)
  unfolding fat16_read_internal
  more_rounds fuel q total rest b c e =
      let p = v.cluster_size in
      let d = v.on_disk q c in
      let z : round_size private total ≡ size =
        ap (λ c. if c then size else total) (lt→ltb size total b) in
      let more : ltb 0 (total - round_size private total) ≡ true =
        rw z (lt→ltb 0 (total - size) (omega arith)) in
      let next : fat16_read_internal device private fuel (chain 0)
            (q * size + 0 + round_size private total) (total - round_size private total)
          ≡ some (0, rest) =
        rw z e in
      rw (cluster_found q 0 p c, fat16_read_internal)
        (rw (positive_lem q c, z)
          (rw (round q 0 size p (omega arith) c (omega arith)) (rw more (ap (joined _) next))))

  -- A read along a chain of clusters, on fuel for the clusters that it touches, succeeds and returns
  -- exactly the bytes of the file from its offset on, if it starts a cluster or ends in the cluster
  -- where it starts.
  pub fat16_read_internal_lem :
      (fuel q r total : ℕ)
      → r < size
      → r ≡ 0 ⊎ r + total ≤ size
      → total ≤ fuel * size
      → q * size + r + total ≤ (n + 1) * size
      → 0 < total
      → fat16_read_internal device private fuel (chain 0) (q * size + r) total
        ≡ some (0, bytes_from (file_byte image private chain) (q * size + r) total)
  fat16_read_internal_lem zero q r total i a e f g = absurd (omega arith)
  fat16_read_internal_lem (suc fuel) q r total i a e f g =
      let p = v.cluster_size in
      let c : q ≤ n = le_of_chain size q n r total p f g in
      let d = v.on_disk q c in
      elim (dec_lt size total) [
        | no last ↦ elim a [
          | inl z ↦
              let w : r + total ≤ size = omega arith in
              fat16_read_internal_one_round fuel q r total i (omega arith) c (omega arith)
              ∙ ap (λ l. some (0, l)) (within q r total w)
          | inr w ↦
              fat16_read_internal_one_round fuel q r total i (omega arith) c (omega arith)
              ∙ ap (λ l. some (0, l)) (within q r total w)
        ]
        | yes more ↦
            let z : r ≡ 0 = elim a [ inl z ↦ z | inr w ↦ absurd (omega arith) ] in
            let next : q * size + 0 + size ≡ (q + 1) * size + 0 = omega arith in
            let all : size + (total - size) ≡ total = omega arith in
            let file = file_byte image private chain in
            let rec =
              fat16_read_internal_lem fuel (q + 1) 0 (total - size) p (inl refl) (omega arith)
                (omega arith) (omega arith) in
            rw z (
              more_rounds fuel q total (bytes_from file (q * size + 0 + size) (total - size)) more c
                (rw next rec)
              ∙ ap (λ l. some (0, l))
                  (ap (λ l. l ++ bytes_from file (q * size + 0 + size) (total - size))
                      (within q 0 size (omega arith))
                    ∙ bytes_from-append file (q * size + 0) size (total - size)
                    ∙ ap (bytes_from file (q * size + 0)) all))
      ]
