-- ===== src/Fat/Directory/Root.antt =====
-- The root directory, as the driver reads it and as names find items in it.
use maer_os.Common.{
  ℕ, zero, suc, ◌+◌, ◌*◌, ◌/◌, ◌^◌, ◌≤◌, ◌<◌, ◌≡◌, ◌≢◌, refl, sym, ap, ◌∙◌, Bool, false, none, some,
  List, length, take, drop, length-take, take-append-drop, leb, if◌then◌else◌, arith, all_ok, u32,
}
use maer_os.Disk.{Device, bytes_from}
use maer_os.Disk.Read.{Holds}
use maer_os.Fat.Layout.{FatH, FatDirectoryItem, FatDirectory, FatPrivate}
use maer_os.Fat.Clusters.{fat16_sector_to_absolute}
use maer_os.Fat.Clusters.Reads.{stream_read_lem}
use maer_os.Fat.Directory.{
  items_of, root_dir_sector_pos, fat16_get_root_directory, fat16_find_item_in_directory,
}
use maer_os.Fat.Directory.Count.{used, used-le, used-lt, fat16_get_total_items_for_directory_lem}
use maer_os.Fat.Directory.Find.{Differ, fat16_find_item_in_directory_missing}

length-items_of : (n : ℕ) (bytes : List ℕ) → length (items_of n bytes) ≡ n
unfolding items_of
length-items_of zero bytes = refl
length-items_of (suc n) bytes = ap suc (length-items_of n (drop 32 bytes))

-- The items of the root directory on the disk.
abbrev pub root_items : (ℕ → ℕ) → FatH → List FatDirectoryItem
root_items image header =
    let entries = header.primary_header.root_dir_entries in
    items_of entries (bytes_from image (root_dir_sector_pos header * 512) (entries * 32))

-- The root directory with the items before index `n` counted.
abbrev pub root_directory : (ℕ → ℕ) → ℕ → FatH → FatDirectory
root_directory image n header =
    let at = root_dir_sector_pos header in
    record {
      item = root_items image header;
      total = used image (at * 512) n;
      sector_pos = at;
      ending_sector_pos = at + header.primary_header.root_dir_entries * 32 / 512;
    }

module _ (device : Device) (image : ℕ → ℕ) (limit fuel n : ℕ) (header : FatH) where
  -- The first item with a null name is at index `n`, and the directory lies on the disk.
  pub record HasRoot : Type 0 where
    pub holds : Holds device image limit
    pub enough : n < fuel
    pub named : (k : ℕ) → k < n → image (root_dir_sector_pos header * 512 + 32 * k) ≢ 0
    pub ended : image (root_dir_sector_pos header * 512 + 32 * n) ≡ 0
    pub inside : n < header.primary_header.root_dir_entries
    pub on_disk :
        root_dir_sector_pos header * 512 + header.primary_header.root_dir_entries * 32 < limit * 512
    pub disk_size : limit ≤ 2 ^ 22

  -- The root directory has all its items, but counts only those that are not marked as unused.
  pub fat16_get_root_directory_lem :
      HasRoot
      → fat16_get_root_directory device fuel header
        ≡ some (all_ok, some (root_directory image n header))
  unfolding fat16_get_root_directory fat16_sector_to_absolute
  fat16_get_root_directory_lem v =
      let (inside, on_disk, disk_size) : (n < header.primary_header.root_dir_entries)
          × (root_dir_sector_pos header * 512 + header.primary_header.root_dir_entries * 32
              < limit * 512)
          × (limit ≤ 2 ^ 22) =
        (v.inside, v.on_disk, v.disk_size) in
      let at : u32 (root_dir_sector_pos header * 512) ≡ root_dir_sector_pos header * 512 =
        omega arith in
      let count =
        fat16_get_total_items_for_directory_lem device image limit v.holds disk_size fuel
          (root_dir_sector_pos header) n v.enough v.named v.ended (omega arith) in
      rw (count.0, fat16_get_root_directory)
        (rw at (rw (stream_read_lem device image limit _ _ v.holds on_disk disk_size) refl))

  -- With an unused item before the first null name of the root directory, the driver counts only the
  -- used items before that name, fewer than stand there, and a name that differs from those of the first
  -- items, as many as are counted, is not found, whatever the items behind them are.
  pub fat16_find_item_in_directory_hidden :
      (private : FatPrivate) (name : List ℕ) (k : ℕ)
      → HasRoot
      → k < n
      → image (root_dir_sector_pos header * 512 + 32 * k) ≡ 0xE5
      → Differ
          (take (used image (root_dir_sector_pos header * 512) n) (root_items image header))
          name
      → (root : FatDirectory) × (fat16_get_root_directory device fuel header
          ≡ some (all_ok, some root))
        × (root.total ≡ used image (root_dir_sector_pos header * 512) n)
        × (root.total < n)
        × (fat16_find_item_in_directory device fuel private root name ≡ some none)
  fat16_find_item_in_directory_hidden private name k v before unused d =
      let entries = header.primary_header.root_dir_entries in
      let at = root_dir_sector_pos header * 512 in
      let u = used image at n in
      let items = root_items image header in
      let b : n < entries = v.inside in
      let o : at + entries * 32 < limit * 512 = v.on_disk in
      let l : limit ≤ 2 ^ 22 = v.disk_size in
      let c = used-le image at n in
      let i = length-items_of entries (bytes_from image at (entries * 32)) in
      let small : leb (2 ^ 31) u ≡ false = ground (arith, c, b, o, l) in
      let t : u ≡ length (take u items) = omega (arith, length-take u items, i, c, b) in
      (
        root_directory image n header,
        fat16_get_root_directory_lem v,
        refl,
        used-lt image at n k before unused,
        fat16_find_item_in_directory_missing device fuel private name
            (root_directory image n header) (take u items) (drop u items)
            (sym (take-append-drop u items)) (ap (λ (s : Bool). if s then 0 else u) small ∙ t) d,
      )
