-- ===== src/Fat/Directory/Find.antt =====
-- What a name finds in a directory.
use maer_os.Common.{
  ℕ, suc, ◌+◌, ◌≡◌, ◌⊎◌, inl, inr, refl, ap, ◌∙◌, true, false, Option, none, some, List, [], ◌∷◌,
  ◌++◌, length, bit_and, ◌==◌, arith,
}
use maer_os.Disk.{Device}
use maer_os.Fat.Layout.{FatDirectoryItem, FatDirectory, FatPrivate}
use maer_os.Fat.Naming.{same_name}
use maer_os.Fat.Directory.{
  FatItem, file_item, rounds, fat16_clone_directory_item, fat16_new_fat_item_for_directory_item,
  find_loop, fat16_find_item_in_directory,
}

-- Items whose names all differ from the one that is asked for.
unfoldable pub Differ : List FatDirectoryItem → List ℕ → Type 0
Differ [] name = Unit
Differ (item ∷ items) name = (same_name item name ≡ some false) × Differ items name

-- Items that each have another name, or are a file.
unfoldable pub Scanned : List FatDirectoryItem → List ℕ → Type 0
Scanned [] name = Unit
Scanned (item ∷ items) name =
    ((same_name item name ≡ some false)
      ⊎ ((same_name item name ≡ some true) × (bit_and item.attribute 0x10 ≡ 0)))
    × Scanned items name

module _ (device : Device) (fuel : ℕ) (private : FatPrivate) (name : List ℕ) where
  new_file :
      (item : FatDirectoryItem)
      → bit_and item.attribute 0x10 ≡ 0
      → fat16_new_fat_item_for_directory_item device fuel private item ≡ some (file_item item)
  unfolding fat16_new_fat_item_for_directory_item fat16_clone_directory_item
  new_file item e =
      let z : (bit_and item.attribute 0x10 == 0) ≡ true = rw e refl in
      rw (z, fat16_new_fat_item_for_directory_item) refl

  skip :
      (item : FatDirectoryItem) (items : List FatDirectoryItem) (left : ℕ) (f : Option FatItem)
      → same_name item name ≡ some false
      → find_loop device fuel private (item ∷ items) (suc left) name f
        ≡ find_loop device fuel private items left name f
  unfolding find_loop
  skip item items left f e = rw (e, find_loop) refl

  take_match :
      (item : FatDirectoryItem) (items : List FatDirectoryItem) (left : ℕ) (f : Option FatItem)
      (g : FatItem)
      → same_name item name ≡ some true
      → fat16_new_fat_item_for_directory_item device fuel private item ≡ some g
      → find_loop device fuel private (item ∷ items) (suc left) name f
        ≡ find_loop device fuel private items left name (some g)
  unfolding find_loop
  take_match item items left f g e n = rw (e, find_loop) (rw n refl)

  find_loop-Differ :
      (ys zs : List FatDirectoryItem) (f : Option FatItem)
      → Differ ys name
      → find_loop device fuel private (ys ++ zs) (length ys) name f ≡ some f
  unfolding find_loop Differ
  find_loop-Differ [] zs f d = refl
  find_loop-Differ (y ∷ ys) zs f d =
      skip y (ys ++ zs) (length ys) f d.0 ∙ find_loop-Differ ys zs f d.1

  find_loop-Scanned :
      (xs rest : List FatDirectoryItem) (left : ℕ) (f : Option FatItem)
      → Scanned xs name
      → (g : Option FatItem) × (find_loop device fuel private (xs ++ rest) (length xs + left) name f
          ≡ find_loop device fuel private rest left name g)
  unfolding Scanned
  find_loop-Scanned [] rest left f s =
      (f, ap (λ (n : ℕ). find_loop device fuel private rest n name f) (omega arith))
  find_loop-Scanned (x ∷ xs) rest left f s =
      let n : suc (length xs) + left ≡ suc (length xs + left) = omega arith in
      elim s.0 [
        | inl d ↦
            let (g, e) = find_loop-Scanned xs rest left f s.1 in
            (g, rw n (skip x (xs ++ rest) (length xs + left) f d ∙ e))
        | inr m ↦
            let (g, e) = find_loop-Scanned xs rest left (some (file_item x)) s.1 in
            (
              g,
              rw n (
                  take_match x (xs ++ rest) (length xs + left) f (file_item x) m.0 (new_file x m.1)
                  ∙ e),
            )
      ]

  -- The last of the items counted that has the name is the one that is found, if its item can be made,
  -- even behind other files of that name; the items behind those counted do not matter.
  pub fat16_find_item_in_directory_last :
      (directory : FatDirectory) (xs ys zs : List FatDirectoryItem) (item : FatDirectoryItem)
      (f : FatItem)
      → directory.item ≡ xs ++ (item ∷ (ys ++ zs))
      → rounds directory.total ≡ length xs + suc (length ys)
      → Scanned xs name
      → same_name item name ≡ some true
      → fat16_new_fat_item_for_directory_item device fuel private item ≡ some f
      → Differ ys name
      → fat16_find_item_in_directory device fuel private directory name ≡ some (some f)
  unfolding fat16_find_item_in_directory
  fat16_find_item_in_directory_last directory xs ys zs item f e t s m n d =
      let (g, p) = find_loop-Scanned xs (item ∷ (ys ++ zs)) (suc (length ys)) none s in
      rw (e, t)
        (p ∙ take_match item (ys ++ zs) (length ys) g f m n ∙ find_loop-Differ ys zs (some f) d)

  -- A name that none of the items counted has is not found, whatever items lie behind them.
  pub fat16_find_item_in_directory_missing :
      (directory : FatDirectory) (ys zs : List FatDirectoryItem)
      → directory.item ≡ ys ++ zs
      → rounds directory.total ≡ length ys
      → Differ ys name
      → fat16_find_item_in_directory device fuel private directory name ≡ some none
  unfolding fat16_find_item_in_directory
  fat16_find_item_in_directory_missing directory ys zs e t d =
      rw (e, t) (find_loop-Differ ys zs none d)
