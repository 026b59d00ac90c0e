-- ===== src/Fat/Directory/Walk.antt =====
-- The path from the root directory to an item, and the opening of a file.
use maer_os.Common.{
  ℕ, ◌≡◌, ◌≢◌, ◌↔◌, refl, sym, ap, ◌∙◌, subst, append-nil, Option, none, some, List, [], ◌∷◌, ◌++◌,
  eio, Option-cases, inl, inr,
}
use maer_os.File.{mode_read}
use maer_os.Disk.{Device}
use maer_os.Fat.Layout.{FatDirectoryItem, FatDirectory, FatPrivate}
use maer_os.Fat.Directory.{
  FatItem, file_item, directory_item, dangling_item, null_item, OpenResult, opened, refused,
  fat16_find_item_in_directory, entry_loop, fat16_get_directory_entry, fat16_open,
}

module _ (device : Device) (fuel : ℕ) (private : FatPrivate) where
  -- From an item down the parts of a path, each found in the directory of the one before.
  pub data Walks : FatItem → List (List ℕ) → FatItem → Type 0 where
    here : {item : FatItem} → Walks item [] item
    down :
        {directory : FatDirectory} {part : List ℕ} {parts : List (List ℕ)} {item last : FatItem}
        → fat16_find_item_in_directory device fuel private directory part ≡ some (some item)
        → Walks item parts last
        → Walks (directory_item directory) (part ∷ parts) last

  -- The loop goes down a walk and on with the parts behind it.
  entry_loop_along :
      {item last : FatItem} {parts : List (List ℕ)} (rest : List (List ℕ))
      → Walks item parts last
      → entry_loop device fuel private (parts ++ rest) (some item)
        ≡ entry_loop device fuel private rest (some last)
  unfolding entry_loop
  entry_loop_along rest here = refl
  entry_loop_along rest (down e w) = rw (e, entry_loop) (entry_loop_along rest w)

  entry_step :
      (d : FatDirectory) (part : List ℕ) (parts : List (List ℕ)) (t : Option FatItem)
      → fat16_find_item_in_directory device fuel private d part ≡ some t
      → entry_loop device fuel private (part ∷ parts) (some (directory_item d))
        ≡ entry_loop device fuel private parts t
  unfolding entry_loop
  entry_step d part parts t e = rw (e, entry_loop) refl

  entry_fault :
      (d : FatDirectory) (part : List ℕ) (parts : List (List ℕ))
      → fat16_find_item_in_directory device fuel private d part ≡ none
      → entry_loop device fuel private (part ∷ parts) (some (directory_item d)) ≡ none
  unfolding entry_loop
  entry_fault d part parts e = rw (e, entry_loop) refl

  entry_null :
      (parts : List (List ℕ)) (last : FatItem)
      → entry_loop device fuel private parts none ≢ some (some last)
  unfolding entry_loop
  entry_null [] last e = cc
  entry_null (part ∷ parts) last e = cc

  entry_loop-Walks :
      (parts : List (List ℕ)) (item last : FatItem)
      → entry_loop device fuel private parts (some item) ≡ some (some last)
      → Walks item parts last
  unfolding entry_loop
  entry_loop-Walks [] item last e = let q : item ≡ last = cc in subst (λ t. Walks item [] t) q here
  entry_loop-Walks (part ∷ parts) (file_item f) last e = absurd cc
  entry_loop-Walks (part ∷ parts) dangling_item last e = absurd cc
  entry_loop-Walks (part ∷ parts) null_item last e = absurd cc
  entry_loop-Walks (part ∷ parts) (directory_item d) last e =
      elim (Option-cases (fat16_find_item_in_directory device fuel private d part)) [
        | inl n ↦ let f = entry_fault d part parts n in absurd cc
        | inr (none, n) ↦ absurd (entry_null parts last (sym (entry_step d part parts none n) ∙ e))
        | inr (some item, n) ↦
            down n
              (entry_loop-Walks parts item last (sym (entry_step d part parts (some item) n) ∙ e))
      ]

  -- The first part is found in the root directory.
  abbrev pub InRoot : List ℕ → FatItem → Type 0
  InRoot part item =
      fat16_find_item_in_directory device fuel private private.root_directory part
      ≡ some (some item)

  entry_from_root :
      (part : List ℕ) (parts : List (List ℕ)) (item : FatItem)
      → InRoot part item
      → fat16_get_directory_entry device fuel private part parts
        ≡ entry_loop device fuel private parts (some item)
  unfolding fat16_get_directory_entry
  entry_from_root part parts item e = rw (e, fat16_get_directory_entry) refl

  open_entry :
      (part : List ℕ) (parts : List (List ℕ)) (item : FatItem)
      → fat16_get_directory_entry device fuel private part parts ≡ some (some item)
      → fat16_open device fuel private part parts mode_read
        ≡ some (opened (record { item = item; pos = 0 }))
  unfolding fat16_open
  open_entry part parts item e = rw (e, fat16_open) refl

  open_missing :
      (part : List ℕ) (parts : List (List ℕ))
      → fat16_get_directory_entry device fuel private part parts ≡ some none
      → fat16_open device fuel private part parts mode_read ≡ some (refused eio)
  unfolding fat16_open
  open_missing part parts e = rw (e, fat16_open) refl

  open_fault :
      (part : List ℕ) (parts : List (List ℕ))
      → fat16_get_directory_entry device fuel private part parts ≡ none
      → fat16_open device fuel private part parts mode_read ≡ none
  unfolding fat16_open
  open_fault part parts e = rw (e, fat16_open) refl

  -- The item that was opened.
  item_opened : FatItem → Option OpenResult → FatItem
  item_opened d none = d
  item_opened d (some (refused res)) = d
  item_opened d (some (opened desc)) = desc.item

  fat16_open-Walks :
      (part : List ℕ) (parts : List (List ℕ)) (item last : FatItem)
      → InRoot part item
      → fat16_open device fuel private part parts mode_read
        ≡ some (opened (record { item = last; pos = 0 }))
      → Walks item parts last
  unfolding item_opened
  fat16_open-Walks part parts item last r e =
      elim (Option-cases (fat16_get_directory_entry device fuel private part parts)) [
        | inl n ↦ let f = open_fault part parts n in absurd cc
        | inr (none, n) ↦ let f = open_missing part parts n in absurd cc
        | inr (some t, n) ↦
            let same : t ≡ last = ap (item_opened t) (sym (open_entry part parts t n) ∙ e) in
            let w = entry_loop-Walks parts item t (sym (entry_from_root part parts item r) ∙ n) in
            subst (λ q. Walks item parts q) same w
      ]

  entry_along :
      (part : List ℕ) (parts rest : List (List ℕ)) (item last : FatItem)
      → InRoot part item
      → Walks item parts last
      → fat16_get_directory_entry device fuel private part (parts ++ rest)
        ≡ entry_loop device fuel private rest (some last)
  entry_along part parts rest item last r w =
      entry_from_root part (parts ++ rest) item r ∙ entry_loop_along rest w

  entry_end : (t : Option FatItem) → entry_loop device fuel private [] t ≡ some t
  unfolding entry_loop
  entry_end t = refl

  entry_of_null :
      (part : List ℕ) (parts : List (List ℕ))
      → entry_loop device fuel private (part ∷ parts) none ≡ none
  unfolding entry_loop
  entry_of_null part parts = refl

  entry_of_file :
      (file : FatDirectoryItem) (part : List ℕ) (parts : List (List ℕ))
      → entry_loop device fuel private (part ∷ parts) (some (file_item file)) ≡ some none
  unfolding entry_loop
  entry_of_file file part parts = refl

  -- A path whose first part is in the root directory is opened for reading as `last`, at position 0,
  -- exactly when its parts lead there from directory to directory.
  pub fat16_open_iff :
      (part : List ℕ) (parts : List (List ℕ)) (item last : FatItem)
      → InRoot part item
      → (fat16_open device fuel private part parts mode_read
          ≡ some (opened (record { item = last; pos = 0 })))
        ↔ Walks item parts last
  fat16_open_iff part parts item last r = (
    fat16_open-Walks part parts item last r,
    λ w.
        let along = entry_along part parts [] item last r w in
        let same = append-nil parts in
        open_entry part parts last (
          ap (fat16_get_directory_entry device fuel private part) (sym same)
          ∙ along
          ∙ entry_end (some last)),
  )

  -- Where the first part of a path is in the root directory and the parts behind it lead from there to a
  -- directory that does not have the next one, a path that ends with that part is refused with -EIO,
  -- and one with another part behind it reads through the null pointer.
  pub fat16_open_missing :
      (part name next : List ℕ) (parts rest : List (List ℕ)) (item : FatItem)
      (directory : FatDirectory)
      → InRoot part item
      → Walks item parts (directory_item directory)
      → fat16_find_item_in_directory device fuel private directory name ≡ some none
      → (fat16_open device fuel private part (parts ++ (name ∷ [])) mode_read ≡ some (refused eio))
        × (fat16_open device fuel private part (parts ++ (name ∷ next ∷ rest)) mode_read ≡ none)
  fat16_open_missing part name next parts rest item directory r w m = (
    open_missing part _ (
        entry_along part parts (name ∷ []) item _ r w
        ∙ entry_step directory name [] none m
        ∙ entry_end none),
    open_fault part _ (
        entry_along part parts (name ∷ next ∷ rest) item _ r w
        ∙ entry_step directory name (next ∷ rest) none m
        ∙ entry_of_null next rest),
  )

  -- A part behind a file is refused with -EIO.
  pub fat16_open_behind_file :
      (part name : List ℕ) (parts rest : List (List ℕ)) (item : FatItem) (file : FatDirectoryItem)
      → InRoot part item
      → Walks item parts (file_item file)
      → fat16_open device fuel private part (parts ++ (name ∷ rest)) mode_read ≡ some (refused eio)
  fat16_open_behind_file part name parts rest item file r w =
      open_missing part _
        (entry_along part parts (name ∷ rest) item _ r w ∙ entry_of_file file name rest)
