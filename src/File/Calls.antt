-- ===== src/File/Calls.antt =====
-- Opening and closing a file through the table of descriptors.
use maer_os.Common.{
  ℕ, ◌≤◌, ◌<◌, ◌≡◌, refl, ap, ◌∙◌, Option, none, some, List, get_elem?, ℤ, pos, negsuc,
}
use maer_os.File.{
  FileDescriptor, Descriptors, FileSystem, mode_read, file_new_descriptor, file_get_descriptor,
  file_free_descriptor, open_file, fclose,
}
use maer_os.File.Table.{file_new_descriptor-IsNew}

module _ {F : Type 0} (fs : FileSystem F) where
  pub open_reading :
      (parts : List (List ℕ)) (ds ds' : Descriptors) (f f' : F) (p : ℕ) (desc : FileDescriptor)
      → fs.open_path parts mode_read f ≡ (some p, f')
      → file_new_descriptor p ds ≡ some (desc, ds')
      → open_file fs parts mode_read ds f ≡ (desc.index, ds', f')
  unfolding open_file
  open_reading parts ds ds' f f' p desc o n =
      rw (o, open_file) (rw n (ap (λ (r : Option ℕ × F). (desc.index, ds', r.1)) o))

  pub close_found :
      (fd : ℕ) (ds : Descriptors) (f f' : F) (desc : FileDescriptor)
      → file_get_descriptor (pos fd) ds ≡ some desc
      → fs.close desc.private_data f ≡ (pos 0, f')
      → fclose fs (pos fd) ds f ≡ (pos 0, file_free_descriptor desc ds, f')
  unfolding fclose
  close_found fd ds f f' desc g c =
      rw (g, fclose) (rw c (ap (λ (r : ℤ × F). (pos 0, file_free_descriptor desc ds, r.1)) c))

  close_missing :
      (fd : ℕ) (ds : Descriptors) (f : F)
      → file_get_descriptor (pos fd) ds ≡ none
      → fclose fs (pos fd) ds f ≡ (negsuc 0, ds, f)
  unfolding fclose
  close_missing fd ds f g = rw (g, fclose) refl

  -- While a slot is free and the file system opens the path, opening it for reading gives a number
  -- above 0; below 512, closing that number closes the handle and restores the table; the number 512
  -- is given too, but closing it fails with -EIO and keeps the slot.
  pub fclose-open_file :
      (parts : List (List ℕ)) (ds : Descriptors) (f f' f'' : F) (p free : ℕ)
      → fs.open_path parts mode_read f ≡ (some p, f')
      → fs.close p f' ≡ (pos 0, f'')
      → get_elem? ds free ≡ some none
      → (fd : ℕ) × (ds' : Descriptors) × (open_file fs parts mode_read ds f ≡ (fd, ds', f'))
        × (0 < fd)
        × (fd < 512 → fclose fs (pos fd) ds' f' ≡ (pos 0, ds, f''))
        × (512 ≤ fd → fclose fs (pos fd) ds' f' ≡ (negsuc 0, ds', f'))
  fclose-open_file parts ds f f' f'' p free o c h =
      let (desc, ds', n, new) = file_new_descriptor-IsNew p ds free h in
      (
        desc.index,
        ds',
        open_reading parts ds ds' f f' p desc o n,
        new.from_one,
        λ q.
            close_found desc.index ds' f' f'' desc (new.found q)
              (ap (λ k. fs.close k f') new.holds ∙ c)
            ∙ ap (λ l. (pos 0, l, f'')) new.freed,
        λ q. close_missing desc.index ds' f' (new.lost q),
      )
