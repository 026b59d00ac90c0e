-- ===== src/Loader/Volume/Served.antt =====
-- The FAT16 driver serves the files of an image that it can read.
use maer_os.Common.{
  ℕ, suc, ◌+◌, ◌*◌, ◌%◌, ◌^◌, ◌≤◌, ◌<◌, ◌≡◌, inl, refl, sym, ap, subst, ◌∙◌, none, some, List, ◌∷◌,
  get_elem?, set, length, pos, ◌==◌, if◌then◌else◌, bit_and, arith,
}
use native.Mathlib.Nat.{zero-mod}
use maer_os.Disk.{Device, bytes_from}
use maer_os.Disk.Read.{Holds}
use maer_os.PathParser.{pathparser_parse}
use maer_os.File.{Descriptors, mode_read, file_new_descriptor, fopen, fclose, fread, fstat}
use maer_os.File.Table.{IsNew}
use maer_os.Fat.Layout.{FatDirectoryItem, FatPrivate}
use maer_os.Fat.Clusters.{size_of_cluster_bytes, fat16_get_first_cluster}
use maer_os.Fat.Clusters.Reads.{IsChain, file_byte}
use maer_os.Fat.Directory.{FatFileDescriptor, opened, fat16_open}
use maer_os.Fat.Calls.{fat16_read}
use maer_os.Fat.Calls.Laws.{Fits, fat16_read_lem}
use maer_os.Loader.{read_mode}
use maer_os.Loader.Program.Data.{IsServed}
use maer_os.Loader.Volume.{free_place, place, part_string, part_strings, fat16_fs}
use maer_os.Loader.Volume.Calls.{
  get_elem?-place, free_place-place, length-bytes_from, Ready, Open, file_descriptor, from_start,
  file_descriptor-IsNew, fopen_found, fstat_found, fread_found, fclose_found,
}

-- On a device that holds an image, with clusters within the first 2 ^ 31 bytes of the disk that are
-- joined by the links that the driver reads, the 16-bit words at the table's position times twice the
-- cluster (a single cluster needs none, and FAT16 has its links elsewhere): a path of the first disk
-- that leads to a file that starts with the first of them, and has at least one byte, no more than the
-- clusters have and less than 2 ^ 31, is served by the driver through a free number of the table of
-- descriptors below 512: it is opened, has its size, is read whole from the clusters and is closed.
pub fat16_fs-IsServed :
    (device : Device) (image : ℕ → ℕ) (private : FatPrivate) (limit : ℕ) (chain : ℕ → ℕ) (n : ℕ)
    → IsChain image private limit chain n
    → Holds device image limit
    → (fuel : ℕ) (filename part : List ℕ) (parts : List (List ℕ)) (item : FatDirectoryItem)
    → pathparser_parse filename ≡ some (some (record { drive_no = pos 0; parts = part ∷ parts }))
    → fat16_open device fuel private (part_string part) (part_strings parts) mode_read
      ≡ some (opened (from_start item))
    → fat16_get_first_cluster item ≡ chain 0
    → 0 < item.filesize
    → item.filesize ≤ (n + 1) * size_of_cluster_bytes private
    → item.filesize < 2 ^ 31
    → (a free fd : ℕ) (ds open_ds : Descriptors) → get_elem? ds free ≡ some none
    → file_new_descriptor (suc a) ds
      ≡ some (record { index = suc fd; private_data = suc a }, open_ds)
    → suc fd < 512
    → IsServed
        (fat16_fs device fuel private)
        (Ready a)
        (Open a (from_start item))
        filename
        (bytes_from (file_byte image private chain) 0 item.filesize)
        fd
        ds
        open_ds
fat16_fs-IsServed device image private limit chain n v h fuel filename part parts item parsed found
      start some_bytes whole small a free fd ds open_ds z d below =
    record {
      opened = λ f (l, e, p). (
        some (place l a desc),
        ap (fopen (fat16_fs device fuel private) filename read_mode ds) e
            ∙ fopen_found device fuel private a fd ds open_ds item filename part parts l parsed
                found d p,
        (
          place l a desc,
          refl,
          subst (λ k. get_elem? (place l k desc) k ≡ some (some desc)) p (get_elem?-place l desc),
          subst (λ k. free_place (set (place l k desc) k none) ≡ k) p (free_place-place l desc),
        ),
      );
      sized = λ f (l, e, p, q). (
        record {
          flags = if bit_and item.attribute 0x01 == 0 then 0x00 else 0x01;
          filesize = item.filesize;
        },
        ap (fstat (fat16_fs device fuel private) (pos (suc fd)) open_ds) e
            ∙ fstat_found device fuel private a fd ds open_ds item new below l p,
        sym (length-bytes_from file 0 item.filesize),
      );
      read = λ f (l, e, p, q). (
        some l,
        ap (fread (fat16_fs device fuel private) (length bytes) 1 (pos (suc fd)) open_ds) e
            ∙ ap (λ k. fread (fat16_fs device fuel private) k 1 (pos (suc fd)) open_ds (some l))
                (length-bytes_from file 0 item.filesize)
            ∙ fread_found device fuel private a fd ds open_ds item new below l p bytes some_bytes
                read_whole,
        (l, refl, p, q),
      );
      closed = λ f (l, e, p, q). (
        some (set l a none),
        pos 0,
        ap (fclose (fat16_fs device fuel private) (pos (suc fd)) open_ds) e
            ∙ fclose_found device fuel private a fd ds open_ds item new below l p,
        (set l a none, refl, q),
      );
    }
  where
    desc : FatFileDescriptor
    desc = from_start item

    file : ℕ → ℕ
    file = file_byte image private chain

    bytes : List ℕ
    bytes = bytes_from file 0 item.filesize

    new : IsNew (suc a) ds open_ds (file_descriptor a fd)
    new = file_descriptor-IsNew device fuel private a fd ds open_ds item free z d

    at_start : (i : ℕ) → i < 1 → Fits private (0 + i * item.filesize) item.filesize
    at_start i p =
        let none_before : i ≡ 0 = omega arith in
        let no_bytes : 0 + 0 * item.filesize ≡ 0 = omega arith in
        rw none_before (
          inl (
            ap (λ k. k % size_of_cluster_bytes private) no_bytes
            ∙ zero-mod (size_of_cluster_bytes private)))

    read_whole : fat16_read device private desc item.filesize 1 ≡ some (1, bytes)
    read_whole =
        let once : 1 * item.filesize ≡ item.filesize = omega arith in
        fat16_read_lem device image private limit chain n v h desc item item.filesize 1 refl start
          at_start (omega arith) (omega arith) some_bytes
        ∙ ap (λ k. some (1, bytes_from file 0 k)) once
