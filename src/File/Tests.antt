-- ===== src/File/Tests.antt =====
-- The theorems on descriptors with a file system that counts the open files.
use maer_os.Common.{ℕ, ◌+◌, ◌-◌, ◌≤◌, ◌<◌, ◌≡◌, refl, none, some, List, [], ◌∷◌, pos, negsuc}
use maer_os.File.{Descriptors, FileSystem, mode_read, open_file, fclose, fread}
use maer_os.File.Calls.{fclose-open_file}

-- The state is the number of open files; the handle is always 7.
abbrev counting : FileSystem ℕ
counting = record {
  open_path = λ parts mode n. (some 7, n + 1);
  read = λ h size nmemb n. (pos nmemb, [], n);
  seek = λ h offset whence n. (pos 0, n);
  close = λ h n. (pos 0, n - 1);
  stat = λ h n. (pos 0, some (record { flags = 0; filesize = 3 }));
}

abbrev two_slots : Descriptors
two_slots = none ∷ none ∷ []

abbrev in_bin : List (List ℕ)
in_bin = (98 ∷ []) ∷ []

read_refuses : fread counting 0 1 (pos 1) two_slots 0 ≡ (negsuc 1, [], 0)
unfolding fread
read_refuses = refl

fclose-open_file_example :
    (fd : ℕ) × (ds' : Descriptors) × (open_file counting in_bin mode_read two_slots 0
      ≡ (fd, ds', 1))
    × (0 < fd)
    × (fd < 512 → fclose counting (pos fd) ds' 1 ≡ (pos 0, two_slots, 0))
    × (512 ≤ fd → fclose counting (pos fd) ds' 1 ≡ (negsuc 0, ds', 1))
fclose-open_file_example = fclose-open_file counting in_bin two_slots 0 1 0 7 0 refl refl refl
