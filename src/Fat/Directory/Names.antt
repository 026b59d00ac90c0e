-- ===== src/Fat/Directory/Names.antt =====
-- Names in the form "name.ext", from fields that are filled up with spaces.
use maer_os.Common.{
  ℕ, zero, ◌-◌, ◌≤◌, ◌<◌, ◌≡◌, ◌≢◌, ◌↔◌, refl, sym, ap, ◌∙◌, true, false, some, List, [], ◌∷◌, ◌++◌,
  length, length-append, take, replicate, leb, arith, ℤ, pos, negsuc, Option, none, suc, take_all,
}
use maer_os.Strings.{written, istrncmp}
use maer_os.Strings.Laws.{IsText, IsText-append, c_string}
use maer_os.Strings.Case.{lowered, length-lowered, istrncmp-zero_iff}
use maer_os.Fat.Layout.{FatDirectoryItem}
use maer_os.Fat.Naming.{
  ends_field, fat16_to_proper_string, in_buffer, fat16_get_full_relative_filename, is_zero,
  same_name,
}

-- Bytes that do not end a field.
unfoldable pub IsField : List ℕ → Type 0
IsField [] = Unit
IsField (c ∷ cs) = (ends_field c ≡ false) × IsField cs

-- A field of `size` bytes with spaces behind its text.
abbrev pub padded : ℕ → List ℕ → List ℕ
padded size cs = cs ++ replicate (size - length cs) 0x20

pub fat16_to_proper_string-padded :
    (cs : List ℕ) (size : ℕ)
    → IsField cs
    → length cs ≤ size
    → 0 < size
    → fat16_to_proper_string (padded size cs) size ≡ some cs
unfolding fat16_to_proper_string IsField
fat16_to_proper_string-padded [] zero f b p = absurd (omega arith)
fat16_to_proper_string-padded [] (suc size) f b p =
    let e : suc size - 0 ≡ suc size = omega arith in rw e refl
fat16_to_proper_string-padded (c ∷ []) (suc zero) f b p = rw f.0 refl
fat16_to_proper_string-padded (c ∷ d ∷ cs) (suc zero) f b p = absurd (omega arith)
fat16_to_proper_string-padded (c ∷ cs) (suc (suc size)) f b p =
    let more : leb (suc (suc size)) 1 ≡ false = ground arith in
    let left : suc (suc size) - 1 ≡ suc size = omega arith in
    let fill : suc (suc size) - suc (length cs) ≡ suc size - length cs = omega arith in
    rw (f.0, more, left, fill)
      (ap (written c) (fat16_to_proper_string-padded cs (suc size) f.1 (omega arith) (omega arith)))
fat16_to_proper_string-padded (c ∷ cs) zero f b p = absurd (omega arith)

-- How a name and an extension are written.
abbrev pub full_name : List ℕ → List ℕ → List ℕ
full_name name [] = name
full_name name (c ∷ ext) = name ++ (0x2e ∷ c ∷ ext)

-- The item has this name and this extension.
pub record HasName (item : FatDirectoryItem) (name ext : List ℕ) : Type 0 where
  pub filename : item.filename ≡ padded 8 name
  pub ext_field : item.ext ≡ padded 3 ext
  pub name_field : IsField name
  pub extension : IsField ext
  pub name_fits : length name ≤ 8
  pub ext_fits : length ext ≤ 3

-- The buffer holds the name, then a dot and the extension if there is one, then zeros.
pub fat16_get_full_relative_filename_lem :
    (item : FatDirectoryItem) (name ext : List ℕ) (max_len : ℕ)
    → HasName item name ext
    → fat16_get_full_relative_filename item max_len ≡ some (in_buffer max_len (full_name name ext))
unfolding fat16_get_full_relative_filename IsField
fat16_get_full_relative_filename_lem item name [] max_len v =
    let n = fat16_to_proper_string-padded name 8 v.name_field v.name_fits (omega arith) in
    rw (v.filename, fat16_get_full_relative_filename) (rw n (rw v.ext_field refl))
fat16_get_full_relative_filename_lem item name (c ∷ ext) max_len v =
    let n = fat16_to_proper_string-padded name 8 v.name_field v.name_fits (omega arith) in
    let e = fat16_to_proper_string-padded (c ∷ ext) 3 v.extension v.ext_fits (omega arith) in
    rw (v.filename, fat16_get_full_relative_filename)
      (rw n (rw v.ext_field (rw v.extension.0 (rw v.ext_field (rw e refl)))))

ends : {c : ℕ} → ends_field c ≡ false → c ≢ 0
ends f z = ground arith

IsField-IsText : (cs : List ℕ) → IsField cs → IsText cs
unfolding IsField IsText
IsField-IsText [] f = tt
IsField-IsText (c ∷ cs) f = (λ z. ends f.0 z, IsField-IsText cs f.1)

full_name-IsText : (name ext : List ℕ) → IsField name → IsField ext → IsText (full_name name ext)
unfolding IsText
full_name-IsText name [] f g = IsField-IsText name f
full_name-IsText name (c ∷ ext) f g =
    IsText-append name (0x2e ∷ c ∷ ext) (IsField-IsText name f)
      (λ z. omega (arith, z), IsField-IsText (c ∷ ext) g)

length-full_name :
    (name ext : List ℕ) → length name ≤ 8 → length ext ≤ 3 → length (full_name name ext) ≤ 12
length-full_name name [] p q = omega arith
length-full_name name (c ∷ ext) p q = omega (arith, length-append name (0x2e ∷ c ∷ ext))

in_buffer-text :
    (text : List ℕ) (max_len : ℕ)
    → length text < max_len
    → (rest : List ℕ) × (in_buffer max_len text ≡ c_string text rest)
in_buffer-text text max_len b =
    let e : max_len - length text ≡ suc (max_len - length text - 1) = omega arith in
    (replicate (max_len - length text - 1) 0, ap (λ n. text ++ replicate n 0) e)

is_zero_iff : (r : Option ℤ) → (is_zero r ≡ some true) ↔ (r ≡ some (pos 0))
is_zero_iff none = (λ e. absurd (cc), λ e. absurd (cc))
is_zero_iff (some (pos zero)) = (λ e. refl, λ e. refl)
is_zero_iff (some (pos (suc n))) = (λ e. absurd (cc), λ e. absurd (cc))
is_zero_iff (some (negsuc n)) = (λ e. absurd (cc), λ e. absurd (cc))

take-lowered : (cs : List ℕ) → length cs < 108 → take 108 (lowered cs) ≡ lowered cs
take-lowered cs q = take_all 108 (lowered cs) (omega (arith, length-lowered cs))

-- An item whose fields hold a name and an extension, filled up with spaces, has the name that a string
-- of less than 108 bytes asks for exactly when the two are the same in small letters.
pub same_name_iff :
    (item : FatDirectoryItem) (name ext wanted rest : List ℕ)
    → HasName item name ext
    → IsText wanted
    → length wanted < 108
    → (same_name item (c_string wanted rest) ≡ some true)
      ↔ (lowered (full_name name ext) ≡ lowered wanted)
unfolding same_name
same_name_iff item name ext wanted rest v t b =
    let short : length (full_name name ext) < 108 =
      omega (arith, length-full_name name ext v.name_fits v.ext_fits) in
    let (r, e) = in_buffer-text (full_name name ext) 108 short in
    let i =
      istrncmp-zero_iff 108 (full_name name ext) wanted r rest
        (full_name-IsText name ext v.name_field v.extension) t in
    let z = is_zero_iff (istrncmp (c_string (full_name name ext) r) (c_string wanted rest) 108) in
    let l = take-lowered (full_name name ext) short in
    let m = take-lowered wanted b in
    rw (fat16_get_full_relative_filename_lem item name ext 108 v, same_name)
      (rw e (λ h. sym l ∙ i.0 (z.0 h) ∙ m, λ h. z.1 (i.1 (l ∙ h ∙ sym m))))
