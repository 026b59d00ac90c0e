-- ===== src/Paging/Identity.antt =====
-- `paging_new_4gb`: a directory that maps every address to itself.
use maer_os.Common.{
  ℕ, zero, suc, ◌+◌, ◌-◌, ◌*◌, ◌/◌, ◌%◌, ◌^◌, ◌≤◌, ◌<◌, ◌≡◌, ◌≢◌, refl, sym, ◌∙◌, ap, arith, List,
  [], ◌∷◌, length, get_or, ℕ_discrete, dec_lt, ◌⊎◌, inl, inr, bit_or, bit_or_high, u32, sub32,
}
use maer_os.Paging.{
  Words, page_size, entries_per_table, is_writeable, entry_address, paging_get,
  paging_get_physical_address, paging_align_to_lower_page, fill_table, fill_directory,
  paging_new_4gb,
}
use maer_os.Paging.Slots.{IsDirectory, entry_address_lem, table_at, slot}
use maer_os.Paging.Laws.{store_word_self, store_word_ne, paging_get_lem}
use maer_os.Paging.Ranges.{entry_address-bit_or}

-- An address outside a range.
abbrev Outside : ℕ → ℕ → ℕ → Type 0
Outside lo hi q = (q < lo) ⊎ (hi ≤ q)

module _ (entry offset flags : ℕ) (e : entry + 4096 ≤ 2 ^ 32) where
  fill_table-Outside :
      (left b q : ℕ) (m : Words)
      → b + left ≤ 1024
      → Outside (entry + 4 * b) (entry + 4 * (b + left)) q
      → fill_table left b entry offset flags m q ≡ m q
  unfolding fill_table
  fill_table-Outside zero b q m h o = refl
  fill_table-Outside (suc left) b q m h (inl o) =
      fill_table-Outside left (b + 1) q _ (omega arith) (inl (omega arith))
      ∙ store_word_ne m _ q _ (omega arith)
  fill_table-Outside (suc left) b q m h (inr o) =
      fill_table-Outside left (b + 1) q _ (omega arith) (inr (omega arith))
      ∙ store_word_ne m _ q _ (omega arith)

  fill_table_inside :
      (left b c : ℕ) (m : Words)
      → b + left ≤ 1024
      → b ≤ c
      → c < b + left
      → fill_table left b entry offset flags m (entry + 4 * c)
        ≡ bit_or (u32 (offset + c * 4096)) flags
  unfolding fill_table
  fill_table_inside zero b c m h p q = absurd (omega arith)
  fill_table_inside (suc left) b c m h p q = elim (ℕ_discrete b c) [
    | yes s ↦
        fill_table-Outside left (b + 1) (entry + 4 * c) _ (omega arith) (inl (omega arith))
        ∙ store_word_self m _ _ _ (omega arith)
        ∙ ap (λ t. bit_or (u32 (offset + t * 4096)) flags) s
    | no s ↦ fill_table_inside left (b + 1) c _ (omega arith) (omega arith) (omega arith)
  ]

-- Different tables on pages of their own, none of them the directory.
pub record IsTables (tables : List ℕ) (directory : ℕ) : Type 0 where
  pub aligned : (k : ℕ) → k < length tables → get_or tables k 0 % 4096 ≡ 0
  pub below : (k : ℕ) → k < length tables → get_or tables k 0 < 2 ^ 32
  pub apart :
      (j k : ℕ)
      → j < length tables
      → k < length tables
      → get_or tables j 0 ≡ get_or tables k 0
      → j ≡ k
  pub outside : (k : ℕ) → k < length tables → get_or tables k 0 ≢ directory

tail-IsTables :
    {t directory : ℕ} {tables : List ℕ}
    → IsTables (t ∷ tables) directory
    → IsTables tables directory
tail-IsTables v = record {
  aligned = λ k h. v.aligned (suc k) (omega arith);
  below = λ k h. v.below (suc k) (omega arith);
  apart = λ j k h i e. let s = v.apart (suc j) (suc k) (omega arith) (omega arith) e in omega arith;
  outside = λ k h. v.outside (suc k) (omega arith);
}

module _ (directory flags : ℕ) (page : directory % 4096 ≡ 0) (room : directory < 2 ^ 32) where
  fill-Outside :
      (tables : List ℕ) (i offset q : ℕ) (m : Words)
      → IsTables tables directory
      → i + length tables ≤ 1024
      → ((k : ℕ) → k < length tables → Outside (get_or tables k 0) (get_or tables k 0 + 4096) q)
      → Outside (directory + 4 * i) (directory + 4 * (i + length tables)) q
      → fill_directory tables i directory offset flags m q ≡ m q
  unfolding fill_directory
  fill-Outside [] i offset q m v h o d = refl
  fill-Outside (t ∷ tables) i offset q m v h o d =
      let first : t + 4096 ≤ 2 ^ 32 =
        omega (arith, v.aligned 0 (omega arith), v.below 0 (omega arith)) in
      fill-Outside tables (i + 1) (u32 (offset + entries_per_table * page_size)) q _
        (tail-IsTables v) (omega arith) (λ k b. o (suc k) (omega arith)) (later d)
      ∙ store_word_ne (fill_table entries_per_table 0 t offset flags m) _ q _ (entry d)
      ∙ fill_table-Outside t offset flags first 1024 0 q m (omega arith)
          (in_table (o 0 (omega arith)))
    where
      later :
          Outside (directory + 4 * i) (directory + 4 * (i + suc (length tables))) q
          → Outside (directory + 4 * (i + 1)) (directory + 4 * (i + 1 + length tables)) q
      later (inl x) = inl (omega arith)
      later (inr x) = inr (omega arith)

      entry :
          Outside (directory + 4 * i) (directory + 4 * (i + suc (length tables))) q
          → q ≢ u32 (directory + 4 * i)
      entry x = ground arith

      in_table : Outside t (t + 4096) q → Outside (t + 4 * 0) (t + 4 * (0 + 1024)) q
      in_table (inl x) = inl (omega arith)
      in_table (inr x) = inr (omega arith)

  -- An address in a page that starts elsewhere.
  other_page :
      (t base q : ℕ)
      → t % 4096 ≡ 0
      → base % 4096 ≡ 0
      → t ≢ base
      → base ≤ q
      → q < base + 4096
      → Outside t (t + 4096) q
  other_page t base q a b n l u = elim (dec_lt q t) [ yes x ↦ inl x | no x ↦ inr (omega arith) ]

  fill_entry :
      (tables : List ℕ) (i offset k : ℕ) (m : Words)
      → IsTables tables directory
      → i + length tables ≤ 1024
      → k < length tables
      → fill_directory tables i directory offset flags m (directory + 4 * (i + k))
        ≡ bit_or (bit_or (get_or tables k 0) flags) is_writeable
  unfolding fill_directory
  fill_entry [] i offset k m v h b = absurd (omega arith)
  fill_entry (t ∷ tables) i offset zero m v h b =
      fill-Outside tables (i + 1) (u32 (offset + entries_per_table * page_size))
        (directory + 4 * (i + 0)) _ (tail-IsTables v) (omega arith)
        (λ k l.
          other_page (get_or tables k 0) directory (directory + 4 * (i + 0))
            (v.aligned (suc k) (omega arith)) page (v.outside (suc k) (omega arith)) (omega arith)
            (omega arith))
        (inl (omega arith))
      ∙ store_word_self (fill_table entries_per_table 0 t offset flags m) (u32 (directory + 4 * i))
          (directory + 4 * (i + 0)) _ (omega arith)
  fill_entry (t ∷ tables) i offset (suc k) m v h b =
      ap (fill_directory (t ∷ tables) i directory offset flags m) (omega arith)
      ∙ fill_entry tables (i + 1) (u32 (offset + entries_per_table * page_size)) k _
          (tail-IsTables v) (omega arith) (omega arith)

  fill_page :
      (tables : List ℕ) (i offset k c : ℕ) (m : Words)
      → IsTables tables directory
      → i + length tables ≤ 1024
      → k < length tables
      → c < 1024
      → fill_directory tables i directory offset flags m (get_or tables k 0 + 4 * c)
        ≡ bit_or (u32 (offset + k * 2 ^ 22 + c * 4096)) flags
  unfolding fill_directory
  fill_page [] i offset k c m v h b l = absurd (omega arith)
  fill_page (t ∷ tables) i offset zero c m v h b l =
      let a : t % 4096 ≡ 0 = v.aligned 0 (omega arith) in
      let below : t < 2 ^ 32 = v.below 0 (omega arith) in
      let first : t + 4096 ≤ 2 ^ 32 = omega arith in
      let own =
        other_page directory t (t + 4 * c) page a (λ e. v.outside 0 (omega arith) (sym e))
          (omega arith) (omega arith) in
      fill-Outside tables (i + 1) (u32 (offset + entries_per_table * page_size)) (t + 4 * c) _
        (tail-IsTables v) (omega arith)
        (λ k x.
          other_page (get_or tables k 0) t (t + 4 * c) (v.aligned (suc k) (omega arith)) a
            (λ e. let s = v.apart (suc k) 0 (omega arith) (omega arith) e in absurd (omega arith))
            (omega arith) (omega arith))
        (behind own)
      ∙ store_word_ne (fill_table entries_per_table 0 t offset flags m) _ (t + 4 * c) _ (entry own)
      ∙ fill_table_inside t offset flags first 1024 0 c m (omega arith) (omega arith) (omega arith)
      ∙ ap (λ x. bit_or (u32 x) flags) (omega arith)
    where
      behind :
          Outside directory (directory + 4096) (t + 4 * c)
          → Outside (directory + 4 * (i + 1)) (directory + 4 * (i + 1 + length tables)) (t + 4 * c)
      behind (inl x) = inl (omega arith)
      behind (inr x) = inr (omega arith)

      entry : Outside directory (directory + 4096) (t + 4 * c) → t + 4 * c ≢ u32 (directory + 4 * i)
      entry x = ground arith
  fill_page (t ∷ tables) i offset (suc k) c m v h b l =
      fill_page tables (i + 1) (u32 (offset + entries_per_table * page_size)) k c _
        (tail-IsTables v) (omega arith) (omega arith) l
      ∙ ap (λ x. bit_or x flags) (omega arith)

  module _ (tables : List ℕ) (m : Words) (v : IsTables tables directory) (n : length tables ≡ 1024)
      (small : flags < 4096) where
    abbrev made : Words
    made = paging_new_4gb directory tables flags m

    table_at-made : (i : ℕ) → i < 1024 → table_at made directory i ≡ get_or tables i 0
    unfolding table_at paging_new_4gb
    table_at-made i h =
        let t = get_or tables i 0 in
        ap (λ x. entry_address (made x)) (omega arith)
        ∙ ap entry_address (fill_entry tables 0 0 i m v (omega arith) (omega arith))
        ∙ omega (
          arith,
          entry_address_lem (bit_or (bit_or t flags) 2),
          bit_or_high 12 (bit_or t flags) 2 (omega arith),
          bit_or_high 12 t flags small,
          v.aligned i (omega arith),
          v.below i (omega arith),
        )

    made-IsDirectory : IsDirectory made directory
    made-IsDirectory = record {
      aligned = page;
      below = room;
      apart = λ i j p q e.
          v.apart i j (omega arith) (omega arith) (sym (table_at-made i p) ∙ e ∙ table_at-made j q);
      outside = λ i p e. v.outside i (omega arith) (sym (table_at-made i p) ∙ e);
    }

    entry-made :
        (virt : ℕ)
        → virt < 2 ^ 32
        → virt % 4096 ≡ 0
        → paging_get directory virt made ≡ bit_or virt flags
    unfolding slot paging_new_4gb
    entry-made virt h a =
        paging_get_lem virt made-IsDirectory h a
        ∙ ap (λ t. made (t + 4 * (virt / 4096 % 1024)))
            (table_at-made (virt / 2 ^ 22) (omega arith))
        ∙ fill_page tables 0 0 (virt / 2 ^ 22) (virt / 4096 % 1024) m v (omega arith) (omega arith)
            (omega arith)
        ∙ ap (λ x. bit_or x flags) (omega arith)

    -- If the tables are 1024 different pages, none of them the page of the directory, and the flags have
    -- 12 bits, each entry of a new directory points to the table of its index, and the directory gives
    -- the flags to every page of the 4 GB and translates every address to itself.
    pub paging_new_4gb-IsIdentity :
        (i virt : ℕ)
        → i < 1024
        → virt < 2 ^ 32
        → IsDirectory (paging_new_4gb directory tables flags m) directory
          × (table_at (paging_new_4gb directory tables flags m) directory i ≡ get_or tables i 0)
          × (paging_get directory
                (paging_align_to_lower_page virt)
                (paging_new_4gb directory tables flags m)
              ≡ bit_or (paging_align_to_lower_page virt) flags)
          × (paging_get_physical_address directory virt (paging_new_4gb directory tables flags m)
              ≡ virt)
    unfolding paging_get_physical_address paging_align_to_lower_page
    paging_new_4gb-IsIdentity i virt e h =
        let lower = virt - virt % 4096 in
        let entry = entry-made lower (omega arith) (omega arith) in
        let back : sub32 virt lower ≡ virt % 4096 = omega arith in
        (
          made-IsDirectory,
          table_at-made i e,
          entry,
          rw (entry, entry_address-bit_or lower flags (omega arith) (omega arith) small, back)
              (omega arith),
        )
