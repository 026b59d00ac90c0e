-- ===== src/UserMemory/Translation.antt =====
-- src/task/task.c: the page that copy_string_from_task maps for its copy, and its end.
use maer_os.Common.{
  ℕ, ◌+◌, ◌-◌, ◌*◌, ◌/◌, ◌%◌, ◌^◌, ◌≤◌, ◌<◌, ◌≡◌, ◌≢◌, refl, sym, ap, ◌∙◌, some, none, ◌==◌,
  if◌then◌else◌, if_eq, if_ne, u32, sub32, bit_or, bit_or_fields, arith, all_ok, Status, ℕ_discrete,
}
use maer_os.Paging.{
  Words, store_word, paging_align_to_lower_page, paging_get, paging_set, paging_map,
  paging_get_physical_address, entry_address,
}
use maer_os.Paging.Slots.{IsDirectory, slot}
use maer_os.Paging.Laws.{
  paging_set_lem, paging_get_lem, paging_get-paging_set, store-IsDirectory, slot-store,
  store_word_self, store_word_ne,
}
use maer_os.Paging.Ranges.{entry_address-bit_or}
use maer_os.Process.{user_page}
use maer_os.UserMemory.{translate}

module _ (w : Words) (d tmp : ℕ) (v : IsDirectory w d) (aligned : tmp % 4096 ≡ 0)
    (below : tmp + 4096 ≤ 2 ^ 32) where
  -- The directory with the page mapped to itself.
  abbrev pub mapped : Words
  mapped = store_word w (slot w d tmp) (bit_or tmp user_page)

  set_run : (val : ℕ) → paging_set d tmp val w ≡ (all_ok, store_word w (slot w d tmp) val)
  set_run val = paging_set_lem tmp val v (omega arith) ∙ if_eq (tmp % 4096) 0 _ _ aligned

  pub paging_map_run : paging_map d tmp tmp user_page w ≡ (all_ok, mapped)
  unfolding paging_map
  paging_map_run =
      if_eq (tmp % 4096) 0 _ _ aligned
      ∙ if_eq (tmp % 4096) 0 _ _ aligned
      ∙ set_run (bit_or tmp user_page)

  mapped-IsDirectory : IsDirectory mapped d
  mapped-IsDirectory = store-IsDirectory tmp (bit_or tmp user_page) v (omega arith)

  entry :
      (q : ℕ)
      → q < 2 ^ 32
      → q % 4096 ≡ 0
      → paging_get d q mapped ≡ (if tmp == q then bit_or tmp user_page else paging_get d q w)
  entry q h p =
      let r = paging_get-paging_set tmp (bit_or tmp user_page) q v (omega arith) aligned h p in
      ap (λ (x : Status × Words). paging_get d q x.1) (sym (set_run (bit_or tmp user_page))) ∙ r.2

  user_entry : bit_or tmp user_page ≡ tmp + 7
  user_entry =
      let whole : tmp ≡ tmp / 4096 * 2 ^ 12 = omega arith in
      let e =
        ap (λ t. bit_or t user_page) whole
        ∙ bit_or_fields 12 (tmp / 4096) user_page (omega arith) in
      omega (arith, e)

  -- An address on another page is seen as before.
  pub translate_other :
      (q : ℕ) → q < 2 ^ 32 → tmp ≢ q - q % 4096 → translate d mapped q ≡ translate d w q
  unfolding translate paging_get_physical_address paging_align_to_lower_page
  translate_other q h n =
      ap (λ e. if e % 2 == 1 then some (u32 (entry_address e + sub32 q (q - q % 4096))) else none)
        (entry (q - q % 4096) (omega arith) (omega arith) ∙ if_ne tmp (q - q % 4096) _ _ n)

  -- An address on the page is seen as itself.
  pub translate_tmp : (i : ℕ) → i < 4096 → translate d mapped (tmp + i) ≡ some (tmp + i)
  unfolding translate paging_get_physical_address paging_align_to_lower_page
  translate_tmp i h =
      let p : tmp + i - (tmp + i) % 4096 ≡ tmp = omega arith in
      let e : paging_get d tmp mapped ≡ tmp + 7 =
        entry tmp (omega arith) aligned ∙ if_eq tmp tmp _ _ refl ∙ user_entry in
      let a : entry_address (tmp + 7) ≡ tmp =
        ap entry_address (sym user_entry)
        ∙ entry_address-bit_or tmp user_page aligned (omega arith) (omega arith) in
      rw (p, e, a) (if_eq ((tmp + 7) % 2) 1 _ _ (omega arith) ∙ ap some (omega arith))

  -- Setting the entry that was read before gives every word back.
  pub restored :
      (w' : Words) × (paging_set d tmp (paging_get d tmp w) mapped ≡ (all_ok, w'))
      × ((q : ℕ) → w' q ≡ w q)
  restored = (
    store_word mapped (slot w d tmp) (w (slot w d tmp)),
    ap (λ x. paging_set d tmp x mapped) (paging_get_lem tmp v (omega arith) aligned)
        ∙ paging_set_lem tmp (w (slot w d tmp)) mapped-IsDirectory (omega arith)
        ∙ if_eq (tmp % 4096) 0 _ _ aligned
        ∙ ap (λ p. (all_ok, store_word mapped p (w (slot w d tmp))))
            (slot-store tmp (bit_or tmp user_page) tmp v (omega arith) (omega arith)),
    λ q. elim (ℕ_discrete q (slot w d tmp)) [
      | yes e ↦ store_word_self mapped (slot w d tmp) q _ e ∙ ap w (sym e)
      | no n ↦ store_word_ne mapped (slot w d tmp) q _ n ∙ store_word_ne w (slot w d tmp) q _ n
    ],
  )
