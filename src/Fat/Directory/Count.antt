-- ===== src/Fat/Directory/Count.antt =====
-- The number of items that the driver counts in a directory.
use maer_os.Common.{
  ℕ, zero, suc, ◌+◌, ◌*◌, ◌^◌, ◌≤◌, ◌<◌, ◌≡◌, ◌≢◌, refl, sym, ap, subst, ◌∙◌, true, false, some,
  ◌==◌, ==_false, if◌then◌else◌, u32, arith, Bool-cases, all_ok, inl, inr,
}
use maer_os.Disk.{Device, bytes_from}
use maer_os.Disk.Read.{Holds}
use maer_os.Fat.Clusters.{stream_read}
use maer_os.Fat.Clusters.Reads.{stream_read_lem}
use maer_os.Fat.Directory.{count_loop, fat16_get_total_items_for_directory}

-- How many of `n` items from `at` on are not marked as unused.
unfoldable pub used : (ℕ → ℕ) → ℕ → ℕ → ℕ
used image at zero = 0
used image at (suc n) = (if image at == 0xE5 then 0 else 1) + used image (at + 32) n

pub used-le : (image : ℕ → ℕ) (at n : ℕ) → used image at n ≤ n
unfolding used
used-le image at zero = omega arith
used-le image at (suc n) =
    let ih = used-le image (at + 32) n in
    elim (Bool-cases (image at == 0xE5)) [ inl e ↦ rw e (omega arith) | inr e ↦ rw e (omega arith) ]

-- An unused item is not counted.
pub used-lt :
    (image : ℕ → ℕ) (at n k : ℕ) → k < n → image (at + 32 * k) ≡ 0xE5 → used image at n < n
unfolding used
used-lt image at zero k h e = absurd (omega arith)
used-lt image at (suc n) zero h e =
    let z : at + 32 * 0 ≡ at = omega arith in
    let u : (image at == 0xE5) ≡ true = rw (sym (ap image z) ∙ e) refl in
    rw u (omega (arith, used-le image (at + 32) n))
used-lt image at (suc n) (suc k) h e =
    let z : at + 32 + 32 * k ≡ at + 32 * suc k = omega arith in
    let ih = used-lt image (at + 32) n k (omega arith) (ap image z ∙ e) in
    elim (Bool-cases (image at == 0xE5)) [
      | inl u ↦ rw u (omega (arith, ih))
      | inr u ↦ rw u (omega (arith, ih))
    ]

module _ (device : Device) (image : ℕ → ℕ) (limit : ℕ) (h : Holds device image limit)
    (l : limit ≤ 2 ^ 22) where
  item_read :
      (at : ℕ)
      → at + 32 < limit * 512
      → stream_read device at 32 ≡ some (all_ok, bytes_from image at 32, record { pos = at + 32 })
  item_read at b = stream_read_lem device image limit at 32 h b l

  count_end :
      (fuel at i : ℕ)
      → at + 32 < limit * 512
      → image at ≡ 0
      → count_loop device (suc fuel) at i ≡ some i
  unfolding count_loop
  count_end fuel at i b e =
      let z : (image at == 0x00) ≡ true = rw e refl in rw (item_read at b, count_loop) (rw z refl)

  count_step :
      (fuel at i : ℕ)
      → at + 32 < limit * 512
      → image at ≢ 0
      → count_loop device (suc fuel) at i
        ≡ count_loop device fuel (at + 32) (i + (if image at == 0xE5 then 0 else 1))
  unfolding count_loop
  count_step fuel at i b e =
      let z : (image at == 0x00) ≡ false = ==_false _ _ e in
      rw (item_read at b, count_loop)
        (rw z (elim (Bool-cases (image at == 0xE5)) [
          | inl u ↦ let k : i + 0 ≡ i = omega arith in rw (u, k) refl
          | inr u ↦ rw u refl
        ]))

  count_loop_lem :
      (n fuel at i : ℕ)
      → n < fuel
      → ((k : ℕ) → k < n → image (at + 32 * k) ≢ 0)
      → image (at + 32 * n) ≡ 0
      → at + 32 * n + 32 < limit * 512
      → count_loop device fuel at i ≡ some (i + used image at n)
  unfolding used
  count_loop_lem n zero at i f p e b = absurd (omega arith)
  count_loop_lem zero (suc fuel) at i f p e b =
      let k : at + 32 * 0 ≡ at = omega arith in
      let z : i + 0 ≡ i = omega arith in
      count_end fuel at i (omega arith) (subst (λ (j : ℕ). image j ≡ 0) k e) ∙ rw z refl
  count_loop_lem (suc n) (suc fuel) at i f p e b =
      let k : at + 32 * 0 ≡ at = omega arith in
      let next : at + 32 * suc n ≡ at + 32 + 32 * n = omega arith in
      let p' : (j : ℕ) → j < n → image (at + 32 + 32 * j) ≢ 0 =
        λ j q. subst (λ (t : ℕ). image t ≢ 0) (omega arith) (p (suc j) (omega arith)) in
      count_step fuel at i (omega arith) (subst (λ (j : ℕ). image j ≢ 0) k (p 0 (omega arith)))
      ∙ count_loop_lem n fuel (at + 32) _ (omega arith) p' (subst (λ (t : ℕ). image t ≡ 0) next e)
          (omega arith)
      ∙ ap some (omega arith)

  -- Of a directory whose first item with a null name is at index `n`, the driver counts the items
  -- before it that are not marked as unused, and so at most `n`.
  pub fat16_get_total_items_for_directory_lem :
      (fuel sector n : ℕ)
      → n < fuel
      → ((k : ℕ) → k < n → image (sector * 512 + 32 * k) ≢ 0)
      → image (sector * 512 + 32 * n) ≡ 0
      → sector * 512 + 32 * n + 32 < limit * 512
      → (fat16_get_total_items_for_directory device fuel sector
          ≡ some (used image (sector * 512) n))
        × (used image (sector * 512) n ≤ n)
  unfolding fat16_get_total_items_for_directory
  fat16_get_total_items_for_directory_lem fuel sector n f p e b =
      let at : u32 (sector * 512) ≡ sector * 512 = omega arith in
      (
        rw at (count_loop_lem n fuel (sector * 512) 0 f p e b ∙ ap some (omega arith)),
        used-le image (sector * 512) n,
      )
