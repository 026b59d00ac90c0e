-- ===== src/Paging/Ranges.antt =====
-- `paging_map`, `paging_map_range`, `paging_map_to` and the translation of addresses.
use maer_os.Common.{
  ℕ, zero, suc, ◌+◌, ◌-◌, ◌*◌, ◌/◌, ◌%◌, ◌^◌, ◌≤◌, ◌<◌, ◌≡◌, ◌≢◌, refl, ◌∙◌, ap, arith, ◌==◌,
  if◌then◌else◌, all_ok, einvarg, ℕ_discrete, ==_false, ==_iff, ◌⊎◌, inl, bit_or, bit_or_fields,
  subst, u32, sub32, le→ltb, Status,
}
use maer_os.Paging.{
  Words, page_size, entry_address, paging_set, paging_get, paging_map, paging_map_range,
  paging_map_to, paging_get_physical_address, paging_align_to_lower_page, paging_align_address,
}
use maer_os.Paging.Slots.{IsDirectory, entry_address_lem}
use maer_os.Paging.Laws.{paging_get-paging_set}

-- From `m` to `m'` the pages of `bytes` bytes at `virt` are mapped to those at `phys`, and no other
-- entry changes.
pub record Mapped (m m' : Words) (d virt phys bytes flags : ℕ) : Type 0 where
  pub directory : IsDirectory m' d
  pub inside :
      (q : ℕ)
      → q % 4096 ≡ 0
      → virt ≤ q
      → q < virt + bytes
      → paging_get d q m' ≡ bit_or (phys + (q - virt)) flags
  pub outside :
      (q : ℕ)
      → q < 2 ^ 32
      → q % 4096 ≡ 0
      → (q < virt) ⊎ (virt + bytes ≤ q)
      → paging_get d q m' ≡ paging_get d q m

module _ (d flags : ℕ) where
  -- The memory after one page is mapped.
  abbrev mapped_page : ℕ → ℕ → Words → Words
  mapped_page virt phys m = (paging_set d virt (bit_or phys flags) m).1

  map_page :
      {m : Words} (virt phys : ℕ)
      → IsDirectory m d
      → virt < 2 ^ 32
      → virt % 4096 ≡ 0
      → phys % 4096 ≡ 0
      → paging_map d virt phys flags m ≡ (all_ok, mapped_page virt phys m)
  unfolding paging_map
  map_page {m} virt phys v h e f =
      rw (e, f)
        (ap (λ r. (r, mapped_page virt phys m))
          (paging_get-paging_set virt (bit_or phys flags) virt v h e h e).0)

  range_step :
      {m : Words} (virt phys count : ℕ)
      → IsDirectory m d
      → virt + suc count * 4096 < 2 ^ 32
      → phys + suc count * 4096 < 2 ^ 32
      → virt % 4096 ≡ 0
      → phys % 4096 ≡ 0
      → paging_map_range d virt phys (suc count) flags m
        ≡ paging_map_range d (virt + 4096) (phys + 4096) count flags (mapped_page virt phys m)
  unfolding paging_map_range
  range_step {m} virt phys count v a b e f =
      let x : u32 (virt + page_size) ≡ virt + 4096 = omega arith in
      let y : u32 (phys + page_size) ≡ phys + 4096 = omega arith in
      let next : Status × Words → Status × Words = λ r. elim r.0 [
        | all_ok ↦
            paging_map_range d (u32 (virt + page_size)) (u32 (phys + page_size)) count flags r.1
        | err ↦ (err, r.1)
      ] in
      ap next (map_page virt phys v (omega arith) e f) ∙ rw (x, y)

  cons_page :
      {m m' : Words} (virt phys bytes : ℕ)
      → IsDirectory m d
      → virt + 4096 + bytes < 2 ^ 32
      → virt % 4096 ≡ 0
      → Mapped (mapped_page virt phys m) m' d (virt + 4096) (phys + 4096) bytes flags
      → Mapped m m' d virt phys (4096 + bytes) flags
  cons_page {m} virt phys bytes v a e r = record {
    directory = r.directory;
    inside = λ q f p x. elim (ℕ_discrete virt q) [
      | yes s ↦
          r.outside q (omega arith) f (inl (omega arith))
          ∙ (page q (omega arith) f).2
          ∙ rw ((==_iff virt q).1 s) (ap (λ t. bit_or t flags) (omega arith))
      | no s ↦ r.inside q f (omega arith) (omega arith) ∙ ap (λ t. bit_or t flags) (omega arith)
    ];
    outside = λ q b f o.
        r.outside q b f (omega (arith, o))
        ∙ (page q b f).2
        ∙ rw (==_false virt q (omega (arith, o)));
  }
    where
      page :
          (q : ℕ)
          → q < 2 ^ 32
          → q % 4096 ≡ 0
          → let (res, m1) = paging_set d virt (bit_or phys flags) m in
            (res ≡ all_ok)
            × IsDirectory m1 d
            × (paging_get d q m1 ≡ (if virt == q then bit_or phys flags else paging_get d q m))
      page q b f = paging_get-paging_set virt (bit_or phys flags) q v (omega arith) e b f

  -- `paging_map_range` on aligned addresses maps every page of the range and no other.
  pub paging_map_range-Mapped :
      (count virt phys : ℕ) {m : Words}
      → IsDirectory m d
      → virt + count * 4096 < 2 ^ 32
      → phys + count * 4096 < 2 ^ 32
      → virt % 4096 ≡ 0
      → phys % 4096 ≡ 0
      → (m' : Words) × (paging_map_range d virt phys count flags m ≡ (all_ok, m'))
        × Mapped m m' d virt phys (count * 4096) flags
  paging_map_range-Mapped zero virt phys {m} v a b e f = (
    m,
    unfold paging_map_range in refl,
    record { directory = v; inside = λ q p x y. absurd (omega arith); outside = λ q p x o. refl },
  )
  paging_map_range-Mapped (suc count) virt phys {m} v a b e f =
      let page =
        paging_get-paging_set virt (bit_or phys flags) virt v (omega arith) e (omega arith) e in
      let (m', runs, r) =
        paging_map_range-Mapped count (virt + 4096) (phys + 4096) page.1 (omega arith) (omega arith)
          (omega arith) (omega arith) in
      let bytes : 4096 + count * 4096 ≡ suc count * 4096 = omega arith in
      (
        m',
        range_step virt phys count v a b e f ∙ runs,
        subst (λ n. Mapped m m' d virt phys n flags) bytes
            (cons_page virt phys (count * 4096) v (omega arith) e r),
      )

  -- `paging_map_to` refuses an address that is not page-aligned and an end below the start, and
  -- changes nothing then.
  pub paging_map_to_refused :
      (virt phys phys_end : ℕ) (m : Words)
      → (virt % 4096 ≢ 0) ⊎ (phys % 4096 ≢ 0) ⊎ (phys_end % 4096 ≢ 0) ⊎ (phys_end < phys)
      → paging_map_to d virt phys phys_end flags m ≡ (einvarg, m)
  unfolding paging_map_to
  paging_map_to_refused virt phys phys_end m h = ground arith

  map_to_range :
      (virt phys phys_end : ℕ) (m : Words)
      → virt % 4096 ≡ 0
      → phys % 4096 ≡ 0
      → phys_end % 4096 ≡ 0
      → phys ≤ phys_end
      → paging_map_to d virt phys phys_end flags m
        ≡ paging_map_range d virt phys ((phys_end - phys) / 4096) flags m
  unfolding paging_map_to
  map_to_range virt phys phys_end m a b c le = rw (a, b, c, le→ltb phys_end phys le)

  -- On aligned addresses in order, `paging_map_to` maps the pages from `virt` on to those from
  -- `phys` up to `phys_end`, and changes no other entry.
  pub paging_map_to-Mapped :
      (virt phys phys_end : ℕ) {m : Words}
      → IsDirectory m d
      → virt % 4096 ≡ 0
      → phys % 4096 ≡ 0
      → phys_end % 4096 ≡ 0
      → phys ≤ phys_end
      → phys_end < 2 ^ 32
      → virt + (phys_end - phys) < 2 ^ 32
      → (m' : Words) × (paging_map_to d virt phys phys_end flags m ≡ (all_ok, m'))
        × Mapped m m' d virt phys (phys_end - phys) flags
  paging_map_to-Mapped virt phys phys_end {m} v a b c le x y =
      let bytes : (phys_end - phys) / 4096 * 4096 ≡ phys_end - phys = omega arith in
      let (m', runs, r) =
        paging_map_range-Mapped ((phys_end - phys) / 4096) virt phys v (omega arith) (omega arith) a
          b in
      (
        m',
        map_to_range virt phys phys_end m a b c le ∙ runs,
        subst (λ n. Mapped m m' d virt phys n flags) bytes r,
      )

-- An entry with 12 bits of flags holds the address of its page.
pub entry_address-bit_or :
    (frame flags : ℕ)
    → frame % 4096 ≡ 0
    → frame < 2 ^ 32
    → flags < 4096
    → entry_address (bit_or frame flags) ≡ frame
entry_address-bit_or frame flags p b h =
    let whole : frame ≡ frame / 4096 * 2 ^ 12 = omega arith in
    let e = ap (λ t. bit_or t flags) whole ∙ bit_or_fields 12 (frame / 4096) flags h in
    omega (arith, e, entry_address_lem (bit_or frame flags))

-- A mapped address translates to the same offset from the physical start, if the flags are 12 bits
-- wide: whatever the byte within the range.
pub paging_get_physical_address-Mapped :
    {m m' : Words} {d virt phys bytes flags : ℕ} (q : ℕ)
    → Mapped m m' d virt phys bytes flags
    → flags < 4096
    → virt % 4096 ≡ 0
    → phys % 4096 ≡ 0
    → bytes % 4096 ≡ 0
    → virt + bytes < 2 ^ 32
    → phys + bytes < 2 ^ 32
    → virt ≤ q
    → q < virt + bytes
    → paging_get_physical_address d q m' ≡ phys + (q - virt)
unfolding paging_get_physical_address paging_align_to_lower_page
paging_get_physical_address-Mapped {m} {m'} {d} {virt} {phys} {bytes} {flags} q r h a b c x y p z =
    rw (r.inside page (omega arith) (omega arith) (omega arith), entry, back) (omega arith)
  where
    page : ℕ
    page = q - q % 4096

    frame : ℕ
    frame = phys + (page - virt)

    entry : entry_address (bit_or frame flags) ≡ frame
    entry = entry_address-bit_or frame flags (omega arith) (omega arith) h

    back : sub32 q page ≡ q % 4096
    back = omega arith

-- An address that leaves a page to the end of the memory is rounded up to the next page.
pub paging_align_address_lem :
    (ptr : ℕ)
    → ptr + 4096 ≤ 2 ^ 32
    → (paging_align_address ptr % 4096 ≡ 0)
      × (ptr ≤ paging_align_address ptr)
      × (paging_align_address ptr < ptr + 4096)
unfolding paging_align_address
paging_align_address_lem ptr b = ground arith
