-- ===== src/Paging/Tests.antt =====
-- Paging at a concrete directory.
use maer_os.Common.{
  ℕ, zero, suc, List, [], ◌∷◌, length, get_or, ◌∙◌, bit_or, ◌+◌, ◌-◌, ◌*◌, ◌/◌, ◌<◌, ◌≤◌, ◌≡◌, refl,
  arith, all_ok,
}
use maer_os.Paging.{
  Words, paging_map_to, paging_get, paging_get_physical_address, paging_align_to_lower_page,
  paging_new_4gb,
}
use maer_os.Paging.Slots.{IsDirectory, table_at, entry_address_lem}
use maer_os.Paging.Ranges.{Mapped, paging_map_to-Mapped, paging_get_physical_address-Mapped}
use maer_os.Paging.Identity.{IsTables, paging_new_4gb-IsIdentity}

-- The directory at 0x1000 points to the 1024 pages behind its own.
abbrev pages_behind : Words
pages_behind a = (a / 4 - 1024 + 2) * 4096

table-pages_behind : (i : ℕ) → i < 1024 → table_at pages_behind 0x1000 i ≡ (i + 2) * 4096
unfolding table_at
table-pages_behind i h = omega (arith, entry_address_lem (pages_behind (0x1000 + 4 * i)))

pages_behind-IsDirectory : IsDirectory pages_behind 0x1000
pages_behind-IsDirectory = record {
  aligned = refl;
  below = omega arith;
  apart = λ i j p q e. omega (arith, table-pages_behind i p, table-pages_behind j q);
  outside = λ i p e. omega (arith, table-pages_behind i p);
}

paging_map_to-Mapped_example :
    (m' : Words) × (paging_map_to 0x1000 0x40_0000 0x70_0000 0x70_2000 7 pages_behind
      ≡ (all_ok, m'))
    × Mapped pages_behind m' 0x1000 0x40_0000 0x70_0000 (0x70_2000 - 0x70_0000) 7
paging_map_to-Mapped_example =
    paging_map_to-Mapped 0x1000 7 0x40_0000 0x70_0000 0x70_2000 pages_behind-IsDirectory
      (omega arith) (omega arith) (omega arith) (omega arith) (omega arith) (omega arith)

program_mapped :
    (m' : Words) × (paging_map_to 0x1000 0x40_0000 0x70_0000 0x70_2000 7 pages_behind
      ≡ (all_ok, m'))
    × Mapped pages_behind m' 0x1000 0x40_0000 0x70_0000 (0x70_2000 - 0x70_0000) 7
program_mapped =
    paging_map_to-Mapped 0x1000 7 0x40_0000 0x70_0000 0x70_2000 pages_behind-IsDirectory
      (omega arith) (omega arith) (omega arith) (omega arith) (omega arith) (omega arith)

paging_get_physical_address-Mapped_example :
    paging_get_physical_address 0x1000 0x40_1234 program_mapped.0
    ≡ 0x70_0000 + (0x40_1234 - 0x40_0000)
paging_get_physical_address-Mapped_example =
    paging_get_physical_address-Mapped 0x40_1234 program_mapped.2 (omega arith) (omega arith)
      (omega arith) (omega arith) (omega arith) (omega arith) (omega arith) (omega arith)

-- Pages in a row.
abbrev pages_from : ℕ → ℕ → List ℕ
pages_from zero a = []
pages_from (suc n) a = a ∷ pages_from n (a + 4096)

length-pages_from : (n a : ℕ) → length (pages_from n a) ≡ n
length-pages_from zero a = refl
length-pages_from (suc n) a = omega (arith, length-pages_from n (a + 4096))

get_or-pages_from : (n a k : ℕ) → k < n → get_or (pages_from n a) k 0 ≡ a + 4096 * k
get_or-pages_from zero a k h = absurd (omega arith)
get_or-pages_from (suc n) a zero h = omega arith
get_or-pages_from (suc n) a (suc k) h = get_or-pages_from n (a + 4096) k (omega arith) ∙ omega arith

pages_from-IsTables : (n : ℕ) → n ≤ 1024 → IsTables (pages_from n 0x2000) 0x1000
pages_from-IsTables n s =
    let l = length-pages_from n 0x2000 in
    record {
      aligned = λ k h. omega (arith, get_or-pages_from n 0x2000 k (omega arith));
      below = λ k h. omega (arith, get_or-pages_from n 0x2000 k (omega arith));
      apart = λ j k h i e. omega (
        arith,
        get_or-pages_from n 0x2000 j (omega arith),
        get_or-pages_from n 0x2000 k (omega arith),
      );
      outside = λ k h e. omega (arith, get_or-pages_from n 0x2000 k (omega arith));
    }

paging_new_4gb-IsIdentity_example :
    IsDirectory (paging_new_4gb 0x1000 (pages_from 1024 0x2000) 5 (λ a. 0)) 0x1000
    × (table_at (paging_new_4gb 0x1000 (pages_from 1024 0x2000) 5 (λ a. 0)) 0x1000 3
        ≡ get_or (pages_from 1024 0x2000) 3 0)
    × (paging_get 0x1000
          (paging_align_to_lower_page 0x40_1234)
          (paging_new_4gb 0x1000 (pages_from 1024 0x2000) 5 (λ a. 0))
        ≡ bit_or (paging_align_to_lower_page 0x40_1234) 5)
    × (paging_get_physical_address 0x1000 0x40_1234
          (paging_new_4gb 0x1000 (pages_from 1024 0x2000) 5 (λ a. 0))
        ≡ 0x40_1234)
paging_new_4gb-IsIdentity_example =
    paging_new_4gb-IsIdentity 0x1000 5 (omega arith) (omega arith) (pages_from 1024 0x2000) (λ a. 0)
      (pages_from-IsTables 1024 (omega arith)) (length-pages_from 1024 0x2000) (omega arith) 3
      0x40_1234 (omega arith) (omega arith)
