-- ===== src/UserMemory/Strings.antt =====
-- src/task/task.c: copy_string_from_task gives the kernel the task's string and restores the rest.
use maer_os.Common.{
  ℕ, zero, suc, ◌+◌, ◌-◌, ◌*◌, ◌%◌, ◌^◌, ◌≤◌, ◌<◌, ◌≡◌, refl, ap, subst, ◌∙◌, ◌⊎◌, inl, inr, some,
  List, [], ◌∷◌, ◌++◌, take, length, length-append, take-take, get_or, arith, Status, all_ok, leb,
  false,
}
use maer_os.Heap.{Heap, block_size}
use maer_os.Heap.Search.{Fits, IsFree}
use maer_os.Heap.Alloc.{IsHeap}
use maer_os.Memory.{Memory}
use maer_os.Kheap.{kzalloc, kfree}
use maer_os.Kheap.Laws.{blocks_of, Allocates, kzalloc-Allocates}
use maer_os.Paging.{Words, paging_get, paging_set, paging_map}
use maer_os.Paging.Slots.{IsDirectory}
use maer_os.Process.{Store, user_page}
use maer_os.Strings.Laws.{IsText}
use maer_os.UserMemory.{
  translate, strncpy_at, free_tmp, copy_out, copy_in, copy_through, copy_string_from_task,
}
use maer_os.UserMemory.Copy.{IsSource, copied, IsCopied, strncpy_at-IsCopied}
use maer_os.UserMemory.Translation.{
  mapped, paging_map_run, translate_other, translate_tmp, restored,
}

-- An address that is in no free block of the heap.
abbrev pub OutsideFree : Heap → ℕ → Type 0
OutsideFree h p =
    (b : ℕ)
    → b < h.table.total
    → IsFree h.table.entries b
    → (p < h.saddr + b * block_size) ⊎ (h.saddr + b * block_size + block_size ≤ p)

-- A string of the task at a virtual address, of which `left` bytes at most are read: they are present,
-- and neither they nor their virtual pages are in free blocks of the heap.
pub record IsUserString (directory virtual left : ℕ) (cs : List ℕ) (place : ℕ → ℕ) (s : Store)
    : Type 0 where
  pub text : IsText cs
  pub whole : virtual + left < 2 ^ 32
  pub seen :
      (i : ℕ)
      → i < left
      → i ≤ length cs
      → translate directory s.words (virtual + i) ≡ some (place i)
  pub byte : (i : ℕ) → i < left → i ≤ length cs → s.memory (place i) ≡ get_or cs i 0
  pub taken : (i : ℕ) → i < left → i ≤ length cs → OutsideFree s.heap (place i)
  pub page : (i : ℕ) → i < left → i ≤ length cs → OutsideFree s.heap (virtual + i)

-- The kernel's buffer holds the string, cut to the buffer's size; the heap and every entry of the
-- page directories are what they were, and so is every byte outside the buffer and the free blocks.
pub record IsCopiedOut (phys max : ℕ) (cs : List ℕ) (s s' : Store) : Type 0 where
  pub written :
      (i : ℕ)
      → i < length (copied (max - 1) cs)
      → s'.memory (phys + i) ≡ get_or (copied (max - 1) cs) i 0
  pub heap : s'.heap ≡ s.heap
  pub words : (q : ℕ) → s'.words q ≡ s.words q
  pub kept :
      (q : ℕ) → (q < phys) ⊎ (phys + max ≤ q) → OutsideFree s.heap q → s'.memory q ≡ s.memory q

out_run :
    (tmp phys max : ℕ) (s : Store) (m : Memory) (h : Heap)
    → strncpy_at some (max - 1) phys tmp s.memory ≡ some m
    → kfree tmp s.heap ≡ some h
    → copy_out tmp phys max all_ok s ≡ some (all_ok, record s { heap = h; memory = m })
unfolding copy_out
out_run tmp phys max s m h c f = rw (c, copy_out) (rw (f, free_tmp) refl)

in_run :
    (d tmp virtual phys max old : ℕ) (w w' : Words) (s : Store) (m : Memory)
    → strncpy_at (translate d w) (max - 1) tmp virtual s.memory ≡ some m
    → paging_set d tmp old w ≡ (all_ok, w')
    → copy_in d tmp virtual phys max old w s
      ≡ copy_out tmp phys max all_ok (record s { words = w'; memory = m })
unfolding copy_in
in_run d tmp virtual phys max old w w' s m c e =
    rw (c, copy_in)
      (ap (λ (r : Status × Words). copy_out tmp phys max r.0 (record s { words = r.1; memory = m }))
        e)

through_run :
    (d tmp virtual phys max : ℕ) (s : Store) (w : Words)
    → paging_map d tmp tmp user_page s.words ≡ (all_ok, w)
    → copy_through d tmp virtual phys max s
      ≡ copy_in d tmp virtual phys max (paging_get d tmp s.words) w s
unfolding copy_through
through_run d tmp virtual phys max s w p =
    ap (λ (r : Status × Words). copy_in d tmp virtual phys max (paging_get d tmp s.words) r.1 s) p

task_run :
    (d virtual phys max n : ℕ) (s : Store) (h : Heap) (m : Memory)
    → max < 4096
    → kzalloc max s.heap s.memory ≡ some (suc n, h, m)
    → copy_string_from_task d virtual phys max s
      ≡ copy_through d (suc n) virtual phys max (record s { heap = h; memory = m })
unfolding copy_string_from_task
task_run d virtual phys max n s h m l z =
    let b : leb 4096 max ≡ false = ground arith in rw b (rw z refl)

take-IsText : (n : ℕ) (cs : List ℕ) → IsText cs → IsText (take n cs)
unfolding IsText
take-IsText zero cs t = tt
take-IsText (suc n) [] t = tt
take-IsText (suc n) (c ∷ cs) t = (t.0, take-IsText n cs t.1)

pub get_or-ended : (xs : List ℕ) (i : ℕ) → get_or (xs ++ (0 ∷ [])) i 0 ≡ get_or xs i 0
get_or-ended [] zero = refl
get_or-ended [] (suc i) = refl
get_or-ended (x ∷ xs) zero = refl
get_or-ended (x ∷ xs) (suc i) = get_or-ended xs i

module _ (d virtual phys max t : ℕ) (s : Store) (cs : List ℕ) (place : ℕ → ℕ) (v : IsHeap s.heap)
    (aligned : s.heap.saddr % 4096 ≡ 0)
    (below : s.heap.saddr + s.heap.table.total * block_size < 2 ^ 32) (positive : 0 < max)
    (small : max < 4096) (run : Fits s.heap.table.entries s.heap.table.total (blocks_of max) t)
    (dir : IsDirectory s.words d) (str : IsUserString d virtual (max - 1) cs place s)
    (buffer : phys + max ≤ 2 ^ 32)
    (apart : (b : ℕ)
      → b < s.heap.table.total
      → IsFree s.heap.table.entries b
      → (phys + max ≤ s.heap.saddr + b * block_size)
        ⊎ (s.heap.saddr + b * block_size + block_size ≤ phys)) where
  module _ (start n : ℕ) (h' : Heap) (m1 : Memory) (al : Allocates max start s.heap s.memory h' m1)
      (a : s.heap.saddr + start * block_size ≡ suc n) where
    tmp_aligned : suc n % 4096 ≡ 0
    tmp_aligned = omega arith

    tmp_below : suc n + 4096 ≤ 2 ^ 32
    tmp_below = let w = al.whole in omega arith

    -- An address outside the free blocks is outside the block of the copy.
    outside : (q : ℕ) → OutsideFree s.heap q → (q < suc n) ⊎ (suc n + 4096 ≤ q)
    outside q o = elim (o start al.whole al.was_free) [
      | inl x ↦ inl (omega arith)
      | inr x ↦ inr (omega arith)
    ]

    abbrev seen_words : Words
    seen_words = mapped s.words d (suc n) dir tmp_aligned tmp_below

    source :
        IsSource (translate d seen_words) virtual (max - 1) cs place (suc n) (suc n + (max - 1)) m1
    source = record {
      at = λ i h k.
          translate_other s.words d (suc n) dir tmp_aligned tmp_below (virtual + i)
            (let w = str.whole in omega arith)
            (elim (outside (virtual + i) (str.page i h k)) [
              | inl x ↦ λ e. omega (arith, x, e)
              | inr x ↦ λ e. omega (arith, x, e)
            ])
          ∙ str.seen i h k;
      byte = λ i h k.
          al.unchanged (place i) (elim (outside (place i) (str.taken i h k)) [
            | inl x ↦ inl (omega arith)
            | inr x ↦ inr (omega arith)
          ])
          ∙ str.byte i h k;
      apart = λ i h k. elim (outside (place i) (str.taken i h k)) [
        | inl x ↦ inl (omega arith)
        | inr x ↦ inr (omega arith)
      ];
    }

    first_copy :
        (m2 : Memory) × (strncpy_at (translate d seen_words) (max - 1) (suc n) virtual m1 ≡ some m2)
        × IsCopied (suc n) (copied (max - 1) cs) (suc n + (max - 1)) m1 m2
    first_copy =
        strncpy_at-IsCopied (max - 1) cs (translate d seen_words) (suc n) virtual (suc n) place m1
          str.text (let b = tmp_below in omega arith) str.whole
          (λ i h. translate_tmp s.words d (suc n) dir tmp_aligned tmp_below i (omega arith)) source

    -- The text as the kernel reads it from the block of the copy.
    kernel-IsSource :
        (m2 : Memory)
        → IsCopied (suc n) (copied (max - 1) cs) (suc n + (max - 1)) m1 m2
        → IsSource some
            (suc n)
            (max - 1)
            (take (max - 1) cs)
            (λ i. suc n + i)
            phys
            (phys + (max - 1))
            m2
    kernel-IsSource m2 c = record {
      at = λ i h k. refl;
      byte = λ i h k.
          c.written i (omega (arith, length-append (take (max - 1) cs) (0 ∷ [])))
          ∙ get_or-ended (take (max - 1) cs) i;
      apart = λ i h k. elim (apart start al.whole al.was_free) [
        | inl x ↦ inr (omega arith)
        | inr x ↦ inl (omega arith)
      ];
    }

    whole_run :
        (m2 m3 : Memory) (w : Words)
        → strncpy_at (translate d seen_words) (max - 1) (suc n) virtual m1 ≡ some m2
        → strncpy_at some (max - 1) phys (suc n) m2 ≡ some m3
        → paging_set d (suc n) (paging_get d (suc n) s.words) seen_words ≡ (all_ok, w)
        → copy_string_from_task d virtual phys max s
          ≡ some (all_ok, record { heap = s.heap; memory = m3; words = w })
    whole_run m2 m3 w c2 c3 e =
        let returns =
          subst (λ (k : ℕ). kzalloc max s.heap s.memory ≡ some (k, h', m1)) a al.returns in
        let back = subst (λ (k : ℕ). kfree k h' ≡ some s.heap) a al.gives_back in
        task_run d virtual phys max n s h' m1 small returns
        ∙ through_run d (suc n) virtual phys max (record s { heap = h'; memory = m1 }) seen_words
            (paging_map_run s.words d (suc n) dir tmp_aligned tmp_below)
        ∙ in_run d (suc n) virtual phys max (paging_get d (suc n) s.words) seen_words w
            (record s { heap = h'; memory = m1 }) m2 c2 e
        ∙ out_run (suc n) phys max (record { heap = h'; words = w; memory = m2 }) m3 s.heap c3 back

    copied_out :
        (s' : Store) × (copy_string_from_task d virtual phys max s ≡ some (all_ok, s'))
        × IsCopiedOut phys max cs s s'
    copied_out =
        let (m2, c2, r2) = first_copy in
        let (m3, c3, r3) =
          strncpy_at-IsCopied (max - 1) (take (max - 1) cs) some phys (suc n) phys (λ i. suc n + i)
            m2 (take-IsText (max - 1) cs str.text) (omega arith) (let b = tmp_below in omega arith)
            (λ i h. refl) (kernel-IsSource m2 r2) in
        let (w, e, same) = restored s.words d (suc n) dir tmp_aligned tmp_below in
        let cut = take-take cs (max - 1) (max - 1) (omega arith) in
        (
          record { heap = s.heap; memory = m3; words = w },
          whole_run m2 m3 w c2 c3 e,
          record {
            written =
                (subst
                  (λ (us : List ℕ).
                    (i : ℕ)
                    → i < length (us ++ (0 ∷ []))
                    → m3 (phys + i) ≡ get_or (us ++ (0 ∷ [])) i 0)
                  cut r3.written);
            heap = refl;
            words = same;
            kept = λ q o f.
                r3.kept q (elim o [ inl x ↦ inl (omega arith) | inr x ↦ inr (omega arith) ])
                ∙ r2.kept q
                    (elim (outside q f) [ inl x ↦ inl (omega arith) | inr x ↦ inr (omega arith) ])
                ∙ al.unchanged q
                    (elim (outside q f) [ inl x ↦ inl (omega arith) | inr x ↦ inr (omega arith) ]);
          },
        )

  -- In a well-formed page-aligned heap with a free block, and for a buffer of 1 to 4095 bytes,
  -- copy_string_from_task of a string that the task can read succeeds if the buffer, the string's bytes
  -- and its virtual pages lie outside the heap's free blocks: the kernel's buffer holds the string, cut
  -- to the buffer's size less one and terminated, and the heap, the page directories and every other
  -- byte in use are what they were.
  pub copy_string_from_task-IsCopiedOut :
      (s' : Store) × (copy_string_from_task d virtual phys max s ≡ some (all_ok, s'))
      × IsCopiedOut phys max cs s s'
  copy_string_from_task-IsCopiedOut =
      let (start, h', m', al) =
        kzalloc-Allocates max t s.heap s.memory v positive (omega arith) run in
      let n = s.heap.saddr + start * block_size - 1 in
      let a : s.heap.saddr + start * block_size ≡ suc n = omega (arith, v.based) in
      copied_out start n h' m' al a
