-- ===== src/Paging/Laws.antt =====
-- A directory as a map from pages to entries: reading behind a write.
use maer_os.Common.{
  ℕ, ◌+◌, ◌*◌, ◌/◌, ◌%◌, ◌^◌, ◌<◌, ◌≡◌, ◌≢◌, refl, sym, ◌∙◌, ap, arith, ◌==◌, if◌then◌else◌, all_ok,
  einvarg, ℕ_discrete, ==_false, ==_iff,
}
use maer_os.Paging.{Words, store_word, paging_is_aligned, paging_set, paging_get}
use maer_os.Paging.Slots.{
  IsDirectory, table_at, slot, get_indexes_lem, entry_slot_lem, slot-injective, slot-ne,
}

pub store_word_self : (m : Words) (p q v : ℕ) → q ≡ p → store_word m p v q ≡ v
store_word_self m p q v e = ground arith

pub store_word_ne : (m : Words) (p q v : ℕ) → q ≢ p → store_word m p v q ≡ m q
store_word_ne m p q v e = ground arith

-- `paging_set` on an aligned address writes the entry of that page; on any other it changes
-- nothing.
pub paging_set_lem :
    {m : Words} {d : ℕ} (virt val : ℕ)
    → IsDirectory m d
    → virt < 2 ^ 32
    → paging_set d virt val m
      ≡ (if virt % 4096 == 0 then (all_ok, store_word m (slot m d virt) val) else (einvarg, m))
unfolding paging_set paging_is_aligned
paging_set_lem {m} {d} virt val v h = elim (ℕ_discrete (virt % 4096) 0) [
  | yes e ↦ rw (e, get_indexes_lem virt e, entry_slot_lem virt v h)
  | no e ↦ rw (==_false (virt % 4096) 0 e)
]

pub paging_get_lem :
    {m : Words} {d : ℕ} (virt : ℕ)
    → IsDirectory m d
    → virt < 2 ^ 32
    → virt % 4096 ≡ 0
    → paging_get d virt m ≡ m (slot m d virt)
unfolding paging_get
paging_get_lem {m} {d} virt v h e = rw (get_indexes_lem virt e, entry_slot_lem virt v h, paging_get)

table_at-store :
    {m : Words} {d : ℕ} (virt val i : ℕ)
    → IsDirectory m d
    → virt < 2 ^ 32
    → i < 1024
    → table_at (store_word m (slot m d virt) val) d i ≡ table_at m d i
unfolding table_at
table_at-store {m} {d} virt val i v h p =
    rw (store_word_ne m (slot m d virt) (d + 4 * i) val (λ e. slot-ne virt i v h p (sym e)))

-- Writing an entry moves no table.
pub store-IsDirectory :
    {m : Words} {d : ℕ} (virt val : ℕ)
    → IsDirectory m d
    → virt < 2 ^ 32
    → IsDirectory (store_word m (slot m d virt) val) d
store-IsDirectory virt val v h = record {
  aligned = v.aligned;
  below = v.below;
  apart = λ i j p q e.
      v.apart i j p q (sym (table_at-store virt val i v h p) ∙ e ∙ table_at-store virt val j v h q);
  outside = λ i p e. v.outside i p (sym (table_at-store virt val i v h p) ∙ e);
}

pub slot-store :
    {m : Words} {d : ℕ} (virt val q : ℕ)
    → IsDirectory m d
    → virt < 2 ^ 32
    → q < 2 ^ 32
    → slot (store_word m (slot m d virt) val) d q ≡ slot m d q
unfolding slot
slot-store {m} {d} virt val q v h p =
    ap (λ t. t + 4 * (q / 4096 % 1024)) (table_at-store virt val (q / 2 ^ 22) v h (omega arith))

-- `paging_get` of a page behind a `paging_set`: the value that was set for that page, and what was
-- there before for every other. The tables stay where they were.
pub paging_get-paging_set :
    {m : Words} {d : ℕ} (virt val q : ℕ)
    → IsDirectory m d
    → virt < 2 ^ 32
    → virt % 4096 ≡ 0
    → q < 2 ^ 32
    → q % 4096 ≡ 0
    → let (res, m') = paging_set d virt val m in
      (res ≡ all_ok)
      × IsDirectory m' d
      × (paging_get d q m' ≡ (if virt == q then val else paging_get d q m))
paging_get-paging_set {m} {d} virt val q v h e p f =
    rw (paging_set_lem virt val v h, e)
      (
        refl,
        store-IsDirectory virt val v h,
        paging_get_lem q (store-IsDirectory virt val v h) p f
            ∙ ap (store_word m (slot m d virt) val) (slot-store virt val q v h p)
            ∙ read,
      )
  where
    read :
        store_word m (slot m d virt) val (slot m d q)
        ≡ (if virt == q then val else paging_get d q m)
    read = elim (ℕ_discrete virt q) [
      | yes s ↦ rw (s, (==_iff q q).1 refl) (store_word_self m _ _ val refl)
      | no s ↦ rw (==_false virt q s) (
          store_word_ne m _ _ val (λ t. s (sym (slot-injective q virt v p h f e t)))
          ∙ sym (paging_get_lem q v p f))
    ]
