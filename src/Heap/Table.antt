-- ===== src/Heap/Table.antt =====
-- Which tables the allocator keeps: free entries and whole allocations, one after the other.
use maer_os.Common.{
  ℕ, zero, suc, ◌+◌, ◌≤◌, ◌<◌, ◌≡◌, refl, ◌∙◌, ap, ap₂, sym, Bool, true, false, Option, none, some,
  List, [], ◌∷◌, ◌++◌, arith, ◌==◌, if◌then◌else◌, length, get_or, take, drop, replicate,
  Option-cases, inl, inr,
}
use maer_os.Heap.{heap_get_entry_type}
use maer_os.Heap.Search.{IsFree}
use maer_os.Heap.Blocks.{rest, block}

-- Reads one entry; the Boolean says that an allocation is open, and `none` refuses the entry.
unfoldable pub read_entry : Bool → ℕ → Option Bool
read_entry false e =
    if e == 0x00
    then some false
    else if e == 0x41
    then some false
    else if e == 0xc1
    then some true
    else none
read_entry true e = if e == 0x81 then some true else if e == 0x01 then some false else none

-- The entries are well-formed when read from the given state, and leave no allocation open.
unfoldable pub chained : Bool → List ℕ → Bool
chained false [] = true
chained true [] = false
chained b (e ∷ es) = elim (read_entry b e) [ none ↦ false | some b' ↦ chained b' es ]

chained_cons :
    (b : Bool) (e : ℕ) (es : List ℕ) {b' : Bool}
    → read_entry b e ≡ some b'
    → chained b (e ∷ es) ≡ chained b' es
unfolding chained
chained_cons false e es h = rw (h, chained)
chained_cons true e es h = rw (h, chained)

chained_refused :
    (b : Bool) (e : ℕ) (es : List ℕ) → read_entry b e ≡ none → chained b (e ∷ es) ≡ false
unfolding chained
chained_refused false e es h = rw (h, chained)
chained_refused true e es h = rw (h, chained)

-- What follows a prefix may be replaced by what is well-formed from the same states.
chained-append :
    (pre xs ys : List ℕ)
    → ((c : Bool) → chained c xs ≡ true → chained c ys ≡ true)
    → (b : Bool) → chained b (pre ++ xs) ≡ true
    → chained b (pre ++ ys) ≡ true
chained-append [] xs ys h b p = h b p
chained-append (e ∷ pre) xs ys h b p = elim (Option-cases (read_entry b e)) [
  | inl q ↦ cc (chained_refused b e (pre ++ xs) q, p)
  | inr q ↦
      chained_cons b e (pre ++ ys) q.1
      ∙ chained-append pre xs ys h q.0 (sym (chained_cons b e (pre ++ xs) q.1) ∙ p)
]

pub chained-zeros :
    (n : ℕ) (post : List ℕ) → chained false (replicate n 0 ++ post) ≡ chained false post
unfolding read_entry
chained-zeros zero post = refl
chained-zeros (suc n) post = chained_cons false 0 _ refl ∙ chained-zeros n post

-- A table of free entries alone is well-formed.
pub chained-replicate : (n : ℕ) → chained false (replicate n 0) ≡ true
unfolding chained read_entry
chained-replicate zero = refl
chained-replicate (suc n) = chained_cons false 0 (replicate n 0) refl ∙ chained-replicate n

chained-rest : (n : ℕ) (post : List ℕ) → chained true (rest (suc n) ++ post) ≡ chained false post
unfolding read_entry
chained-rest zero post = chained_cons true 0x01 _ refl
chained-rest (suc n) post = chained_cons true 0x81 _ refl ∙ chained-rest n post

chained-block : (n : ℕ) (post : List ℕ) → chained false (block (suc n) ++ post) ≡ chained false post
unfolding read_entry
chained-block zero post = chained_cons false 0x41 _ refl
chained-block (suc n) post = chained_cons false 0xc1 _ refl ∙ chained-rest n post

-- Reserving a free run keeps the table well-formed.
pub chained_reserve :
    (n : ℕ) (pre post : List ℕ)
    → chained false (pre ++ (replicate (suc n) 0 ++ post)) ≡ true
    → chained false (pre ++ (block (suc n) ++ post)) ≡ true
chained_reserve n pre post = chained-append pre _ _ same false
  where
    same :
        (c : Bool)
        → chained c (replicate (suc n) 0 ++ post) ≡ true
        → chained c (block (suc n) ++ post) ≡ true
    same false h = chained-block n post ∙ sym (chained-zeros (suc n) post) ∙ h
    same true h = cc (chained_refused true 0 (replicate n 0 ++ post) (unfold read_entry in refl), h)

-- Releasing a whole allocation keeps the table well-formed.
pub chained_release :
    (n : ℕ) (pre post : List ℕ)
    → chained false (pre ++ (block (suc n) ++ post)) ≡ true
    → chained false (pre ++ (replicate (suc n) 0 ++ post)) ≡ true
chained_release n pre post = chained-append pre _ _ same false
  where
    refused : (k : ℕ) → chained true (block (suc k) ++ post) ≡ false
    refused zero = chained_refused true 0x41 post (unfold read_entry in refl)
    refused (suc k) = chained_refused true 0xc1 _ (unfold read_entry in refl)

    same :
        (c : Bool)
        → chained c (block (suc n) ++ post) ≡ true
        → chained c (replicate (suc n) 0 ++ post) ≡ true
    same false h = chained-zeros (suc n) post ∙ sym (chained-block n post) ∙ h
    same true h = cc (refused n, h)

-- In a well-formed table a block that tests as free has the entry 0.
type_of : (e k : ℕ) → heap_get_entry_type k ≡ 1 → e ≡ k → heap_get_entry_type e ≡ 1
type_of e k h p = rw p h

free_entry :
    (b : Bool) (e : ℕ) {b' : Bool} → read_entry b e ≡ some b' → heap_get_entry_type e ≡ 0 → e ≡ 0
unfolding read_entry heap_get_entry_type
free_entry false e h p = ground (arith, type_of e 0x41 refl, type_of e 0xc1 refl)
free_entry true e h p = ground (arith, type_of e 0x81 refl, type_of e 0x01 refl)

pub free-eq-zero :
    (es : List ℕ) (b : Bool) (j : ℕ) → chained b es ≡ true → IsFree es j → get_or es j 0 ≡ 0
free-eq-zero [] b j h p = refl
free-eq-zero (e ∷ es) b zero h p = elim (Option-cases (read_entry b e)) [
  | inl q ↦ cc (chained_refused b e es q, h)
  | inr q ↦ free_entry b e q.1 p
]
free-eq-zero (e ∷ es) b (suc j) h p = elim (Option-cases (read_entry b e)) [
  | inl q ↦ cc (chained_refused b e es q, h)
  | inr q ↦ free-eq-zero es q.0 j (sym (chained_cons b e es q.1) ∙ h) p
]

-- A table with zeros from `s` on, cut there.
pub zeros_cut :
    (s n : ℕ) (es : List ℕ)
    → s + n ≤ length es
    → ((j : ℕ) → s ≤ j → j < s + n → get_or es j 0 ≡ 0)
    → es ≡ take s es ++ (replicate n 0 ++ drop n (drop s es))
zeros_cut zero zero es h z = refl
zeros_cut zero (suc n) [] h z = absurd (omega arith)
zeros_cut zero (suc n) (e ∷ es) h z =
    ap₂ ◌∷◌ (z 0 (omega arith) (omega arith))
      (zeros_cut zero n es (omega arith) (λ j p q. z (suc j) (omega arith) (omega arith)))
zeros_cut (suc s) n [] h z = absurd (omega arith)
zeros_cut (suc s) n (e ∷ es) h z =
    ap (λ l. e ∷ l)
      (zeros_cut s n es (omega arith) (λ j p q. z (suc j) (omega arith) (omega arith)))
