-- ===== src/Heap/Blocks.antt =====
-- The loops of `heap_mark_blocks_taken` and `heap_mark_blocks_free` on a table cut into what lies
-- before, at and behind the run.
use maer_os.Common.{
  ℕ, zero, suc, ◌+◌, ◌≤◌, ◌<◌, ◌≡◌, refl, ◌∙◌, ap, sym, none, some, List, [], ◌∷◌, ◌++◌, arith,
  length, set, replicate, length-append, length-set, set-append, get_elem?-append, append_cons,
  lt→ltb, le→ltb, ◌==◌, dec_lt, bit_and, true, false,
}
use maer_os.Heap.{store, next_entry, mark_loop, heap_mark_blocks_taken, free_loop}

-- The entries behind the first of an allocation of `n + 1` blocks.
abbrev pub rest : ℕ → List ℕ
rest zero = []
rest (suc zero) = 0x01 ∷ []
rest (suc (suc n)) = 0x81 ∷ rest (suc n)

-- The entries of an allocation of `n` blocks.
abbrev pub block : ℕ → List ℕ
block zero = []
block (suc zero) = 0x41 ∷ []
block (suc (suc n)) = 0xc1 ∷ rest (suc n)

length-rest : (n : ℕ) → length (rest n) ≡ n
length-rest zero = refl
length-rest (suc zero) = refl
length-rest (suc (suc n)) = ap suc (length-rest (suc n))

pub length-block : (n : ℕ) → length (block (suc n)) ≡ suc n
length-block zero = refl
length-block (suc n) = ap suc (length-rest (suc n))

store_at :
    (pre post : List ℕ) (x v i : ℕ)
    → i ≡ length pre
    → store (pre ++ (x ∷ post)) i v ≡ some ((pre ++ (v ∷ [])) ++ post)
store_at pre post x v i e =
    rw
      (
        e,
        lt→ltb (length pre) (length (pre ++ (x ∷ post)))
            (omega (arith, length-append pre (x ∷ post))),
        set-append pre post x v,
      )
      (ap some (append_cons pre post v))

rest-suc : (k i stop : ℕ) → stop ≡ i + suc (suc k) → rest (suc k) ≡ next_entry i stop ∷ rest k
unfolding next_entry
rest-suc zero i stop e = ground arith
rest-suc (suc k) i stop e = ground arith

mark_step :
    (left i stop entry : ℕ) (entries entries' : List ℕ)
    → store entries i entry ≡ some entries'
    → mark_loop (suc left) i stop entry entries
      ≡ mark_loop left (i + 1) stop (next_entry i stop) entries'
unfolding mark_loop
mark_step left i stop entry entries entries' h = rw (h, mark_loop)

mark_loop-append :
    (xs pre post : List ℕ) (i stop entry x : ℕ)
    → i ≡ length pre
    → stop ≡ i + suc (length xs)
    → mark_loop (suc (length xs)) i stop entry (pre ++ (x ∷ (xs ++ post)))
      ≡ some (pre ++ (entry ∷ (rest (length xs) ++ post)))
mark_loop-append [] pre post i stop entry x e f =
    mark_step 0 i stop entry _ _ (store_at pre post x entry i e)
    ∙ unfold mark_loop in ap some (sym (append_cons pre post entry))
mark_loop-append (y ∷ xs) pre post i stop entry x e f =
    mark_step (suc (length xs)) i stop entry _ _ (store_at pre (y ∷ (xs ++ post)) x entry i e)
    ∙ mark_loop-append xs (pre ++ (entry ∷ [])) post (i + 1) stop (next_entry i stop) y
        (omega (arith, length-append pre (entry ∷ []))) (omega arith)
    ∙ ap some (
        sym (append_cons pre _ entry)
        ∙ ap (λ l. pre ++ (entry ∷ (l ++ post))) (sym (rest-suc (length xs) i stop (omega arith))))

-- `heap_mark_blocks_taken` turns the entries of the run into one allocation.
pub heap_mark_blocks_taken-append :
    (xs pre post : List ℕ) (x : ℕ)
    → heap_mark_blocks_taken (length pre) (suc (length xs)) (pre ++ (x ∷ (xs ++ post)))
      ≡ some (pre ++ (block (suc (length xs)) ++ post))
unfolding heap_mark_blocks_taken
heap_mark_blocks_taken-append [] pre post x =
    mark_loop-append [] pre post (length pre) _ _ x refl refl
heap_mark_blocks_taken-append (y ∷ xs) pre post x =
    rw (lt→ltb 1 (suc (suc (length xs))) (omega arith))
      (mark_loop-append (y ∷ xs) pre post (length pre) _ _ x refl refl)

-- A run that reaches past the array makes `heap_mark_blocks_taken` store outside it.
mark_loop_overrun :
    (left i stop entry : ℕ) (entries : List ℕ)
    → length entries < i + left
    → i ≤ length entries
    → mark_loop left i stop entry entries ≡ none
mark_loop_overrun zero i stop entry entries h p = absurd (omega arith)
mark_loop_overrun (suc left) i stop entry entries h p = elim (dec_lt i (length entries)) [
  | yes q ↦
      mark_step left i stop entry entries (set entries i entry) (rw (lt→ltb i (length entries) q))
      ∙ mark_loop_overrun left (i + 1) stop (next_entry i stop) (set entries i entry)
          (omega (arith, length-set entries i entry)) (omega (arith, length-set entries i entry))
  | no q ↦ unfold mark_loop in rw (le→ltb i (length entries) (omega arith), mark_loop)
]

pub heap_mark_blocks_taken_overrun :
    (s n : ℕ) (entries : List ℕ)
    → s ≤ length entries
    → length entries < s + n
    → heap_mark_blocks_taken s n entries ≡ none
unfolding heap_mark_blocks_taken
heap_mark_blocks_taken_overrun s n entries h p = mark_loop_overrun n s (s + n) _ entries p h

free_step :
    (left i : ℕ) (pre post : List ℕ) (x : ℕ)
    → i ≡ length pre
    → (bit_and x 0x80 == 0) ≡ false
    → free_loop (suc left) i (pre ++ (x ∷ post))
      ≡ free_loop left (i + 1) ((pre ++ (0 ∷ [])) ++ post)
unfolding free_loop
free_step left i pre post x e more =
    rw (e, get_elem?-append pre post x, more, free_loop)
      (rw (e, set-append pre post x 0, append_cons pre post 0))

free_last :
    (left i : ℕ) (pre post : List ℕ) (x : ℕ)
    → i ≡ length pre
    → (bit_and x 0x80 == 0) ≡ true
    → free_loop (suc left) i (pre ++ (x ∷ post)) ≡ some (pre ++ (0 ∷ post))
unfolding free_loop
free_last left i pre post x e last =
    rw (e, get_elem?-append pre post x, last, free_loop) (rw (e, set-append pre post x 0))

free_rest :
    (n left i : ℕ) (pre post : List ℕ)
    → i ≡ length pre
    → n < left
    → free_loop left i (pre ++ (rest (suc n) ++ post)) ≡ some (pre ++ (replicate (suc n) 0 ++ post))
free_rest n zero i pre post e h = absurd (omega arith)
free_rest zero (suc left) i pre post e h = free_last left i pre post 0x01 e refl
free_rest (suc n) (suc left) i pre post e h =
    free_step left i pre (rest (suc n) ++ post) 0x81 e refl
    ∙ free_rest n left (i + 1) (pre ++ (0 ∷ [])) post (omega (arith, length-append pre (0 ∷ [])))
        (omega arith)
    ∙ ap some (sym (append_cons pre (replicate (suc n) 0 ++ post) 0))

-- `heap_mark_blocks_free` at the first block of an allocation clears the whole of it, and nothing
-- else.
pub free_loop-append :
    (n left : ℕ) (pre post : List ℕ)
    → n < left
    → free_loop left (length pre) (pre ++ (block (suc n) ++ post))
      ≡ some (pre ++ (replicate (suc n) 0 ++ post))
free_loop-append n zero pre post h = absurd (omega arith)
free_loop-append zero (suc left) pre post h = free_last left (length pre) pre post 0x41 refl refl
free_loop-append (suc n) (suc left) pre post h =
    free_step left (length pre) pre (rest (suc n) ++ post) 0xc1 refl refl
    ∙ free_rest n left (length pre + 1) (pre ++ (0 ∷ [])) post
        (omega (arith, length-append pre (0 ∷ []))) (omega arith)
    ∙ ap some (sym (append_cons pre (replicate (suc n) 0 ++ post) 0))
