-- ===== src/Task/Turns.antt =====
-- Every task of the list gets its turn: the clock switches to it within a round of the list.
use maer_os.Common.{
  ℕ, zero, suc, ◌+◌, ◌-◌, ◌<◌, ◌≤◌, ◌≡◌, refl, ap, none, some, Option, List, length, get_or, arith,
  ◌==◌, if_eq, if_ne, if◌then◌else◌, ℕ_discrete, dec_lt, sym, ◌∙◌,
}
use maer_os.Task.{Tasks, task_next, task_switch, task_get_next}
use maer_os.Task.Order.{IsTaskList, task_get_next_lem}

-- A number of interrupts of the clock, each of which is a call of `task_next`.
pub ticks : ℕ → Tasks → Option Tasks
ticks zero s = some s
ticks (suc k) s = elim (task_next s) [ none ↦ none | some s' ↦ ticks k s' ]

switched :
    (s : Tasks) (task : ℕ)
    → task_get_next s ≡ some (some task)
    → task_next s ≡ some (record s { current = some task })
unfolding task_next task_switch
switched s task e = rw (e, task_next) refl

tick :
    (k : ℕ) (s : Tasks) (task : ℕ)
    → task_get_next s ≡ some (some task)
    → ticks (suc k) s ≡ ticks k (record s { current = some task })
unfolding ticks
tick k s task e = rw (switched s task e, ticks) refl

module _ (s : Tasks) (ts : List ℕ) (v : IsTaskList s ts) where
  -- The state in which the task at an index runs.
  abbrev running : ℕ → Tasks
  running i = record s { current = some (get_or ts i 0) }

  running-IsTaskList : (i : ℕ) → IsTaskList (running i) ts
  running-IsTaskList i = record {
    first = v.first;
    last = v.last;
    nexts = v.nexts;
    prevs = v.prevs;
    distinct = v.distinct;
  }

  abbrev turn : ℕ → ℕ
  turn i = if i + 1 == length ts then 0 else i + 1

  choice :
      (i : ℕ)
      → (if i + 1 == length ts then get_or ts 0 0 else get_or ts (i + 1) 0) ≡ get_or ts (turn i) 0
  choice i = ground arith

  tick_turn : (k i : ℕ) → i < length ts → ticks (suc k) (running i) ≡ ticks k (running (turn i))
  tick_turn k i h =
      tick k (running i) _ (task_get_next_lem (running i) ts i (running-IsTaskList i) h refl)
      ∙ ap (λ x. ticks k (record s { current = some x })) (choice i)

  advance : (d i : ℕ) → i + d < length ts → ticks d (running i) ≡ some (running (i + d))
  unfolding ticks
  advance zero i h = ap (λ k. some (running k)) (omega arith)
  advance (suc d) i h =
      tick_turn d i (omega arith)
      ∙ ap (λ k. ticks d (running k)) (if_ne (i + 1) (length ts) 0 (i + 1) (omega arith))
      ∙ advance d (i + 1) (omega arith)
      ∙ ap (λ k. some (running k)) (omega arith)

  round :
      (k i j : ℕ)
      → i < length ts
      → j < length ts
      → i + k ≡ length ts + j
      → ticks k (running i) ≡ some (running j)
  unfolding ticks
  round zero i j h g e = absurd (omega arith)
  round (suc k) i j h g e = tick_turn k i h ∙ elim (ℕ_discrete (i + 1) (length ts)) [
    | yes p ↦
        ap (λ n. ticks k (running n)) (if_eq (i + 1) (length ts) 0 (i + 1) p)
        ∙ advance k 0 (omega arith)
        ∙ ap (λ n. some (running n)) (omega arith)
    | no p ↦
        ap (λ n. ticks k (running n)) (if_ne (i + 1) (length ts) 0 (i + 1) p)
        ∙ round k (i + 1) j (omega arith) g (omega arith)
  ]

-- From every task of the list and for every task of it, that one itself included, the clock reaches
-- the task in at least one interrupt and at most as many as there are tasks, with the list unchanged.
pub ticks-Reaches :
    (s : Tasks) (ts : List ℕ) (i j : ℕ)
    → IsTaskList s ts
    → i < length ts
    → j < length ts
    → s.current ≡ some (get_or ts i 0)
    → (k : ℕ) × (0 < k)
      × (k ≤ length ts)
      × (ticks k s ≡ some (record s { current = some (get_or ts j 0) }))
ticks-Reaches s ts i j v h g c =
    let e : record s { current = some (get_or ts i 0) } ≡ s =
      ap (λ x. record s { current = x }) (sym c) in
    elim (dec_lt i j) [
      | yes p ↦ (
        j - i,
        omega arith,
        omega arith,
        ap (ticks (j - i)) (sym e)
            ∙ advance s ts v (j - i) i (omega arith)
            ∙ ap (λ k. some (record s { current = some (get_or ts k 0) })) (omega arith),
      )
      | no p ↦ (
        length ts - i + j,
        omega arith,
        omega arith,
        ap (ticks (length ts - i + j)) (sym e)
            ∙ round s ts v (length ts - i + j) i j h g (omega arith),
      )
    ]
