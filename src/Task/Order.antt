-- ===== src/Task/Order.antt =====
-- The list of tasks as a sequence: new tasks at its end, and the next task in turn.
use maer_os.Common.{
  ℕ, zero, suc, ◌+◌, ◌<◌, ◌≡◌, ◌≢◌, refl, sym, ap, subst, ◌∙◌, none, some, List, [], ◌∷◌, ◌++◌,
  length, length-append, get_or, get_elem?, get_or-append, get_or-append_lt, get_elem?-beyond,
  get_elem?-get_or, arith, ◌==◌, if_eq, if_ne, if◌then◌else◌, ℕ_discrete,
}
use maer_os.Task.{Tasks, link, task_new, task_get_next}

-- The tasks in order, each linked to the one behind it and to the one before it.
pub record IsTaskList (s : Tasks) (ts : List ℕ) : Type 0 where
  pub first : s.head ≡ get_elem? ts 0
  pub last : (n : ℕ) → length ts ≡ suc n → s.tail ≡ some (get_or ts n 0)
  pub nexts : (i : ℕ) → i < length ts → s.next (get_or ts i 0) ≡ get_elem? ts (i + 1)
  pub prevs : (i : ℕ) → i + 1 < length ts → s.prev (get_or ts (i + 1) 0) ≡ some (get_or ts i 0)
  pub distinct : (i j : ℕ) → i < length ts → j < length ts → get_or ts i 0 ≡ get_or ts j 0 → i ≡ j

-- An address that no task of the list has.
abbrev pub Fresh : ℕ → List ℕ → Type 0
Fresh task ts = (i : ℕ) → i < length ts → get_or ts i 0 ≢ task

-- The task behind the current one, or the first behind the last: the scheduler goes round the list.
pub task_get_next_lem :
    (s : Tasks) (ts : List ℕ) (i : ℕ)
    → IsTaskList s ts
    → i < length ts
    → s.current ≡ some (get_or ts i 0)
    → task_get_next s
      ≡ some (some (if i + 1 == length ts then get_or ts 0 0 else get_or ts (i + 1) 0))
unfolding task_get_next
task_get_next_lem s ts i v h c = elim (ℕ_discrete (i + 1) (length ts)) [
  | yes e ↦
      let n = v.nexts i h ∙ get_elem?-beyond ts (i + 1) (omega arith) in
      let f = v.first ∙ get_elem?-get_or ts 0 0 (omega arith) in
      rw (c, n, f) (ap (λ x. some (some x)) (sym (if_eq (i + 1) (length ts) _ _ e)))
  | no d ↦
      let n = v.nexts i h ∙ get_elem?-get_or ts (i + 1) 0 (omega arith) in
      rw (c, n) (ap (λ x. some (some x)) (sym (if_ne (i + 1) (length ts) _ _ d)))
]

-- The state with the new task alone, and with it behind the last one.
abbrev alone : ℕ → Tasks → Tasks
alone task s = record {
  head = some task;
  tail = some task;
  current = some task;
  next = link s.next task none;
  prev = link s.prev task none;
}

abbrev appended : ℕ → ℕ → ℕ → Tasks → Tasks
appended task head tail s = record {
  head = some head;
  tail = some task;
  current = s.current;
  next = link (link s.next task none) tail (some task);
  prev = link (link s.prev task none) task (some tail);
}

alone-IsTaskList : (s : Tasks) (task : ℕ) → IsTaskList (alone task s) (task ∷ [])
alone-IsTaskList s task = record {
  first = refl;
  last = elim [ zero ↦ λ e. refl | suc n ↦ λ e. absurd (omega (arith, e)) ];
  nexts = elim [ zero ↦ λ h. if_eq task task _ _ refl | suc i ↦ λ h. absurd (omega arith) ];
  prevs = λ i h. absurd (omega arith);
  distinct = λ i j h k e. omega arith;
}

module _ (s : Tasks) (us : List ℕ) (task n : ℕ) (v : IsTaskList s us) (f : Fresh task us)
    (l : length us ≡ suc n) where
  abbrev tail_task : ℕ
  tail_task = get_or us n 0

  abbrev after : Tasks
  after = appended task (get_or us 0 0) tail_task s

  more : List ℕ
  more = us ++ (task ∷ [])

  length-more : length more ≡ suc (suc n)
  unfolding more
  length-more = omega (arith, length-append us (task ∷ []))

  at_end : get_or more (suc n) 0 ≡ task
  unfolding more
  at_end = subst (λ k. get_or (us ++ (task ∷ [])) k 0 ≡ task) l (get_or-append us [] task 0)

  at_before : (i : ℕ) → i < suc n → get_or more i 0 ≡ get_or us i 0
  unfolding more
  at_before i h = get_or-append_lt us (task ∷ []) i 0 (omega arith)

  entry : (i : ℕ) → i < suc (suc n) → get_elem? more i ≡ some (get_or more i 0)
  entry i h = get_elem?-get_or more i 0 (omega (arith, length-more))

  next_inside : (i : ℕ) → i < n → after.next (get_or more i 0) ≡ get_elem? more (i + 1)
  next_inside i h = rw (at_before i (omega arith)) (
      if_ne tail_task (get_or us i 0) _ _
        (λ e. omega (arith, v.distinct n i (omega arith) (omega arith) e))
      ∙ if_ne task (get_or us i 0) _ _ (λ e. f i (omega arith) (sym e))
      ∙ v.nexts i (omega arith)
      ∙ get_elem?-get_or us (i + 1) 0 (omega arith)
      ∙ ap some (sym (at_before (i + 1) (omega arith)))
      ∙ sym (entry (i + 1) (omega arith)))

  next_last : after.next (get_or more n 0) ≡ get_elem? more (n + 1)
  next_last =
      let e : n + 1 ≡ suc n = omega arith in
      rw (at_before n (omega arith), e)
        (if_eq tail_task tail_task _ _ refl
          ∙ ap some (sym at_end)
          ∙ sym (entry (suc n) (omega arith)))

  next_new : after.next (get_or more (suc n) 0) ≡ get_elem? more (suc n + 1)
  next_new = rw at_end (
      if_ne tail_task task _ _ (f n (omega arith))
      ∙ if_eq task task _ _ refl
      ∙ sym (get_elem?-beyond more (suc n + 1) (omega (arith, length-more))))

  prev_inside : (i : ℕ) → i < n → after.prev (get_or more (i + 1) 0) ≡ some (get_or more i 0)
  prev_inside i h =
      rw (at_before i (omega arith), at_before (i + 1) (omega arith))
        (if_ne task (get_or us (i + 1) 0) _ _ (λ e. f (i + 1) (omega arith) (sym e))
          ∙ if_ne task (get_or us (i + 1) 0) _ _ (λ e. f (i + 1) (omega arith) (sym e))
          ∙ v.prevs i (omega arith))

  prev_new : after.prev (get_or more (n + 1) 0) ≡ some (get_or more n 0)
  prev_new =
      let e : n + 1 ≡ suc n = omega arith in
      rw (e, at_end, at_before n (omega arith)) (if_eq task task _ _ refl)

  not_new : (i : ℕ) → i < suc n → get_or more i 0 ≢ task
  not_new i h e = f i (omega arith) (sym (at_before i h) ∙ e)

  distinct_more :
      (i j : ℕ) → i < suc (suc n) → j < suc (suc n) → get_or more i 0 ≡ get_or more j 0 → i ≡ j
  distinct_more i j h k e = elim (ℕ_discrete i (suc n)) [
    | yes p ↦ elim (ℕ_discrete j (suc n)) [
      | yes q ↦ p ∙ sym q
      | no q ↦ absurd (not_new j (omega arith) (sym e ∙ ap (λ k. get_or more k 0) p ∙ at_end))
    ]
    | no p ↦ elim (ℕ_discrete j (suc n)) [
      | yes q ↦ absurd (not_new i (omega arith) (e ∙ ap (λ k. get_or more k 0) q ∙ at_end))
      | no q ↦
          v.distinct i j (omega arith) (omega arith)
            (sym (at_before i (omega arith)) ∙ e ∙ at_before j (omega arith))
    ]
  ]

  appended-IsTaskList : IsTaskList after more
  appended-IsTaskList = record {
    first = sym (entry 0 (omega arith) ∙ ap some (at_before 0 (omega arith)));
    last = λ m e. sym (ap some (let q : m ≡ suc n = omega (arith, e, length-more) in rw q at_end));
    nexts = λ i h. elim (ℕ_discrete i n) [
      | yes p ↦ rw p next_last
      | no p ↦ elim (ℕ_discrete i (suc n)) [
        | yes q ↦ rw q next_new
        | no q ↦ next_inside i (omega (arith, h, length-more, p, q))
      ]
    ];
    prevs = λ i h. elim (ℕ_discrete i n) [
      | yes p ↦ rw p prev_new
      | no p ↦ prev_inside i (omega (arith, h, length-more, p))
    ];
    distinct = λ i j h k e.
        distinct_more i j (omega (arith, h, length-more)) (omega (arith, k, length-more)) e;
  }

-- A new task goes to the end of the list.
pub task_new-IsTaskList :
    (s : Tasks) (ts : List ℕ) (task : ℕ)
    → IsTaskList s ts
    → Fresh task ts
    → (s' : Tasks) × (task_new task s ≡ some s') × IsTaskList s' (ts ++ (task ∷ []))
unfolding task_new more
task_new-IsTaskList s [] task v f =
    (alone task s, rw (v.first, task_new) refl, alone-IsTaskList s task)
task_new-IsTaskList s (a ∷ ts) task v f =
    let t = v.last (length ts) refl in
    (
      appended task a (get_or (a ∷ ts) (length ts) 0) s,
      rw (v.first, t, task_new) refl,
      appended-IsTaskList s (a ∷ ts) task (length ts) v f refl,
    )
