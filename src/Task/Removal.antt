-- ===== src/Task/Removal.antt =====
-- What the removal of a task leaves behind in its neighbours.
use maer_os.Common.{
  ℕ, ◌+◌, ◌-◌, ◌<◌, List, length, get_or, get_elem?-get_or, ◌≡◌, ◌≢◌, refl, sym, ap, ap₂, ◌∙◌, some,
  arith, ◌==◌, ==_false, Bool-cases, inl, inr, if_eq, if_ne, if◌then◌else◌, false,
}
use maer_os.Task.{
  Tasks, link, task_get_next, unlink_prev, unlink_head, unlink_tail, step_on, task_list_remove,
}
use maer_os.Task.Order.{IsTaskList}

tail_moved :
    (s : Tasks) (task before tail : ℕ)
    → s.prev task ≡ some before
    → s.tail ≡ some tail
    → unlink_tail task s ≡ record s { tail = if tail == task then some before else some tail }
tail_moved s task before tail p t = elim (Bool-cases (tail == task)) [
  | inl e ↦ rw t (rw e (ap (λ x. record s { tail = x }) p))
  | inr e ↦ rw t (rw e refl)
]

-- A task that is neither the first nor the current one: its link to the task before it is followed.
remove_inner :
    (s : Tasks) (task before head tail current : ℕ)
    → s.prev task ≡ some before
    → s.head ≡ some head
    → (head == task) ≡ false
    → s.tail ≡ some tail
    → s.current ≡ some current
    → (current == task) ≡ false
    → task_list_remove task s
      ≡ some (record s {
        next = link s.next before (s.next task);
        tail = if tail == task then some before else some tail;
      })
unfolding task_list_remove
remove_inner s task before head tail current p h n t r m =
    let s1 : Tasks = record s { next = link s.next before (s.next task) } in
    let s2 : Tasks = record s1 { tail = if tail == task then some before else some tail } in
    let e1 : unlink_prev task s ≡ s1 = rw (p, unlink_prev) refl in
    let e2 : unlink_head task s1 ≡ s1 = rw h (rw n refl) in
    let e3 : unlink_tail task s1 ≡ s2 = tail_moved s1 task before tail p t in
    let e4 : step_on task s2 ≡ some s2 = rw r (rw m refl) in
    ap (λ x. step_on task (unlink_tail task (unlink_head task x))) e1
    ∙ ap (λ x. step_on task (unlink_tail task x)) e2
    ∙ ap (step_on task) e3
    ∙ e4

next_of :
    (s : Tasks) (current next : ℕ)
    → s.current ≡ some current
    → s.next current ≡ some next
    → task_get_next s ≡ some (some next)
unfolding task_get_next
next_of s current next r n = rw (r, task_get_next) (rw n refl)

differ :
    (s : Tasks) (ts : List ℕ) (i j : ℕ)
    → IsTaskList s ts
    → i < length ts
    → j < length ts
    → i ≢ j
    → get_or ts i 0 ≢ get_or ts j 0
differ s ts i j v p q d e = d (v.distinct i j p q e)

-- With two tasks behind the current one in the list, the removal of the first of them does not correct
-- the second's link back to it. The removal of the second then unlinks it from the first, which was
-- removed, in place of the current task, and the scheduler gives the second, which was removed.
pub task_list_remove_twice :
    (s : Tasks) (ts : List ℕ) (i : ℕ)
    → IsTaskList s ts
    → i + 2 < length ts
    → s.current ≡ some (get_or ts i 0)
    → (s' : Tasks) × (s'' : Tasks) × (task_list_remove (get_or ts (i + 1) 0) s ≡ some s')
      × (s'.prev (get_or ts (i + 2) 0) ≡ some (get_or ts (i + 1) 0))
      × (task_list_remove (get_or ts (i + 2) 0) s' ≡ some s'')
      × (task_get_next s'' ≡ some (some (get_or ts (i + 2) 0)))
task_list_remove_twice s ts i v h r =
    let n = length ts - 1 in
    let (a, b, c) : ℕ × ℕ × ℕ = (get_or ts i 0, get_or ts (i + 1) 0, get_or ts (i + 2) 0) in
    let (head, tail) : ℕ × ℕ = (get_or ts 0 0, get_or ts n 0) in
    let back : i + 1 + 1 ≡ i + 2 = omega arith in
    let hb = differ s ts 0 (i + 1) v (omega arith) (omega arith) (omega arith) in
    let hc = differ s ts 0 (i + 2) v (omega arith) (omega arith) (omega arith) in
    let ab = differ s ts i (i + 1) v (omega arith) (omega arith) (omega arith) in
    let ac = differ s ts i (i + 2) v (omega arith) (omega arith) (omega arith) in
    let tb = differ s ts n (i + 1) v (omega arith) (omega arith) (omega arith) in
    let first : s.head ≡ some head = v.first ∙ get_elem?-get_or ts 0 0 (omega arith) in
    let last : s.tail ≡ some tail = v.last n (omega arith) in
    let nb : s.next b ≡ some c =
      v.nexts (i + 1) (omega arith)
      ∙ get_elem?-get_or ts (i + 1 + 1) 0 (omega arith)
      ∙ ap (λ k. some (get_or ts k 0)) back in
    let pb : s.prev b ≡ some a = v.prevs i (omega arith) in
    let pc : s.prev c ≡ some b =
      ap (λ k. s.prev (get_or ts k 0)) (sym back) ∙ v.prevs (i + 1) (omega arith) in
    let s' : Tasks = record s { next = link s.next a (some c) } in
    let s'' : Tasks = record s' {
      next = link s'.next b (s'.next c);
      tail = if tail == c then some b else some tail;
    } in
    (
      s',
      s'',
      remove_inner s b a head tail a pb first (==_false head b hb) last r (==_false a b ab)
          ∙ ap₂ (λ x f. some (record s { tail = x; next = f }))
              (if_ne tail b (some a) (some tail) tb ∙ sym last) (ap (link s.next a) nb),
      pc,
      remove_inner s' c b head tail a pc first (==_false head c hc) last r (==_false a c ac),
      next_of s'' a c r (if_ne b a _ _ (λ e. ab (sym e)) ∙ if_eq a a _ _ refl),
    )
