-- ===== src/Keyboard/Runs.antt =====
-- Any sequence of key presses, erasures and reads, and its effect on a plain queue.
use maer_os.Common.{
  ℕ, ◌<◌, ◌≡◌, refl, ap, subst, Option, none, some, List, [], ◌∷◌, ◌++◌, length, arith, ◌==◌, if_eq,
  if_ne, if◌then◌else◌, ℕ_discrete,
}
use maer_os.Keyboard.{KeyboardBuffer, keyboard_backspace, keyboard_push, keyboard_pop}
use maer_os.Keyboard.Queue.{
  IsQueue, pushed, popped, pushed-IsQueue, popped-IsQueue, backspace-IsQueue, push_zero, push_key,
  pop_none, pop_key,
}

-- What can happen to the buffer of the current process: a key press that is no release and maps to
-- `c`, a backspace, and a read.
pub data KeyEvent : Type 0 where
  press : ℕ → KeyEvent
  erase : KeyEvent
  read : KeyEvent

-- The characters that the reads of a sequence of events return, in order, with the buffer of the
-- current process, if there is one.
unfoldable pub reads : List KeyEvent → Option KeyboardBuffer → List ℕ
reads [] w = []
reads (press c ∷ es) w = reads es (keyboard_push c w)
reads (erase ∷ es) none = reads es none
reads (erase ∷ es) (some k) = reads es (some (keyboard_backspace k))
reads (read ∷ es) w = (keyboard_pop w).0 ∷ reads es (keyboard_pop w).1

unfoldable pub without_last : List ℕ → List ℕ
without_last [] = []
without_last (c ∷ []) = []
without_last (c ∷ d ∷ q) = c ∷ without_last (d ∷ q)

-- The same events on a plain queue: a press appends, an erase takes the last key back, a read takes
-- the first, or gives 0 if there is none.
unfoldable pub queue_reads : List KeyEvent → List ℕ → List ℕ
queue_reads [] q = []
queue_reads (press c ∷ es) q = queue_reads es (if c == 0 then q else q ++ (c ∷ []))
queue_reads (erase ∷ es) q = queue_reads es (without_last q)
queue_reads (read ∷ es) [] = 0 ∷ queue_reads es []
queue_reads (read ∷ es) (c ∷ q) = c ∷ queue_reads es q

-- At each press fewer than 1024 keys wait, and at each erase at least one does.
unfoldable pub Fits : List KeyEvent → List ℕ → Type 0
Fits [] q = Unit
Fits (press c ∷ es) q = (length q < 1024) × Fits es (if c == 0 then q else q ++ (c ∷ []))
Fits (erase ∷ es) q = (0 < length q) × Fits es (without_last q)
Fits (read ∷ es) [] = Fits es []
Fits (read ∷ es) (c ∷ q) = Fits es q

last_key : (q : List ℕ) → 0 < length q → (c : ℕ) × (q ≡ without_last q ++ (c ∷ []))
unfolding without_last
last_key [] h = absurd (omega arith)
last_key (c ∷ []) h = (c, refl)
last_key (c ∷ d ∷ q) h = let r = last_key (d ∷ q) (omega arith) in (r.0, ap (λ l. c ∷ l) r.1)

-- On a process whose buffer holds a queue, any sequence of key presses, erasures and reads in which
-- a press finds room and an erasure finds a key returns the same characters as the plain
-- first-in-first-out queue does.
pub reads_lem :
    (es : List KeyEvent) (k : KeyboardBuffer) (q : List ℕ)
    → IsQueue k q
    → Fits es q
    → reads es (some k) ≡ queue_reads es q
unfolding reads queue_reads Fits
reads_lem [] k q v f = refl
reads_lem (press c ∷ es) k q v f = elim (ℕ_discrete c 0) [
  | yes e ↦
      let same = if_eq c 0 q (q ++ (c ∷ [])) e in
      rw (push_zero k c e, same) (reads_lem es k q v (subst (Fits es) same f.1))
  | no n ↦
      let more = if_ne c 0 q (q ++ (c ∷ [])) n in
      rw (push_key k c n, more)
        (reads_lem es (pushed c k) (q ++ (c ∷ [])) (pushed-IsQueue k q c v n f.0)
          (subst (Fits es) more f.1))
]
reads_lem (erase ∷ es) k q v f =
    let r = last_key q f.0 in
    reads_lem es (keyboard_backspace k) (without_last q)
      (backspace-IsQueue k (without_last q) r.0 (subst (IsQueue k) r.1 v)) f.1
reads_lem (read ∷ es) k [] v f = rw (pop_none k v) (ap (λ l. 0 ∷ l) (reads_lem es k [] v f))
reads_lem (read ∷ es) k (c ∷ q) v f =
    rw (pop_key k c q v) (ap (λ l. c ∷ l) (reads_lem es (popped k) q (popped-IsQueue k c q v) f))

-- The buffer of a new process is the empty queue.
pub new-IsQueue : IsQueue (record { buffer = λ i. 0; tail = 0; head = 0 }) []
new-IsQueue = record {
  fits = omega arith;
  tail_at = refl;
  head_word = omega arith;
  held = λ i p. refl;
  keys = λ i p. absurd (omega arith);
}
