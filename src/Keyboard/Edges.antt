-- ===== src/Keyboard/Edges.antt =====
-- What the ring buffer does where it stops being a queue: an erasure on the empty buffer, and a press
-- on the full one.
use maer_os.Common.{
  ℕ, ◌+◌, ◌-◌, ◌%◌, ◌^◌, ◌≡◌, ◌≢◌, sym, ap, subst, ◌∙◌, Option, some, List, [], length, arith,
  if_eq, if_ne, u32, ℕ_discrete,
}
use maer_os.Keyboard.{
  KeyboardBuffer, keyboard_get_tail_index, keyboard_backspace, keyboard_push, keyboard_pop,
}
use maer_os.Keyboard.Queue.{IsQueue, pushed, push_key}

first_read : (k : KeyboardBuffer) → (keyboard_pop (some k)).0 ≡ k.buffer (k.head % 1024)
unfolding keyboard_pop
first_read k = elim (ℕ_discrete (k.buffer (k.head % 1024)) 0) [
  | yes e ↦
      ap (λ (r : ℕ × Option KeyboardBuffer). r.0) (if_eq (k.buffer (k.head % 1024)) 0 _ _ e) ∙ sym e
  | no n ↦ ap (λ (r : ℕ × Option KeyboardBuffer). r.0) (if_ne (k.buffer (k.head % 1024)) 0 _ _ n)
]

-- A backspace on the empty buffer moves the tail before the head: the key that is pressed next is
-- lost, since a read finds the zero at the head and returns 0.
pub backspace_empty :
    (k : KeyboardBuffer) (c : ℕ)
    → IsQueue k []
    → c ≢ 0
    → (keyboard_pop (keyboard_push c (some (keyboard_backspace k)))).0 ≡ 0
unfolding keyboard_backspace keyboard_get_tail_index
backspace_empty k c v h =
    let t = v.tail_at in
    let w = v.head_word in
    let e : k.head + 0 ≡ k.head = omega arith in
    let z : k.buffer (k.head % 1024) ≡ 0 =
      subst (λ n. k.buffer (n % 1024) ≡ 0) e (v.held 0 (omega arith)) in
    let apart : u32 (k.tail + 2 ^ 32 - 1) % 1024 ≢ k.head % 1024 = λ n. omega arith in
    let b : (pushed c (keyboard_backspace k)).buffer (k.head % 1024) ≡ 0 =
      if_ne _ _ _ _ apart ∙ if_ne _ _ _ _ apart ∙ z in
    rw (push_key (keyboard_backspace k) c h) (first_read (pushed c (keyboard_backspace k)) ∙ b)

-- A press on a full buffer overwrites the oldest key: the next read returns the new key.
pub push_full :
    (k : KeyboardBuffer) (q : List ℕ) (c : ℕ)
    → IsQueue k q
    → length q ≡ 1024
    → c ≢ 0
    → (keyboard_pop (keyboard_push c (some k))).0 ≡ c
unfolding keyboard_get_tail_index
push_full k q c v l h =
    let t = v.tail_at in
    let w = v.head_word in
    let b : (pushed c k).buffer (k.head % 1024) ≡ c =
      if_eq (k.tail % 1024) (k.head % 1024) _ _ (omega arith) in
    rw (push_key k c h) (first_read (pushed c k) ∙ b)
