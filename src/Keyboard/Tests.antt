-- ===== src/Keyboard/Tests.antt =====
-- The theorems on the keyboard at a fresh buffer and at a full one.
use maer_os.Common.{
  ℕ, ◌<◌, ◌≡◌, refl, sym, zero, suc, none, some, List, [], ◌∷◌, length, replicate, length-replicate,
  get_or, arith, einvarg, all_ok,
}
use maer_os.Keyboard.{KeyboardBuffer, KeyboardList, keyboard_insert}
use maer_os.Keyboard.Queue.{IsQueue}
use maer_os.Keyboard.Runs.{
  KeyEvent, press, erase, read, reads, queue_reads, Fits, without_last, reads_lem, new-IsQueue,
}

abbrev new_buffer : KeyboardBuffer
new_buffer = record { buffer = λ i. 0; tail = 0; head = 0 }

-- 'a', 'b', an erasure, 'c', and three reads.
abbrev typing : List KeyEvent
typing = press 97 ∷ press 98 ∷ erase ∷ press 99 ∷ read ∷ read ∷ read ∷ []

queue_reads_runs : queue_reads typing [] ≡ 97 ∷ 99 ∷ 0 ∷ []
unfolding queue_reads without_last
queue_reads_runs = refl

abbrev no_keyboards : KeyboardList
no_keyboards = record { head = none; last = none; next = λ n. none }

insert_runs : (keyboard_insert (λ n. some all_ok) 3 no_keyboards).1.last ≡ some 3
unfolding keyboard_insert
insert_runs = refl

insert_refuses : keyboard_insert (λ n. none) 3 no_keyboards ≡ (einvarg, no_keyboards)
unfolding keyboard_insert
insert_refuses = refl

typing-Fits : Fits typing []
unfolding Fits without_last
typing-Fits = (omega arith, (omega arith, (omega arith, (omega arith, tt))))

reads_lem_example : reads typing (some new_buffer) ≡ queue_reads typing []
reads_lem_example = reads_lem typing new_buffer [] new-IsQueue typing-Fits

abbrev full_buffer : KeyboardBuffer
full_buffer = record { buffer = λ i. 97; tail = 1024; head = 0 }

abbrev key_a : ℕ
key_a = 97

abbrev full_queue : List ℕ
full_queue = replicate 1024 key_a

get_or-replicate : (n i : ℕ) → i < n → get_or (replicate n key_a) i 0 ≡ key_a
get_or-replicate zero i h = absurd (omega arith)
get_or-replicate (suc n) zero h = refl
get_or-replicate (suc n) (suc i) h = get_or-replicate n i (omega arith)

full-IsQueue : IsQueue full_buffer full_queue
full-IsQueue =
    let l : length full_queue ≡ 1024 = length-replicate 1024 key_a in
    record {
      fits = omega (arith, l);
      tail_at = omega (arith, l);
      head_word = omega arith;
      held = λ i p. sym (get_or-replicate 1024 i p);
      keys = λ i p e. omega (arith, get_or-replicate 1024 i (omega (arith, l)), e);
    }

abbrev scancode_a : ℕ
scancode_a = 30
