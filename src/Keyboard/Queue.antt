-- ===== src/Keyboard/Queue.antt =====
-- The ring buffer is a bounded queue of the keys that are not read yet.
use maer_os.Common.{
  ℕ, zero, suc, ◌+◌, ◌-◌, ◌%◌, ◌^◌, ◌≤◌, ◌<◌, ◌≡◌, ◌≢◌, refl, sym, ap, subst, ◌∙◌, some, List, [],
  ◌∷◌, ◌++◌, length, length-append, get_or, arith, if_eq, if_ne, u32, ℕ_discrete,
}
use maer_os.Keyboard.{
  KeyboardBuffer, keyboard_get_tail_index, put, keyboard_backspace, keyboard_push, keyboard_pop,
}

-- The buffer holds the keys of a queue from the head on, and zeros behind them.
pub record IsQueue (k : KeyboardBuffer) (q : List ℕ) : Type 0 where
  pub fits : length q ≤ 1024
  pub tail_at : k.tail ≡ u32 (k.head + length q)
  pub head_word : k.head < 2 ^ 32
  pub held : (i : ℕ) → i < 1024 → k.buffer ((k.head + i) % 1024) ≡ get_or q i 0
  pub keys : (i : ℕ) → i < length q → get_or q i 0 ≢ 0

get_or_end : (q : List ℕ) (c : ℕ) → get_or (q ++ (c ∷ [])) (length q) 0 ≡ c
get_or_end [] c = refl
get_or_end (x ∷ q) c = get_or_end q c

get_or_before : (q : List ℕ) (c i : ℕ) → i ≢ length q → get_or (q ++ (c ∷ [])) i 0 ≡ get_or q i 0
get_or_before [] c zero h = absurd (h refl)
get_or_before [] c (suc i) h = refl
get_or_before (x ∷ q) c zero h = refl
get_or_before (x ∷ q) c (suc i) h = get_or_before q c i (λ e. h (ap suc e))

get_or_beyond : (q : List ℕ) (i : ℕ) → length q ≤ i → get_or q i 0 ≡ 0
get_or_beyond [] i h = refl
get_or_beyond (x ∷ q) zero h = absurd (omega arith)
get_or_beyond (x ∷ q) (suc i) h = get_or_beyond q i (omega arith)

-- What a push and a pop do to a buffer.
abbrev pub pushed : ℕ → KeyboardBuffer → KeyboardBuffer
pushed c k = record (put (keyboard_get_tail_index k) c k) { tail = u32 (k.tail + 1) }

abbrev pub popped : KeyboardBuffer → KeyboardBuffer
popped k = record (put (k.head % 1024) 0 k) { head = u32 (k.head + 1) }

pub pushed-IsQueue :
    (k : KeyboardBuffer) (q : List ℕ) (c : ℕ)
    → IsQueue k q
    → c ≢ 0
    → length q < 1024
    → IsQueue (pushed c k) (q ++ (c ∷ []))
unfolding keyboard_get_tail_index
pushed-IsQueue k q c v h room =
    let l : length (q ++ (c ∷ [])) ≡ length q + 1 = length-append q (c ∷ []) in
    let t = v.tail_at in
    let w = v.head_word in
    let at : k.tail % 1024 ≡ (k.head + length q) % 1024 = omega arith in
    record {
      fits = omega (arith, l);
      tail_at = omega (arith, l);
      head_word = w;
      held = λ i p. elim (ℕ_discrete i (length q)) [
        | yes e ↦
            if_eq (k.tail % 1024) ((k.head + i) % 1024) _ _ (omega arith)
            ∙ sym (get_or_end q c)
            ∙ ap (λ j. get_or (q ++ (c ∷ [])) j 0) (sym e)
        | no n ↦
            if_ne (k.tail % 1024) ((k.head + i) % 1024) _ _ (λ z. n (omega arith))
            ∙ v.held i p
            ∙ sym (get_or_before q c i n)
      ];
      keys = λ i p. elim (ℕ_discrete i (length q)) [
        | yes e ↦ λ z. h (sym (get_or_end q c) ∙ ap (λ j. get_or (q ++ (c ∷ [])) j 0) (sym e) ∙ z)
        | no n ↦ λ z. v.keys i (omega (arith, l)) (sym (get_or_before q c i n) ∙ z)
      ];
    }

pub popped-IsQueue :
    (k : KeyboardBuffer) (c : ℕ) (q : List ℕ) → IsQueue k (c ∷ q) → IsQueue (popped k) q
popped-IsQueue k c q v =
    let f = v.fits in
    let t = v.tail_at in
    let w = v.head_word in
    record {
      fits = omega arith;
      tail_at = omega arith;
      head_word = omega arith;
      held = λ i p. elim (ℕ_discrete i 1023) [
        | yes e ↦
            if_eq (k.head % 1024) ((u32 (k.head + 1) + i) % 1024) _ _ (omega arith)
            ∙ sym (get_or_beyond q i (omega arith))
        | no n ↦
            let at : (u32 (k.head + 1) + i) % 1024 ≡ (k.head + suc i) % 1024 = omega arith in
            if_ne (k.head % 1024) ((u32 (k.head + 1) + i) % 1024) _ _ (λ z. n (omega arith))
            ∙ ap k.buffer at
            ∙ v.held (suc i) (omega arith)
      ];
      keys = λ i p. v.keys (suc i) (omega arith);
    }

pub backspace-IsQueue :
    (k : KeyboardBuffer) (q : List ℕ) (c : ℕ)
    → IsQueue k (q ++ (c ∷ []))
    → IsQueue (keyboard_backspace k) q
unfolding keyboard_backspace keyboard_get_tail_index
backspace-IsQueue k q c v =
    let l : length (q ++ (c ∷ [])) ≡ length q + 1 = length-append q (c ∷ []) in
    let f = v.fits in
    let t = v.tail_at in
    let w = v.head_word in
    let t' : u32 (k.tail + 2 ^ 32 - 1) ≡ u32 (k.head + length q) = omega arith in
    record {
      fits = omega arith;
      tail_at = t';
      head_word = w;
      held = λ i p. elim (ℕ_discrete i (length q)) [
        | yes e ↦
            if_eq (u32 (k.tail + 2 ^ 32 - 1) % 1024) ((k.head + i) % 1024) _ _ (omega arith)
            ∙ sym (get_or_beyond q i (omega arith))
        | no n ↦
            if_ne (u32 (k.tail + 2 ^ 32 - 1) % 1024) ((k.head + i) % 1024) _ _
              (λ z. n (omega arith))
            ∙ v.held i p
            ∙ get_or_before q c i n
      ];
      keys = λ i p z. v.keys i (omega arith) (get_or_before q c i (λ e. omega arith) ∙ z);
    }

pub push_zero : (k : KeyboardBuffer) (c : ℕ) → c ≡ 0 → keyboard_push c (some k) ≡ some k
unfolding keyboard_push
push_zero k c e = rw e refl

pub push_key : (k : KeyboardBuffer) (c : ℕ) → c ≢ 0 → keyboard_push c (some k) ≡ some (pushed c k)
unfolding keyboard_push
push_key k c h = if_ne c 0 _ _ h

pub pop_none : (k : KeyboardBuffer) → IsQueue k [] → keyboard_pop (some k) ≡ (0, some k)
unfolding keyboard_pop
pop_none k v =
    let e : k.head + 0 ≡ k.head = omega arith in
    let z : k.buffer (k.head % 1024) ≡ 0 =
      subst (λ h. k.buffer (h % 1024) ≡ 0) e (v.held 0 (omega arith)) in
    if_eq (k.buffer (k.head % 1024)) 0 _ _ z

pub pop_key :
    (k : KeyboardBuffer) (c : ℕ) (q : List ℕ)
    → IsQueue k (c ∷ q)
    → keyboard_pop (some k) ≡ (c, some (popped k))
unfolding keyboard_pop
pop_key k c q v =
    let e : k.head + 0 ≡ k.head = omega arith in
    let z : k.buffer (k.head % 1024) ≡ c =
      subst (λ h. k.buffer (h % 1024) ≡ c) e (v.held 0 (omega arith)) in
    if_ne (k.buffer (k.head % 1024)) 0 _ _ (λ n. v.keys 0 (omega arith) (sym z ∙ n))
    ∙ ap (λ d. (d, some (popped k))) z
