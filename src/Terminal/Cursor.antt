-- ===== src/Terminal/Cursor.antt =====
-- The screen as one line of cells: what `print` and a backspace do to it.
use maer_os.Common.{
  ℕ, zero, suc, ◌+◌, ◌-◌, ◌*◌, ◌^◌, ◌≤◌, ◌<◌, ◌≡◌, ◌≢◌, refl, ◌∙◌, ap, List, [], ◌∷◌, length,
  get_or, arith, ◌==◌, true, false, ◌&&◌, if◌then◌else◌, ==_false, leb, ◌⊎◌, inl, inr, dec_lt,
}
use maer_os.Terminal.{
  Terminal, vga_width, u16, terminal_make_char, terminal_putchar, write_visible, step_left,
  terminal_backspace, terminal_writechar, print,
}

-- The number of the cell under the cursor.
abbrev pub place : Terminal → ℕ
place t = t.row * vga_width + t.col

-- Neither a line break nor a backspace.
abbrev pub IsVisible : ℕ → Type 0
IsVisible c = (c ≢ 0x0a) × (c ≢ 0x08)

-- The cursor stands on a cell of a row, and a row is a 16-bit word.
pub record IsOnScreen (t : Terminal) : Type 0 where
  pub in_row : t.col < 80
  pub word : t.row + 1 < 2 ^ 16

writechar_visible :
    (c : ℕ) (t : Terminal) → IsVisible c → terminal_writechar c 15 t ≡ write_visible c 15 t
unfolding terminal_writechar
writechar_visible c t v = rw (==_false c 0x0a v.0, ==_false c 0x08 v.1)

over_edge : (t : Terminal) → IsOnScreen t → 80 ≤ t.col + 1 → leb 80 (u16 (t.col + 1)) ≡ true
over_edge t v h = let w = v.in_row in ground arith

within_row : (t : Terminal) → IsOnScreen t → t.col + 1 < 80 → leb 80 (u16 (t.col + 1)) ≡ false
within_row t v h = let w = v.in_row in ground arith

-- A visible character goes to the cell under the cursor, and the cursor to the next cell.
write_visible_lem :
    (c : ℕ) (t : Terminal)
    → IsOnScreen t
    → let t' = write_visible c 15 t in
      (place t' ≡ place t + 1)
      × (t'.col < 80)
      × ((i : ℕ) → t'.cell i ≡ (if place t == i then terminal_make_char c 15 else t.cell i))
unfolding write_visible terminal_putchar
write_visible_lem c t v =
    let p = v.in_row in
    let q = v.word in
    elim (dec_lt (t.col + 1) 80) [
      | yes h ↦ rw (within_row t v h) (omega arith, omega arith, λ i. refl)
      | no h ↦ rw (over_edge t v (omega arith)) (omega arith, omega arith, λ i. refl)
    ]

pick : (m a b : ℕ) → (if m == m then a else b) ≡ a
pick m a b = let e : (m == m) ≡ true = ground arith in rw e refl

pass : (m i a b : ℕ) → m ≢ i → (if m == i then a else b) ≡ b
pass m i a b h = rw (==_false m i h) refl

print_visible :
    (c : ℕ) (cs : List ℕ) (t : Terminal)
    → IsVisible c
    → print (c ∷ cs) t ≡ print cs (write_visible c 15 t)
unfolding print
print_visible c cs t v = ap (print cs) (writechar_visible c t v)

-- A text of visible characters that fits the rows: each goes to its own cell in order from the
-- cursor on, no other cell changes, and the cursor ends behind the last.
pub print_lem :
    (cs : List ℕ) (t : Terminal)
    → t.col < 80
    → ((i : ℕ) → i < length cs → IsVisible (get_or cs i 0))
    → place t + length cs + 80 < 80 * 2 ^ 16
    → let t' = print cs t in
      (place t' ≡ place t + length cs)
      × (t'.col < 80)
      × ((i : ℕ) → i < length cs → t'.cell (place t + i) ≡ terminal_make_char (get_or cs i 0) 15)
      × ((i : ℕ) → (i < place t) ⊎ (place t + length cs ≤ i) → t'.cell i ≡ t.cell i)
unfolding print
print_lem [] t v vis h = (omega arith, v, λ i p. absurd (omega arith), λ i p. refl)
print_lem (c ∷ cs) t v vis h =
    let on : IsOnScreen t = record { in_row = v; word = omega arith } in
    let w = write_visible_lem c t on in
    let t' = write_visible c 15 t in
    let r = print_lem cs t' w.1 (λ i p. vis (suc i) (omega arith)) (omega arith) in
    rw (print_visible c cs t (vis 0 (omega arith))) (
      omega arith,
      r.1,
      elim [
        | zero ↦ λ p.
            let z : place t + 0 ≡ place t = omega arith in
            rw z (r.3 (place t) (inl (omega arith)) ∙ w.2 (place t) ∙ pick (place t) _ _)
        | suc i ↦
            λ p. let z : place t + suc i ≡ place t' + i = omega arith in rw z (r.2 i (omega arith))
      ],
      λ i p.
          r.3 i (elim p [ inl a ↦ inl (omega arith) | inr a ↦ inr (omega arith) ])
          ∙ w.2 i
          ∙ pass (place t) i _ _
              (λ z. elim p [ inl a ↦ omega (arith, z, a) | inr a ↦ omega (arith, z, a) ]),
    )

write_within :
    (c : ℕ) (t : Terminal)
    → IsOnScreen t
    → t.col + 1 < 80
    → write_visible c 15 t ≡ record (terminal_putchar t.col t.row c 15 t) { col = t.col + 1 }
unfolding write_visible terminal_putchar
write_within c t v h =
    let e : u16 (t.col + 1) ≡ t.col + 1 = omega arith in rw (within_row t v h) (rw e refl)

write_edge :
    (c : ℕ) (t : Terminal)
    → IsOnScreen t
    → t.col ≡ 79
    → write_visible c 15 t
      ≡ record (terminal_putchar t.col t.row c 15 t) { col = 0; row = t.row + 1 }
unfolding write_visible terminal_putchar
write_edge c t v h =
    let q = v.word in
    let e : u16 (t.row + 1) ≡ t.row + 1 = omega arith in
    rw (over_edge t v (omega arith)) (rw e refl)

backspace_within :
    (t : Terminal)
    → IsOnScreen t
    → 0 < t.col
    → terminal_backspace t
      ≡ record (terminal_putchar (t.col - 1) t.row 0x20 15 t) { col = t.col - 1 }
unfolding terminal_backspace step_left terminal_putchar
backspace_within t v h =
    let p = v.in_row in
    let q = v.word in
    let t1 : Terminal = record t { col = t.col - 1 } in
    let e : (t.row == 0 && t.col == 0) ≡ false = ground arith in
    let z : (t.col == 0) ≡ false = ground arith in
    let m : u16 (t.col + 2 ^ 16 - 1) ≡ t.col - 1 = omega arith in
    let w = write_within 0x20 t1 (record { in_row = omega arith; word = q }) (omega arith) in
    let n : u16 (t.col - 1 + 1 + 2 ^ 16 - 1) ≡ t.col - 1 = omega arith in
    rw (e, z)
      (rw m (
        ap step_left w
        ∙ ap
            (λ k. record t1 { col = k; cell = (terminal_putchar (t.col - 1) t.row 0x20 15 t).cell })
            n))

backspace_edge :
    (t : Terminal)
    → IsOnScreen t
    → 0 < t.row
    → t.col ≡ 0
    → terminal_backspace t
      ≡ record (terminal_putchar 79 (t.row - 1) 0x20 15 t) { col = 65535; row = t.row - 1 + 1 }
unfolding terminal_backspace step_left terminal_putchar
backspace_edge t v h c =
    let q = v.word in
    let t1 : Terminal = record t { col = 79; row = t.row - 1 } in
    let e : (t.row == 0 && t.col == 0) ≡ false = ground arith in
    let z : (t.col == 0) ≡ true = ground arith in
    let m : u16 (t.row + 2 ^ 16 - 1) ≡ t.row - 1 = omega arith in
    let w = write_edge 0x20 t1 (record { in_row = omega arith; word = omega arith }) refl in
    rw (e, z) (rw m (ap step_left w))

-- A backspace at the start of the screen does nothing; within a row it blanks the cell before the
-- cursor and steps back to it; at the start of a later row it blanks the last cell of the row above
-- but leaves the cursor at column 65535 of the row where it was.
pub terminal_backspace_lem :
    (t : Terminal)
    → IsOnScreen t
    → let t' = terminal_backspace t in
      (t.row ≡ 0 → t.col ≡ 0 → t' ≡ t)
      × (0 < t.col → (t'.row ≡ t.row) × (t'.col + 1 ≡ t.col))
      × (0 < t.row → t.col ≡ 0 → (t'.row ≡ t.row) × (t'.col ≡ 65535))
      × (0 < place t
          → (i : ℕ)
          → t'.cell i ≡ (if place t - 1 == i then terminal_make_char 0x20 15 else t.cell i))
unfolding terminal_backspace terminal_putchar
terminal_backspace_lem t v =
    let p = v.in_row in
    let q = v.word in
    (
      λ r c. let e : (t.row == 0 && t.col == 0) ≡ true = ground arith in rw e refl,
      λ c. rw (backspace_within t v c) (refl, omega arith),
      λ r c. rw (backspace_edge t v r c) (omega arith, refl),
      λ h i. elim (dec_lt 0 t.col) [
        | yes c ↦
            let e : place t - 1 ≡ t.row * 80 + (t.col - 1) = omega arith in
            rw (backspace_within t v c) (rw e refl)
        | no c ↦
            let e : place t - 1 ≡ (t.row - 1) * 80 + 79 = omega arith in
            rw (backspace_edge t v (omega arith) (omega arith)) (rw e refl)
      ],
    )
