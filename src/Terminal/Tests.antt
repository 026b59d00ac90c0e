-- ===== src/Terminal/Tests.antt =====
-- The theorems on the screen at a blank one.
use maer_os.Common.{ℕ, zero, suc, ◌+◌, ◌≤◌, ◌<◌, ◌≡◌, refl, ◌⊎◌, List, [], ◌∷◌, get_or, arith}
use maer_os.Terminal.{
  Terminal, terminal_make_char, print, terminal_initialize, terminal_writechar, write_visible,
  terminal_putchar, clear_rows, clear_row,
}
use maer_os.Terminal.Cursor.{place, IsVisible, print_lem}

-- The screen with nothing written and the cursor at a row and a column.
abbrev blank_at : ℕ → ℕ → Terminal
blank_at r c = record { row = r; col = c; cell = λ i. 0 }

abbrev hi : List ℕ
hi = 0x48 ∷ 0x69 ∷ []

print_runs : (print hi (blank_at 0 79)).row ≡ 1
unfolding print terminal_writechar write_visible terminal_putchar
print_runs = refl

terminal_initialize_runs : (terminal_initialize (blank_at 3 4)).cell 1599 ≡ 0x20
unfolding terminal_initialize clear_rows clear_row terminal_putchar terminal_make_char
terminal_initialize_runs = refl

hi-IsVisible : (i : ℕ) → i < 2 → IsVisible (get_or hi i 0)
hi-IsVisible zero h = ((λ e. omega (arith, e)), (λ e. omega (arith, e)))
hi-IsVisible (suc zero) h = ((λ e. omega (arith, e)), (λ e. omega (arith, e)))
hi-IsVisible (suc (suc i)) h = absurd (omega arith)

print_lem_example :
    let t = blank_at 0 79 in
    let t' = print hi t in
    (place t' ≡ place t + 2)
    × (t'.col < 80)
    × ((i : ℕ) → i < 2 → t'.cell (place t + i) ≡ terminal_make_char (get_or hi i 0) 15)
    × ((i : ℕ) → (i < place t) ⊎ (place t + 2 ≤ i) → t'.cell i ≡ t.cell i)
print_lem_example = print_lem hi (blank_at 0 79) (omega arith) hi-IsVisible (omega arith)
