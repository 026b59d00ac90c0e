-- ===== src/Terminal.antt =====
-- src/kernel.c, the text screen: the cursor and the cells of video memory.
pub mod Cursor
mod Tests
use maer_os.Common.{
  ℕ, ◌+◌, ◌-◌, ◌*◌, ◌%◌, ◌^◌, List, [], ◌∷◌, bit_or, ltb, leb, ◌==◌, ◌&&◌, if◌then◌else◌, zero, suc,
}

-- `VGA_WIDTH`, `VGA_HEIGHT`
abbrev pub vga_width : ℕ
vga_width = 80

abbrev pub vga_height : ℕ
vga_height = 20

abbrev pub u16 : ℕ → ℕ
u16 n = n % 2 ^ 16

-- `terminal_row`, `terminal_col` and `video_mem`, by the number of the cell.
pub record Terminal : Type 0 where
  pub row : ℕ
  pub col : ℕ
  pub cell : ℕ → ℕ

-- A `char` of 128 or more is negative, and fills the upper bits when it is widened.
pub terminal_make_char : ℕ → ℕ → ℕ
terminal_make_char c colour = u16 (bit_or (colour * 2 ^ 8) (if ltb c 128 then c else c + 0xff00))

pub terminal_putchar : ℕ → ℕ → ℕ → ℕ → Terminal → Terminal
terminal_putchar x y c colour t = record t {
  cell = λ i. if y * vga_width + x == i then terminal_make_char c colour else t.cell i;
}

-- The end of `terminal_writechar`, for a character that is neither '\n' nor a backspace.
pub write_visible : ℕ → ℕ → Terminal → Terminal
write_visible c colour t =
    let t' = terminal_putchar t.col t.row c colour t in
    if leb vga_width (u16 (t.col + 1))
    then record t' { col = 0; row = u16 (t.row + 1) }
    else record t' { col = u16 (t.col + 1) }

-- `terminal_col -= 1`, on an unsigned 16-bit word.
pub step_left : Terminal → Terminal
step_left t = record t { col = u16 (t.col + 2 ^ 16 - 1) }

-- The character that it writes, ' ', is visible.
pub terminal_backspace : Terminal → Terminal
terminal_backspace t =
    if t.row == 0 && t.col == 0
    then t
    else step_left (
        write_visible 0x20 15 (
          step_left (
            if t.col == 0
            then record t { row = u16 (t.row + 2 ^ 16 - 1); col = vga_width }
            else t)))

pub terminal_writechar : ℕ → ℕ → Terminal → Terminal
terminal_writechar c colour t =
    if c == 0x0a
    then record t { row = u16 (t.row + 1); col = 0 }
    else if c == 0x08
    then terminal_backspace t
    else write_visible c colour t

-- The string is the bytes before its terminator.
pub print : List ℕ → Terminal → Terminal
print [] t = t
print (c ∷ cs) t = print cs (terminal_writechar c 15 t)

-- A row of `terminal_initialize` from column `x` on, with `left` columns to go.
pub clear_row : ℕ → ℕ → ℕ → Terminal → Terminal
clear_row zero x y t = t
clear_row (suc left) x y t = clear_row left (x + 1) y (terminal_putchar x y 0x20 0 t)

pub clear_rows : ℕ → ℕ → Terminal → Terminal
clear_rows zero y t = t
clear_rows (suc left) y t = clear_rows left (y + 1) (clear_row vga_width 0 y t)

pub terminal_initialize : Terminal → Terminal
terminal_initialize t = clear_rows vga_height 0 (record t { row = 0; col = 0 })
