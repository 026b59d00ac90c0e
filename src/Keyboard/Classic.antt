-- ===== src/Keyboard/Classic.antt =====
-- src/keyboard/classic.c: from the scan codes of the PS/2 port to characters in the buffer.
use maer_os.Common.{
  ℕ, ◌+◌, Bool, not, ◌&&◌, Option, none, some, List, [], ◌∷◌, length, get_elem?, ltb, leb, ◌==◌,
  if◌then◌else◌, u8, bit_and,
}
use maer_os.Keyboard.{KeyboardBuffer, keyboard_push}

-- `keyboard_scan_set_one`
abbrev pub keyboard_scan_set_one : List ℕ
keyboard_scan_set_one =
    0x00 ∷ 0x1B ∷ 49 ∷ 50 ∷ 51 ∷ 52 ∷ 53 ∷ 54 ∷ 55 ∷ 56 ∷ 57 ∷ 48 ∷ 45 ∷ 61 ∷ 0x08 ∷ 9 ∷ 81 ∷ 87
    ∷ 69 ∷ 82 ∷ 84 ∷ 89 ∷ 85 ∷ 73 ∷ 79 ∷ 80 ∷ 91 ∷ 93 ∷ 0x0d ∷ 0x00 ∷ 65 ∷ 83 ∷ 68 ∷ 70 ∷ 71 ∷ 72
    ∷ 74 ∷ 75 ∷ 76 ∷ 59 ∷ 39 ∷ 96 ∷ 0x00 ∷ 92 ∷ 90 ∷ 88 ∷ 67 ∷ 86 ∷ 66 ∷ 78 ∷ 77 ∷ 44 ∷ 46 ∷ 47
    ∷ 0x00 ∷ 42 ∷ 0x00 ∷ 0x20 ∷ 0x00 ∷ 0x00 ∷ 0x00 ∷ 0x00 ∷ 0x00 ∷ 0x00 ∷ 0x00 ∷ 0x00 ∷ 0x00 ∷ 0x00
    ∷ 0x00 ∷ 55 ∷ 56 ∷ 57 ∷ 45 ∷ 52 ∷ 53 ∷ 54 ∷ 43 ∷ 49 ∷ 50 ∷ 51 ∷ 48 ∷ 46 ∷ []

-- The state of the caps lock is its being on. `none` is a read behind the end of the table.
unfoldable pub classic_keyboard_scancode_to_char : Bool → ℕ → Option ℕ
classic_keyboard_scancode_to_char caps scancode =
    if ltb (length keyboard_scan_set_one) scancode
    then some 0
    else elim (get_elem? keyboard_scan_set_one scancode) [
      | none ↦ none
      | some c ↦ some (if caps then c else if leb 65 c && leb c 90 then u8 (c + 32) else c)
    ]

-- `scancode & CLASSIC_KEYBOARD_KEY_RELEASED`
abbrev pub key_released : ℕ → Bool
key_released scancode = not (bit_and scancode 0x80 == 0)

abbrev pub toggled : Bool → ℕ → Bool
toggled caps scancode = if scancode == 0x3A then not caps else caps

-- The byte that the port gives, the caps lock and the buffer of the current process; the switches
-- to the kernel's and the task's pages have no part in it.
unfoldable pub classic_keyboard_handle_interrupt :
    ℕ → Bool → Option KeyboardBuffer → Option (Bool × Option KeyboardBuffer)
classic_keyboard_handle_interrupt scancode caps w =
    if key_released scancode
    then some (caps, w)
    else elim (classic_keyboard_scancode_to_char (toggled caps scancode) scancode) [
      | none ↦ none
      | some c ↦ some (toggled caps scancode, if c == 0 then w else keyboard_push c w)
    ]
