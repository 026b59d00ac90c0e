-- ===== src/Keyboard/Letters.antt =====
-- The characters that the scan codes give.
use maer_os.Common.{
  ℕ, ◌+◌, ◌<◌, ◌≡◌, ◌≢◌, refl, Bool, true, false, Option, none, some, arith, leb, ◌&&◌,
  if◌then◌else◌, u8, get_or, lt→ltb, le→ltb, get_elem?-get_or, ap, ap₂, subst, sym, ◌∙◌, if_eq,
  if_ne, ◌==◌, not, ℕ_discrete,
}
use maer_os.Keyboard.{KeyboardBuffer, keyboard_push}
use maer_os.Keyboard.Classic.{
  keyboard_scan_set_one, key_released, classic_keyboard_handle_interrupt,
  classic_keyboard_scancode_to_char,
}

small_letter :
    (c : ℕ)
    → (if leb 65 c && leb c 90 then u8 (c + 32) else c)
      ≡ (if leb 65 c && leb c 90 then c + 32 else c)
small_letter c = ground arith

cased :
    (caps : Bool) (c : ℕ)
    → (if caps then c else if leb 65 c && leb c 90 then u8 (c + 32) else c)
      ≡ (if caps then c else if leb 65 c && leb c 90 then c + 32 else c)
cased true c = refl
cased false c = small_letter c

-- The character of a scan code in the table, with the caps lock on or off.
abbrev pub letter : Bool → ℕ → ℕ
letter caps scancode =
    let c = get_or keyboard_scan_set_one scancode 0 in
    if caps then c else if leb 65 c && leb c 90 then c + 32 else c

-- The lookup of a scan code reads behind the end of the table exactly at the scan code that is its
-- length; below it gives the table's character, in lower case unless the caps lock is on, and above
-- it 0.
pub classic_keyboard_scancode_to_char_lem :
    (caps : Bool) (scancode : ℕ)
    → (scancode ≡ 82 → classic_keyboard_scancode_to_char caps scancode ≡ none)
      × (82 < scancode → classic_keyboard_scancode_to_char caps scancode ≡ some 0)
      × (scancode < 82
          → classic_keyboard_scancode_to_char caps scancode ≡ some (letter caps scancode))
unfolding classic_keyboard_scancode_to_char
classic_keyboard_scancode_to_char_lem caps scancode = (
  λ e. rw e refl,
  λ h. let b = lt→ltb 82 scancode h in rw (b, classic_keyboard_scancode_to_char) refl,
  λ h.
      let b = le→ltb 82 scancode (omega arith) in
      let g = get_elem?-get_or keyboard_scan_set_one scancode 0 h in
      rw (b, classic_keyboard_scancode_to_char)
        (rw g (ap some (cased caps (get_or keyboard_scan_set_one scancode 0)))),
)

push_or_skip :
    (c : ℕ) (w : Option KeyboardBuffer)
    → (if c == 0 then w else keyboard_push c w) ≡ keyboard_push c w
unfolding keyboard_push
push_or_skip c none = elim (ℕ_discrete c 0) [ yes e ↦ if_eq c 0 _ _ e | no n ↦ if_ne c 0 _ _ n ]
push_or_skip c (some k) = elim (ℕ_discrete c 0) [
  | yes e ↦ if_eq c 0 _ _ e ∙ sym (if_eq c 0 _ _ e)
  | no n ↦ if_ne c 0 _ _ n
]

caps_key :
    (caps : Bool) (w : Option KeyboardBuffer)
    → classic_keyboard_handle_interrupt 0x3A caps w ≡ some (not caps, keyboard_push 0 w)
unfolding classic_keyboard_handle_interrupt classic_keyboard_scancode_to_char
caps_key true w = ap (λ v. some (false, v)) (push_or_skip 0 w)
caps_key false w = ap (λ v. some (true, v)) (push_or_skip 0 w)

-- The handler of the keyboard interrupt ignores the release of a key, switches the caps lock on its
-- key alone, and pushes the character of every other key of the table.
pub classic_keyboard_handle_interrupt_lem :
    (scancode : ℕ) (caps : Bool) (w : Option KeyboardBuffer)
    → (key_released scancode ≡ true
        → classic_keyboard_handle_interrupt scancode caps w ≡ some (caps, w))
      × (scancode ≡ 0x3A
          → classic_keyboard_handle_interrupt scancode caps w ≡ some (not caps, keyboard_push 0 w))
      × (key_released scancode ≡ false
          → scancode ≢ 0x3A
          → scancode < 82
          → classic_keyboard_handle_interrupt scancode caps w
            ≡ some (caps, keyboard_push (letter caps scancode) w))
unfolding classic_keyboard_handle_interrupt
classic_keyboard_handle_interrupt_lem scancode caps w = (
  λ r. rw r refl,
  λ e.
      subst (λ n. classic_keyboard_handle_interrupt n caps w ≡ some (not caps, keyboard_push 0 w))
        (sym e) (caps_key caps w),
  λ r n h.
      let same = if_ne scancode 0x3A (not caps) caps n in
      let c = (classic_keyboard_scancode_to_char_lem caps scancode).2 h in
      rw (r, same, c) (ap₂ (λ b v. some (b, v)) same (push_or_skip (letter caps scancode) w)),
)
