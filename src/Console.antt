-- ===== src/Console.antt =====
-- src/c/console.c: what the keys do. The table has 83 keys and is read up to the 88th: what stands
-- behind it in memory is a parameter.
pub mod Keys
mod Tests
use implement_os.Prelude.{
  ℕ, zero, suc, ◌+◌, ◌-◌, ◌%◌, ◌^◌, Bool, true, false, not, ◌&&◌, ◌||◌, List, [], ◌∷◌, ltb, leb,
  ◌==◌, if◌then◌else◌,
}
use implement_os.Strings.{is_alpha}
use implement_os.Vga.{Vga, erase, display_char}

abbrev pub pressed_keys : List ℕ
pressed_keys =
    0x1b ∷ b'1' ∷ b'2' ∷ b'3' ∷ b'4' ∷ b'5' ∷ b'6' ∷ b'7' ∷ b'8' ∷ b'9' ∷ b'0' ∷ b'-' ∷ b'=' ∷ 0x8
    ∷ 0x9 ∷ b'Q' ∷ b'W' ∷ b'E' ∷ b'R' ∷ b'T' ∷ b'Y' ∷ b'U' ∷ b'I' ∷ b'O' ∷ b'P' ∷ b'[' ∷ b']'
    ∷ b'\n' ∷ 0x0 ∷ b'A' ∷ b'S' ∷ b'D' ∷ b'F' ∷ b'G' ∷ b'H' ∷ b'J' ∷ b'K' ∷ b'L' ∷ b';' ∷ b'\''
    ∷ b'`' ∷ 0x0 ∷ b'\\' ∷ b'Z' ∷ b'X' ∷ b'C' ∷ b'V' ∷ b'B' ∷ b'N' ∷ b'M' ∷ b',' ∷ b'.' ∷ b'/' ∷ 0x0
    ∷ b'*' ∷ 0x0 ∷ b' ' ∷ 0x0 ∷ 0x0 ∷ 0x0 ∷ 0x0 ∷ 0x0 ∷ 0x0 ∷ 0x0 ∷ 0x0 ∷ 0x0 ∷ 0x0 ∷ 0x0 ∷ 0x0
    ∷ 0x0 ∷ b'7' ∷ b'8' ∷ b'9' ∷ b'-' ∷ b'4' ∷ b'5' ∷ b'6' ∷ b'+' ∷ b'1' ∷ b'2' ∷ b'3' ∷ b'0' ∷ b'.'
    ∷ []

-- `a[i]`, and `beyond` behind the array
abbrev pub get_or : (ℕ → ℕ) → List ℕ → ℕ → ℕ
get_or beyond [] i = beyond i
get_or beyond (x ∷ xs) zero = x
get_or beyond (x ∷ xs) (suc i) = get_or (λ j. beyond (suc j)) xs i

-- `is_capslock`, `is_left_shift` and `is_right_shift`, with the screen
pub record Console : Type 0 where
  pub is_capslock : Bool
  pub is_left_shift : Bool
  pub is_right_shift : Bool
  pub vga : Vga

-- `CON_write_prompt`: `VGA_display_str` of `CONSOLE_PROMPT`, its two characters one by one
unfoldable pub write_prompt : Vga → Vga
write_prompt v = (display_char b' ' (display_char b'>' v).1).1

-- the body of the first test for a key that is not 0
unfoldable pub show_key : ℕ → Console → Console
show_key c s =
    if not (is_alpha c) || s.is_left_shift || s.is_right_shift || s.is_capslock
    then (if c == 0x8
        then record s { vga = (erase s.vga).1 }
        else (let v = (display_char c s.vga).1 in
            record s { vga = if c == b'\n' then write_prompt v else v }))
    else record s { vga = (display_char (c + 32) s.vga).1 }

-- a pressed key that is 0 in the table
unfoldable pub press_special : ℕ → Console → Console
press_special scancode s =
    if scancode == 0x2a
    then record s { is_left_shift = true }
    else if scancode == 0x36
    then record s { is_right_shift = true }
    else if scancode == 0x3a
    then record s { is_capslock = not s.is_capslock }
    else s

unfoldable pub release : ℕ → Console → Console
release scancode s =
    if scancode == 0xaa
    then record s { is_left_shift = false }
    else if scancode == 0xb6
    then record s { is_right_shift = false }
    else s

-- `CON_key_action`
unfoldable pub key_action : (beyond : ℕ → ℕ) → ℕ → Console → Console
key_action beyond scancode s =
    let c = get_or beyond pressed_keys (scancode - 1) in
    if ltb 0 scancode && leb scancode 0x58
    then (if c == 0 then press_special scancode s else show_key c s)
    else release scancode s
