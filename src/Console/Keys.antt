-- ===== src/Console/Keys.antt =====
-- src/c/console.c: keys keep the screen's cursor on the screen, and the table's letters.
use mathlib.Core.Path.{subst}
use implement_os.Prelude.{
  not, ◌||◌, ℕ, ◌+◌, ◌-◌, ◌<◌, ◌≡◌, refl, sym, inl, inr, arith, ltb, leb, ◌&&◌, ◌==◌, false,
  Bool-cases,
}
use implement_os.Strings.{is_alpha}
use implement_os.Vga.{Vga, max_row, max_col, display_char}
use implement_os.Vga.Display.{IsOnScreen}
use implement_os.Vga.Print.{
  Printed, Printed-trans, display_char-Printed, display_char-row, erase-Printed,
}
use implement_os.Console.{
  Console, write_prompt, show_key, press_special, release, key_action, pressed_keys, get_or,
}

-- The cursor is in a row of the screen.
abbrev pub IsInRow : Vga → Type 0
IsInRow v = (v.current_row < max_row) × (v.current_col < max_col)

pub write_prompt-Printed :
    (v : Vga) → IsOnScreen v → Printed v (write_prompt v) × IsInRow (write_prompt v)
unfolding write_prompt
write_prompt-Printed v h =
    let p = display_char-Printed b'>' v h in
    let q = display_char-Printed b' ' (display_char b'>' v).1 p.on_screen in
    (
      Printed-trans p q,
      (display_char-row b' ' (display_char b'>' v).1 p.on_screen refl, q.on_screen.1),
    )

-- what a key leaves of the screen
abbrev Kept : Vga → Vga → Type 0
Kept v v' = Printed v v' × IsInRow v'

unchanged : (v : Vga) → IsInRow v → Kept v v
unchanged v h = (
  record {
    on_screen = (omega (arith, h.0), h.1);
    inside = λ a le. refl;
    log_kept = refl;
    interrupts_kept = refl;
  },
  h,
)

display_char-Kept :
    (c : ℕ) (v : Vga) → IsInRow v → (c == b'\n') ≡ false → Kept v (display_char c v).1
display_char-Kept c v h e =
    let s : IsOnScreen v = (omega (arith, h.0), h.1) in
    let p = display_char-Printed c v s in (p, (display_char-row c v s e, p.on_screen.1))

show_key-Kept : (c : ℕ) (s : Console) → IsInRow s.vga → Kept s.vga (show_key c s).vga
unfolding show_key
show_key-Kept c s h =
    elim (Bool-cases (not (is_alpha c) || s.is_left_shift || s.is_right_shift || s.is_capslock)) [
      | inr e ↦ rw e (display_char-Kept (c + 32) s.vga h (ground arith))
      | inl e ↦ elim (Bool-cases (c == 0x8)) [
        | inl f ↦ let (p, r) = erase-Printed s.vga h.0 h.1 in rw (e, f) (p, (r, p.on_screen.1))
        | inr f ↦ elim (Bool-cases (c == b'\n')) [
          | inr g ↦ rw (e, f, g) (display_char-Kept c s.vga h g)
          | inl g ↦
              let p = display_char-Printed c s.vga (omega (arith, h.0), h.1) in
              let (q, r) = write_prompt-Printed (display_char c s.vga).1 p.on_screen in
              rw (e, f, g) (Printed-trans p q, r)
        ]
      ]
    ]

special_vga : (scancode : ℕ) (s : Console) → (press_special scancode s).vga ≡ s.vga
unfolding press_special
special_vga scancode s = ground arith

release_vga : (scancode : ℕ) (s : Console) → (release scancode s).vga ≡ s.vga
unfolding release
release_vga scancode s = ground arith

-- Whatever scancode arrives and whatever stands in memory behind the key table, CON_key_action
-- with the cursor in a row of the screen leaves it in a row, writes nothing outside the
-- screen's memory, and keeps the log of the ports and the interrupt flag.
pub key_action-Kept :
    (beyond : ℕ → ℕ) (scancode : ℕ) (s : Console)
    → IsInRow s.vga
    → Printed s.vga (key_action beyond scancode s).vga × IsInRow (key_action beyond scancode s).vga
unfolding key_action
key_action-Kept beyond scancode s h =
    let c : ℕ = get_or beyond pressed_keys (scancode - 1) in
    elim (Bool-cases (ltb 0 scancode && leb scancode 0x58)) [
      | inr e ↦ rw e (subst (Kept s.vga) (sym (release_vga scancode s)) (unchanged s.vga h))
      | inl e ↦ elim (Bool-cases (c == 0)) [
        | inl f ↦ rw (e, f) (subst (Kept s.vga) (sym (special_vga scancode s)) (unchanged s.vga h))
        | inr f ↦ rw (e, f) (show_key-Kept c s h)
      ]
    ]
