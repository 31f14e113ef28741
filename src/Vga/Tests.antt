-- ===== src/Vga/Tests.antt =====
-- The text console of src/c/vga_api.c at the end of its last row.
use implement_os.Prelude.{ℕ, ◌≡◌, refl, List, [], ◌∷◌, arith, true, ◌==◌, if◌then◌else◌}
use implement_os.Strings.{Bytes}
use implement_os.Strings.Text.{IsText}
use implement_os.Vga.{Vga, token, display_char}
use implement_os.Vga.Display.{behind_cursor}
use implement_os.Vga.Print.{display_char-stands}

abbrev corner : Vga
corner = record {
  vga_buff = λ a. 0x220;
  current_row = 24;
  current_col = 79;
  machine = record { device = λ log port. 0; log = []; interrupts = true };
}

-- "a", a line break and "b"
abbrev memory : Bytes
memory a = if a == 10 then b'a' else if a == 11 then b'\n' else if a == 12 then b'b' else 0

abbrev text : List ℕ
text = b'a' ∷ b'\n' ∷ b'b' ∷ []

text-IsText : IsText memory 10 text
text-IsText = (refl, λ e. omega arith, (refl, λ e. omega arith, (refl, λ e. omega arith, refl)))

display_char-stands_example :
    (display_char b'x' corner).1.vga_buff (behind_cursor (display_char b'x' corner).1) ≡ token b'x'
display_char-stands_example = display_char-stands b'x' corner (omega arith, omega arith) refl refl
