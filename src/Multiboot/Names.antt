-- ===== src/Multiboot/Names.antt =====
-- src/c/multiboot_parser.c: the parsers that print the command line and the boot loader's name.
use implement_os.Prelude.{ℕ, zero, suc, ◌+◌, ◌%◌, ◌^◌, Option, none, some, ◌≡◌, List, arith}
use implement_os.Strings.{Bytes}
use implement_os.Serial.Refine.{IsReady}
use implement_os.Vga.Display.{IsOnScreen}
use implement_os.Printk.Format.{Piece}
use implement_os.Serial.Text.{write_c-Written}
use implement_os.Terminal.{Terminal, with_port, show, print_char, printk}
use implement_os.Terminal.Print.{
  Sound, Sound-refl, Sound-trans, show-Sound, Written-Sound, IsCall, printk-Says,
}

-- `_print_str`, with the characters that are left
unfoldable pub print_str : (left str : ℕ) → Bytes → Terminal → Terminal
print_str zero str m t = t
print_str (suc left) str m t = print_str left (str + 1) m (print_char (m str) t)

-- `parse_cmd` and `parse_boot_name`, which differ in the format that they print first
unfoldable pub parse_text :
    (fuel : ℕ) (array : ℕ → ℕ → ℕ) (args : ℕ → ℕ) (rounds fmt size str : ℕ)
    → Bytes
    → Terminal
    → Option (Bytes × Terminal)
unfolding print_str
parse_text fuel array args rounds fmt size str m t = elim (printk fuel array args rounds fmt m t) [
  | none ↦ none
  | some (n, m', t') ↦ some (m', print_char b'\n' (print_str size str m' t'))
]

print_char-Sound :
    (c : ℕ) (t : Terminal) → IsReady t.port → IsOnScreen t.vga → Sound t (print_char c t)
print_char-Sound c t r on =
    let p = show-Sound c t r on in
    Sound-trans p (
      Written-Sound (show c t) _ p.ready p.on_screen
        (write_c-Written (c % 2 ^ 8) (with_port (show c t)) (omega arith)))

print_str-Sound :
    (left str : ℕ) (m : Bytes) (t : Terminal)
    → IsReady t.port
    → IsOnScreen t.vga
    → Sound t (print_str left str m t)
unfolding print_str
print_str-Sound zero str m t r on = Sound-refl t r on
print_str-Sound (suc left) str m t r on =
    let p = print_char-Sound (m str) t r on in
    Sound-trans p (print_str-Sound left (str + 1) m (print_char (m str) t) p.ready p.on_screen)

parse_text_runs :
    (fuel : ℕ) (array : ℕ → ℕ → ℕ) (args : ℕ → ℕ) (rounds fmt size str n : ℕ) (m m' : Bytes)
    (t t' : Terminal)
    → printk fuel array args rounds fmt m t ≡ some (n, m', t')
    → parse_text fuel array args rounds fmt size str m t
      ≡ some (m', print_char b'\n' (print_str size str m' t'))
unfolding parse_text
parse_text_runs fuel array args rounds fmt size str n m m' t t' e = rw (parse_text, e)

-- With a format that can be printed, a ready driver and the cursor on the screen, the parsers of
-- texts end, whatever bytes the text has: the driver stays ready, the cursor on the screen, and
-- nothing outside the screen's memory is written.
pub parse_text-Sound :
    {fuel rounds limit fmt : ℕ} {array : ℕ → ℕ → ℕ} {args : ℕ → ℕ} {m : Bytes} {ps : List Piece}
    → IsCall fuel rounds limit fmt array args m ps
    → (size str : ℕ) (t : Terminal) → IsReady t.port
    → IsOnScreen t.vga
    → (m' : Bytes) × (t' : Terminal) × (parse_text fuel array args rounds fmt size str m t
        ≡ some (m', t'))
      × Sound t t'
parse_text-Sound {fuel} {rounds} {fmt = fmt} {array} {args} {m} call size str t r on =
    let (xs, n, m', t', runs, says, same, p, _) = printk-Says call t r on in
    let q = print_str-Sound size str m' t' p.ready p.on_screen in
    (
      m',
      print_char b'\n' (print_str size str m' t'),
      parse_text_runs fuel array args rounds fmt size str n m m' t t' runs,
      Sound-trans p
          (Sound-trans q (print_char-Sound b'\n' (print_str size str m' t') q.ready q.on_screen)),
    )
