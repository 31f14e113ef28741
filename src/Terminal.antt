-- ===== src/Terminal.antt =====
-- src/c/vga_api.c and src/c/serial.c: `printk` and `printkln`, which print on the screen and then
-- through the serial port, and the port's interrupt. Both parts act on one machine, which stands in
-- the screen's state; the one in the driver's state is set to it before each use.
pub mod Print
pub mod Port
mod Tests
use implement_os.Prelude.{
  ℕ, zero, suc, ◌+◌, ◌/◌, ◌%◌, ◌^◌, ◌&&◌, Bool, true, false, Option, none, some, ◌==◌,
  if◌then◌else◌,
}
use implement_os.Prelude.State.{M}
use implement_os.Machine.{Machine, inb}
use implement_os.Strings.{Bytes, to_string}
use implement_os.Vga.{Vga, char_at, display_char, display_str}
use implement_os.Console.{write_prompt}
use implement_os.Serial
use implement_os.Serial.{Serial, com1_iir, com1_lsr, trigger_write}
use implement_os.Printk.{Printer, screen, vprintk, widen}

pub record Terminal : Type 0 where
  pub vga : Vga
  pub port : Serial

-- the driver on the machine, and the machine that it leaves
abbrev pub with_port : Terminal → Serial
with_port t = record t.port { machine = t.vga.machine }

abbrev pub set_port : Terminal → Serial → Terminal
set_port t s = record { vga = record t.vga { machine = s.machine }; port = s }

abbrev pub show : ℕ → Terminal → Terminal
show c t = record t { vga = (display_char c t.vga).1 }

abbrev pub send : ℕ → Terminal → Terminal
send c t = set_port t (Serial.write_c (c % 2 ^ 8) (with_port t)).1

-- `SER_write_c` and `SER_write_str`; a `char` is a byte.
abbrev pub serial : Printer Serial
serial = record {
  print_c = λ c s. let (done, s') = Serial.write_c (c % 2 ^ 8) s in (if done then 1 else 0, s');
  print_str = Serial.write_str;
}

-- whether the cursor's row begins with the two characters of the prompt
unfoldable pub is_prompt : Vga → Bool
is_prompt v = char_at 0 v.current_row v == b'>' && char_at 1 v.current_row v == b' '

-- the line break before a message, if the row is a prompt's
unfoldable pub leave_prompt : Terminal → Terminal
leave_prompt t = if is_prompt t.vga then show b'\n' t else t

module _ (fuel : ℕ) (array : (size c : ℕ) → ℕ) (args : ℕ → ℕ) where
  unfoldable pub print_screen : ℕ → (fmt : ℕ) → Bytes → Terminal → Option (ℕ × Bytes × Terminal)
  print_screen rounds fmt m t = elim (vprintk screen fuel array args rounds fmt m t.vga) [
    | none ↦ none
    | some (c_count, m', v) ↦ some (c_count, m', record t { vga = v })
  ]

  unfoldable pub print_serial : ℕ → (fmt : ℕ) → Bytes → Terminal → Option (Bytes × Terminal)
  print_serial rounds fmt m t = elim (vprintk serial fuel array args rounds fmt m (with_port t)) [
    | none ↦ none
    | some (c_count, m', s) ↦ some (m', set_port t s)
  ]

  -- `printk`
  unfoldable pub printk : ℕ → (fmt : ℕ) → Bytes → Terminal → Option (ℕ × Bytes × Terminal)
  printk rounds fmt m t = elim (print_screen rounds fmt m (leave_prompt t)) [
    | none ↦ none
    | some (c_count, m', t') ↦ elim (print_serial rounds fmt m' t') [
      | none ↦ none
      | some (m'', t'') ↦ some (c_count, m'', t'')
    ]
  ]

  -- `printkln`
  unfoldable pub printkln : ℕ → (fmt : ℕ) → Bytes → Terminal → Option (ℕ × Bytes × Terminal)
  printkln rounds fmt m t = elim (print_screen rounds fmt m (leave_prompt t)) [
    | none ↦ none
    | some (c_count, m', t') ↦ elim (print_serial rounds fmt m' (show b'\n' t')) [
      | none ↦ none
      | some (m'', t'') ↦
          let t3 = send b'\n' t'' in
          some (
            c_count + 1,
            m'',
            if is_prompt t.vga then record t3 { vga = write_prompt t3.vga } else t3,
          )
    ]
  ]

-- `VGA_print_char`
abbrev pub print_char : ℕ → Terminal → Terminal
print_char c t = send c (show c t)

-- `VGA_print_str`
unfoldable pub print_str : ℕ → (str : ℕ) → Bytes → Terminal → Option Terminal
print_str fuel str m t = elim (display_str fuel str m t.vga) [
  | none ↦ none
  | some (n, v) ↦ elim (Serial.write_str fuel str m (with_port (record t { vga = v }))) [
    | none ↦ none
    | some (n', s) ↦ some (set_port (record t { vga = v }) s)
  ]
]

-- A number goes to the array at `s` as a text, and is displayed from there.
unfoldable pub display_number : ℕ → (s i base : ℕ) → Bytes → Vga → Option (Bytes × Vga)
display_number fuel s i base m v = elim (to_string fuel i s base m) [
  | none ↦ none
  | some m' ↦ elim (display_str fuel s m' v) [ none ↦ none | some (n, v') ↦ some (m', v') ]
]

-- `VGA_print_uchar`, `VGA_print_short` and `VGA_print_long_hex`
abbrev pub print_uchar : ℕ → (str c : ℕ) → Bytes → Vga → Option (Bytes × Vga)
print_uchar fuel str c = display_number fuel str (c % 2 ^ 8) 10

abbrev pub print_short : ℕ → (str s : ℕ) → Bytes → Vga → Option (Bytes × Vga)
print_short fuel str s = display_number fuel str (widen 16 s) 10

abbrev pub print_long_hex : ℕ → (str l : ℕ) → Bytes → Vga → Option (Bytes × Vga)
print_long_hex fuel str l = display_number fuel str (l % 2 ^ 64) 16

-- `printkln_no_serial` prints a line break and nothing of its format.
abbrev pub printkln_no_serial : Terminal → Terminal
printkln_no_serial = show b'\n'

abbrev pub line_if : Bool → Terminal → Terminal
line_if b t = if b then printkln_no_serial t else t

-- the messages of the status bits from bit `i` on
unfoldable pub report_bits : ℕ → (i lsr : ℕ) → Terminal → Terminal
report_bits zero i lsr t = t
report_bits (suc n) i lsr t = report_bits n (i + 1) lsr (line_if (lsr / 2 ^ i % 2 == 1) t)

abbrev pub ask : (port : ℕ) → Terminal → ℕ × Terminal
ask port t =
    let (x, m) = inb port t.vga.machine in (x, record t { vga = record t.vga { machine = m } })

unfoldable pub read_lsr : Terminal → Terminal
unfolding inb
read_lsr t = let (lsr, t') = ask com1_lsr t in report_bits 8 0 lsr t'

-- `SER_interrupt`
unfoldable pub ser_interrupt : Terminal → Terminal
unfolding inb
ser_interrupt t =
    let (iir, t') = ask com1_iir t in
    if iir / 2 == 0b001
    then set_port t' (trigger_write (with_port t')).1
    else if iir / 2 == 0b011
    then read_lsr (printkln_no_serial t')
    else printkln_no_serial t'
