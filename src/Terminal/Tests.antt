-- ===== src/Terminal/Tests.antt =====
-- src/c/vga_api.c: the message `%d%s%hx` of -42, a text and 0xff in a row that begins with the prompt.
use implement_os.Prelude.{
  ℕ, ◌-◌, ◌^◌, ◌≡◌, refl, arith, true, some, List, [], ◌∷◌, replicate, ◌==◌, if◌then◌else◌,
}
use implement_os.Machine.{Machine}
use implement_os.Strings.{Bytes}
use implement_os.Vga.{display_char}
use implement_os.Console.{write_prompt}
use implement_os.Serial.{send}
use implement_os.Serial.Refine.{IsReady}
use implement_os.Printk.{screen, array_size}
use implement_os.Printk.Format.{Piece, number, sized, text, signed, short, hexadecimal_short, Says}
use implement_os.Printk.Refine.{Agrees}
use implement_os.Printk.Screen.{puts}
use implement_os.Terminal.{Terminal, is_prompt, leave_prompt, printk, printkln}
use implement_os.Terminal.Print.{Sound, IsCall, printk-Says, printkln-Says}

-- The format stands at 100, and the text `ok` at 200.
abbrev memory : Bytes
memory a =
    if a == 100
    then b'%'
    else if a == 101
    then b'd'
    else if a == 102
    then b'%'
    else if a == 103
    then b's'
    else if a == 104
    then b'%'
    else if a == 105
    then b'h'
    else if a == 106
    then b'x'
    else if a == 200
    then b'o'
    else if a == 201
    then b'k'
    else 0

abbrev args : ℕ → ℕ
args i = if i == 0 then 2 ^ 64 - 42 else if i == 1 then 200 else 0x100ff

abbrev arrays : ℕ → ℕ → ℕ
arrays size c = 1000

abbrev pieces : List Piece
pieces = number b'd' (2 ^ 64 - 42) 10 ∷ text (b'o' ∷ b'k' ∷ []) ∷ sized b'h' b'x' 0xff 16 ∷ []

message-IsCall : IsCall 1000 10 300 100 arrays args memory pieces
unfolding array_size
message-IsCall = record {
  arrays = λ size c. omega arith;
  format = (
    omega arith,
    refl,
    refl,
    signed,
    (omega arith, omega arith, omega arith, omega arith, (omega arith, omega arith)),
    (
      omega arith,
      refl,
      refl,
      (refl, (λ e. omega arith), (refl, (λ e. omega arith), refl)),
      omega arith,
      omega arith,
      (
        omega arith,
        refl,
        refl,
        refl,
        hexadecimal_short 16 short,
        (omega arith, omega arith, omega arith, omega arith, (omega arith, omega arith)),
        (omega arith, refl),
      ),
    ),
  );
  enough = omega arith;
}

abbrev terminal : Terminal
terminal = record {
  vga = record {
    vga_buff = λ a. if a == 80 then b'>' else if a == 81 then b' ' else 0;
    current_row = 1;
    current_col = 2;
    machine = record { device = λ log port. 0x20; log = []; interrupts = true };
  };
  port = record {
    serial_buffer = record {
      buff = replicate 33 7;
      prod_index = 1;
      cons_index = 32;
      consume_func = send;
    };
    machine = record { device = λ log port. 0; log = []; interrupts = true };
  };
}

port-IsReady : IsReady terminal.port
port-IsReady = record {
  ring = record { storage = refl; prod_in = omega arith; cons_in = omega arith };
  sends = refl;
  bytes = (omega arith, (omega arith, tt));
}

printk-Says_example :
    (xs : List ℕ) × (n : ℕ) × (m' : Bytes) × (t' : Terminal) × (printk 1000 arrays args 10 100
        memory terminal
      ≡ some (n, m', t'))
    × Says args 0 pieces xs
    × (t'.vga ≡ record (puts screen xs (leave_prompt terminal).vga) { machine = t'.vga.machine })
    × Sound terminal t'
    × Agrees 300 memory m'
printk-Says_example = printk-Says message-IsCall terminal port-IsReady (omega arith, omega arith)

printkln-Says_example :
    (xs : List ℕ) × (n : ℕ) × (m' : Bytes) × (t' : Terminal) × (machine : Machine) × (printkln 1000
        arrays args 10 100 memory terminal
      ≡ some (n, m', t'))
    × Says args 0 pieces xs
    × (t'.vga ≡ (
        let shown = record (display_char b'\n' (puts screen xs (leave_prompt terminal).vga)).1 {
          machine = machine;
        } in
        if is_prompt terminal.vga then write_prompt shown else shown))
    × Sound terminal t'
    × Agrees 300 memory m'
printkln-Says_example =
    printkln-Says message-IsCall terminal port-IsReady (omega arith, omega arith)
