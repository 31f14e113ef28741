-- ===== src/Terminal/Print.antt =====
-- src/c/vga_api.c: `printk` and `printkln` of a format, on the screen and through the port.
use implement_os.Prelude.{
  ℕ, ◌+◌, ◌%◌, ◌^◌, ◌<◌, ◌≤◌, ◌≡◌, refl, ap, ◌∙◌, arith, Bool-cases, inl, inr, some, List, length,
  if◌then◌else◌,
}
use implement_os.Machine.{Machine}
use implement_os.Strings.{Bytes}
use implement_os.Vga.{Vga, display_char}
use implement_os.Vga.Display.{IsOnScreen, Inside}
use implement_os.Vga.Print.{Printed, display_char-Printed}
use implement_os.Console.{write_prompt}
use implement_os.Console.Keys.{write_prompt-Printed}
use implement_os.Serial.{Serial}
use implement_os.Serial.Refine.{IsReady}
use implement_os.Serial.Text.{
  Written, Written-refl, Written-trans, write_c-Written, write_str-Written,
}
use implement_os.Printk.{screen}
use implement_os.Printk.Format.{Piece, IsFormat, Says}
use implement_os.Printk.Refine.{IsPrinter, Agrees, vprintk-Says}
use implement_os.Printk.Screen.{puts, Shown, screen-IsPrinter, puts-Printed, Printed-refl}
use implement_os.Terminal.{
  Terminal, with_port, set_port, show, send, serial, is_prompt, leave_prompt, print_screen,
  print_serial, printk, printkln,
}

pub serial-IsPrinter : IsPrinter serial (λ xs. Written)
serial-IsPrinter = record {
  nothing = Written-refl;
  parts = λ xs ys s t u. Written-trans;
  one = λ c s. write_c-Written (c % 2 ^ 8) s (omega arith);
  prints = λ fuel a m xs s t lt.
      let (k, s', runs, _, w) = write_str-Written fuel a m xs s t lt in (k + 1, s', runs, w);
}

-- what every print leaves
pub record Sound (t t' : Terminal) : Type 0 where
  pub on_screen : IsOnScreen t'.vga
  pub inside : Inside t.vga t'.vga
  pub ready : IsReady t'.port
  pub interrupts_kept : t'.vga.machine.interrupts ≡ t.vga.machine.interrupts

pub Sound-trans : {t u w : Terminal} → Sound t u → Sound u w → Sound t w
Sound-trans p q = record {
  on_screen = q.on_screen;
  inside = λ a le. q.inside a le ∙ p.inside a le;
  ready = q.ready;
  interrupts_kept = q.interrupts_kept ∙ p.interrupts_kept;
}

-- printing on the screen alone
pub Printed-Sound :
    (t : Terminal) (v : Vga) → IsReady t.port → Printed t.vga v → Sound t (record t { vga = v })
Printed-Sound t v r p = record {
  on_screen = p.on_screen;
  inside = p.inside;
  ready = r;
  interrupts_kept = p.interrupts_kept;
}

with_port-IsReady : (t : Terminal) → IsReady t.port → IsReady (with_port t)
with_port-IsReady t r = record { ring = r.ring; sends = r.sends; bytes = r.bytes }

-- and through the port alone
pub Written-Sound :
    (t : Terminal) (s : Serial)
    → IsReady t.port
    → IsOnScreen t.vga
    → Written (with_port t) s
    → Sound t (set_port t s)
Written-Sound t s r on w = record {
  on_screen = on;
  inside = λ a le. refl;
  ready = w.ready (with_port-IsReady t r);
  interrupts_kept = w.interrupts_kept (with_port-IsReady t r);
}

pub show-Sound : (c : ℕ) (t : Terminal) → IsReady t.port → IsOnScreen t.vga → Sound t (show c t)
show-Sound c t r on = Printed-Sound t (display_char c t.vga).1 r (display_char-Printed c t.vga on)

pub Sound-refl : (t : Terminal) → IsReady t.port → IsOnScreen t.vga → Sound t t
Sound-refl t r on = Printed-Sound t t.vga r (Printed-refl t.vga on)

leave_prompt-Sound : (t : Terminal) → IsReady t.port → IsOnScreen t.vga → Sound t (leave_prompt t)
unfolding leave_prompt
leave_prompt-Sound t r on = elim (Bool-cases (is_prompt t.vga)) [
  | inl e ↦ rw e (show-Sound b'\n' t r on)
  | inr e ↦ rw e (Sound-refl t r on)
]

-- A format below `limit`, with the arrays of the conversions from there on.
pub record IsCall (fuel rounds limit fmt : ℕ) (array : ℕ → ℕ → ℕ) (args : ℕ → ℕ) (m : Bytes)
    (ps : List Piece) : Type 0 where
  pub arrays : (size c : ℕ) → limit ≤ array size c
  pub format : IsFormat fuel limit m args 0 fmt ps
  pub enough : length ps < rounds

module _ {fuel rounds limit fmt : ℕ} {array : ℕ → ℕ → ℕ} {args : ℕ → ℕ} {m : Bytes}
    {ps : List Piece} (call : IsCall fuel rounds limit fmt array args m ps) where
  print_screen_lem :
      (t : Terminal)
      → IsReady t.port
      → IsOnScreen t.vga
      → (xs : List ℕ) × (n : ℕ) × (m' : Bytes) × (print_screen fuel array args rounds fmt m t
          ≡ some (n, m', record t { vga = puts screen xs t.vga }))
        × Says args 0 ps xs
        × Agrees limit m m'
        × Sound t (record t { vga = puts screen xs t.vga })
  unfolding print_screen
  print_screen_lem t r on =
      let (xs, n, m', v, runs, says, shown, same) =
        vprintk-Says screen Shown screen-IsPrinter fuel array args rounds limit fmt m m ps t.vga
          call.arrays (λ b h. refl) call.format call.enough in
      (
        xs,
        n,
        m',
        rw (print_screen, runs) (ap (λ w. some (n, m', record t { vga = w })) shown),
        says,
        same,
        Printed-Sound t (puts screen xs t.vga) r (puts-Printed xs t.vga on),
      )

  print_serial_lem :
      (m1 : Bytes) (t : Terminal)
      → Agrees limit m m1
      → IsReady t.port
      → IsOnScreen t.vga
      → (m' : Bytes) × (s : Serial) × (print_serial fuel array args rounds fmt m1 t
          ≡ some (m', set_port t s))
        × Sound t (set_port t s)
        × Agrees limit m m'
  unfolding print_serial
  print_serial_lem m1 t same r on =
      let (xs, n, m', s, runs, _, w, kept) =
        vprintk-Says serial (λ xs. Written) serial-IsPrinter fuel array args rounds limit fmt m m1
          ps (with_port t) call.arrays same call.format call.enough in
      (m', s, rw (print_serial, runs), Written-Sound t s r on w, kept)

  -- printk prints what its format says, with no line break behind it.
  pub printk-Says :
      (t : Terminal)
      → IsReady t.port
      → IsOnScreen t.vga
      → (xs : List ℕ) × (n : ℕ) × (m' : Bytes) × (t' : Terminal) × (printk fuel array args rounds
            fmt m t
          ≡ some (n, m', t'))
        × Says args 0 ps xs
        × (t'.vga ≡ record (puts screen xs (leave_prompt t).vga) { machine = t'.vga.machine })
        × Sound t t'
        × Agrees limit m m'
  unfolding printk
  printk-Says t r on =
      let first = leave_prompt-Sound t r on in
      let (xs, n, m1, runs, says, same, second) =
        print_screen_lem (leave_prompt t) first.ready first.on_screen in
      let (m2, s, sends, third, kept) =
        print_serial_lem m1 (record (leave_prompt t) { vga = puts screen xs (leave_prompt t).vga })
          same second.ready second.on_screen in
      (
        xs,
        n,
        m2,
        set_port (record (leave_prompt t) { vga = puts screen xs (leave_prompt t).vga }) s,
        rw (printk, runs, sends),
        says,
        refl,
        Sound-trans first (Sound-trans second third),
        kept,
      )

  -- printkln of a format of plain characters, %%, %c, %s and numbers with or without a length,
  -- with fuel for its pieces, its texts and its numbers, ends. What it shows on the screen,
  -- behind the line break that leaves a prompt's row, is what the format says: each number, the
  -- lowest 64 bits of its argument or as many as its length says with their sign for d, as
  -- digits of its base, 10 for d and u, 16 for x and p and 2 for b, that read as it, one that
  -- is negative in base 10 as its magnitude behind a minus sign, each string and character as
  -- it is, then a line break, and behind a prompt a new prompt. The cursor stays on the screen
  -- or at the start of the row below it, none of the screen's words outside the screen is
  -- written and nothing of the memory below the arrays for the numbers, the serial driver stays
  -- ready and the interrupt flag is kept. It holds when the driver is ready, each number's text
  -- fits into the array of its conversion, and the arrays for the numbers lie above the format
  -- and its strings.
  pub printkln-Says :
      (t : Terminal)
      → IsReady t.port
      → IsOnScreen t.vga
      → (xs : List ℕ) × (n : ℕ) × (m' : Bytes) × (t' : Terminal) × (machine : Machine) × (printkln
            fuel array args rounds fmt m t
          ≡ some (n, m', t'))
        × Says args 0 ps xs
        × (t'.vga ≡ (
            let shown = record (display_char b'\n' (puts screen xs (leave_prompt t).vga)).1 {
              machine = machine;
            } in
            if is_prompt t.vga then write_prompt shown else shown))
        × Sound t t'
        × Agrees limit m m'
  unfolding printkln
  printkln-Says t r on =
      let first = leave_prompt-Sound t r on in
      let (xs, n, m1, runs, says, same, second) =
        print_screen_lem (leave_prompt t) first.ready first.on_screen in
      let u : Terminal = record (leave_prompt t) { vga = puts screen xs (leave_prompt t).vga } in
      let third = show-Sound b'\n' u second.ready second.on_screen in
      let (m2, s, sends, fourth, kept) =
        print_serial_lem m1 (show b'\n' u) same third.ready third.on_screen in
      let w : Terminal = send b'\n' (set_port (show b'\n' u) s) in
      let fifth : Sound (set_port (show b'\n' u) s) w =
        Written-Sound (set_port (show b'\n' u) s) _ fourth.ready fourth.on_screen
          (write_c-Written (b'\n' % 2 ^ 8) (with_port (set_port (show b'\n' u) s)) (omega arith)) in
      let line =
        Sound-trans first (Sound-trans second (Sound-trans third (Sound-trans fourth fifth))) in
      elim (Bool-cases (is_prompt t.vga)) [
        | inr e ↦
            (xs, n + 1, m2, w, w.vga.machine, rw (printkln, runs, sends, e), says, rw e, line, kept)
        | inl e ↦ (
          xs,
          n + 1,
          m2,
          record w { vga = write_prompt w.vga },
          w.vga.machine,
          rw (printkln, runs, sends, e),
          says,
          rw e,
          Sound-trans line (
              Printed-Sound w (write_prompt w.vga) fifth.ready
                (write_prompt-Printed w.vga fifth.on_screen).0),
          kept,
        )
      ]
