-- ===== src/Terminal/Port.antt =====
-- src/c/serial.c: `SER_interrupt`.
use implement_os.Prelude.{
  ℕ, zero, suc, ◌+◌, ◌/◌, ◌%◌, ◌^◌, refl, Bool, true, false, Bool-cases, inl, inr, ◌==◌,
}
use implement_os.Machine.{inb}
use implement_os.Vga.Display.{IsOnScreen}
use implement_os.Serial.{com1_iir, com1_lsr}
use implement_os.Serial.Refine.{IsReady}
use implement_os.Serial.Ready.{trigger_write-Written}
use implement_os.Terminal.{
  Terminal, with_port, ask, line_if, printkln_no_serial, report_bits, read_lsr, ser_interrupt,
}
use implement_os.Terminal.Print.{Sound, Sound-refl, Sound-trans, show-Sound, Written-Sound}

line_if-Sound :
    (b : Bool) (t : Terminal) → IsReady t.port → IsOnScreen t.vga → Sound t (line_if b t)
line_if-Sound true t r on = show-Sound b'\n' t r on
line_if-Sound false t r on = Sound-refl t r on

report_bits-Sound :
    (n i lsr : ℕ) (t : Terminal)
    → IsReady t.port
    → IsOnScreen t.vga
    → Sound t (report_bits n i lsr t)
unfolding report_bits
report_bits-Sound zero i lsr t r on = Sound-refl t r on
report_bits-Sound (suc n) i lsr t r on =
    let p = line_if-Sound (lsr / 2 ^ i % 2 == 1) t r on in
    Sound-trans p
      (report_bits-Sound n (i + 1) lsr (line_if (lsr / 2 ^ i % 2 == 1) t) p.ready p.on_screen)

ask-Sound : (port : ℕ) (t : Terminal) → IsReady t.port → IsOnScreen t.vga → Sound t (ask port t).1
unfolding inb
ask-Sound port t r on = record {
  on_screen = on;
  inside = λ a le. refl;
  ready = r;
  interrupts_kept = refl;
}

read_lsr-Sound : (t : Terminal) → IsReady t.port → IsOnScreen t.vga → Sound t (read_lsr t)
unfolding read_lsr
read_lsr-Sound t r on =
    let p = ask-Sound com1_lsr t r on in
    Sound-trans p (report_bits-Sound 8 0 (ask com1_lsr t).0 (ask com1_lsr t).1 p.ready p.on_screen)

pub ser_interrupt-Sound :
    (t : Terminal) → IsReady t.port → IsOnScreen t.vga → Sound t (ser_interrupt t)
unfolding ser_interrupt
ser_interrupt-Sound t r on =
    let p = ask-Sound com1_iir t r on in
    let (iir, t') = ask com1_iir t in
    elim (Bool-cases (iir / 2 == 1)) [
      | inl e ↦ rw e (
          Sound-trans p
            (Written-Sound t' _ p.ready p.on_screen (trigger_write-Written (with_port t'))))
      | inr e ↦
          let line = Sound-trans p (show-Sound b'\n' t' p.ready p.on_screen) in
          elim (Bool-cases (iir / 2 == 3)) [
            | inl f ↦
                rw (e, f)
                  (Sound-trans line
                    (read_lsr-Sound (printkln_no_serial t') line.ready line.on_screen))
            | inr f ↦ rw (e, f) line
          ]
    ]
