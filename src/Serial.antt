-- ===== src/Serial.antt =====
-- src/c/serial.c: the driver of the serial port COM1, with its byte ring.
pub mod Line
pub mod Refine
pub mod Trigger
pub mod Text
pub mod Ready
pub mod Order
mod Tests
use Prim.Native.Nat.{bit_and, bit_or}
use implement_os.Prelude.{
  ℕ, zero, suc, ◌+◌, ◌/◌, ◌%◌, ◌^◌, Bool, true, false, not, ◌&&◌, Option, none, some, ltb, ◌==◌,
  if◌then◌else◌,
}
use implement_os.Prelude.State.{M, pure, ◌>>=◌, ◌>>◌}
use implement_os.Machine.{Machine, outb, inb, cli, sti}
use implement_os.Strings.{Bytes}
use implement_os.Buffer
use implement_os.Buffer.{Buffer, consumeable, produceable}

abbrev pub com1 : ℕ
com1 = 0x3f8

-- `COM1_RBR`, `COM1_THR` and `COM1_DLL` are one port, as are `COM1_IER` and `COM1_DLM`, and
-- `COM1_IIR` and `COM1_FCR`.
abbrev pub com1_thr : ℕ
com1_thr = com1

abbrev pub com1_ier : ℕ
com1_ier = com1 + 1

abbrev pub com1_iir : ℕ
com1_iir = com1 + 2

abbrev pub com1_fcr : ℕ
com1_fcr = com1 + 2

abbrev pub com1_lcr : ℕ
com1_lcr = com1 + 3

abbrev pub com1_lsr : ℕ
com1_lsr = com1 + 5

-- `serial_buffer` and the machine around it
pub record Serial : Type 0 where
  pub serial_buffer : Buffer Machine
  pub machine : Machine

abbrev pub io : {A : Type 0} → M Machine A → M Serial A
io m s = let (a, m') = m s.machine in (a, record s { machine = m' })

pub dlab_clear : M Machine (Unit {0})
unfolding inb outb
dlab_clear = do lcr_val ← inb com1_lcr; outb (bit_and lcr_val 0b01111111) com1_lcr

pub dlab_set : M Machine (Unit {0})
unfolding inb outb
dlab_set = do lcr_val ← inb com1_lcr; outb (bit_or lcr_val 0b10000000) com1_lcr

-- `divisor` is a `uint16_t`; the two halves are cut to `uint8_t`.
pub set_baud : ℕ → M Machine (Unit {0})
unfolding dlab_clear dlab_set
set_baud divisor = do
  dlab_set
  outb (divisor % 2 ^ 8) com1_thr
  outb (divisor / 2 ^ 8 % 2 ^ 8) com1_ier
  dlab_clear

pub enable_interrupts : M Machine (Unit {0})
unfolding inb outb
enable_interrupts = do ier_val ← inb com1_ier; outb (bit_or ier_val 0b110) com1_ier

pub write_to_serial : ℕ → M Machine (Unit {0})
unfolding outb
write_to_serial c = outb c com1_thr

-- bit 5 of the line status
pub is_thr_empty : M Machine Bool
unfolding inb
is_thr_empty = do reg ← inb com1_lsr; pure (reg / 2 ^ 5 % 2 == 1)

-- `&write_to_serial`, as `BUF_init` takes it
abbrev pub send : ℕ → Machine → Machine
send c m = (write_to_serial c m).1

pub buf_consume : M Serial (Unit {0})
unfolding Buffer.consume
buf_consume s =
    let (b, m) = Buffer.consume s.serial_buffer s.machine in
    (tt, record { serial_buffer = b; machine = m })

buf_produce : ℕ → M Serial (Unit {0})
unfolding Buffer.produce
buf_produce c s = (tt, record s { serial_buffer = Buffer.produce s.serial_buffer c })

-- whether bytes wait to be sent
waiting : M Serial Bool
waiting s = (not (consumeable s.serial_buffer == 0), s)

has_room : M Serial Bool
has_room s = (not (produceable s.serial_buffer == 0), s)

-- Returns whether a byte was sent. The line status is read first; C's `&&` asks the buffer after.
pub trigger_write : M Serial Bool
trigger_write = do
  int_flag ← io cli
  empty ← io is_thr_empty
  more ← waiting
  ret_val ← (if empty && more then buf_consume >> pure true else pure false)
  io (sti int_flag)
  pure ret_val

pub init : M Serial (Unit {0})
init = do
  io (set_baud 12)
  io (outb 0b00000011 com1_lcr)
  (λ s. (tt, record s { serial_buffer = Buffer.init s.serial_buffer send }))
  io (outb 0 com1_fcr)
  io enable_interrupts

-- The three tests of `SER_write_c` in their order; each reads the line status only where the
-- buffer's count has not settled it.
choose : ℕ → M Serial Bool
choose c = do
  more ← waiting
  direct ← (if more then pure false else io is_thr_empty)
  if direct then io (write_to_serial c) >> pure true else do
    missed ← (if more then io is_thr_empty else pure false)
    if missed
        then buf_consume >> pure true
        else do room ← has_room; if room then buf_produce c >> pure true else pure false

-- Returns whether the byte could be written or buffered.
pub write_c : ℕ → M Serial Bool
write_c c = do int_flag ← io cli; ret_val ← choose c; io (sti int_flag); pure ret_val

-- The loop of `SER_write_str`, which ends with the first byte that is refused; fuel bounds the
-- characters. Returns the index after the last byte read.
unfoldable pub write_from : ℕ → (str index : ℕ) → Bytes → Serial → Option (ℕ × Serial)
write_from zero str index m s = none
write_from (suc fuel) str index m s =
    let c = m (str + index) in
    let (done, s') = write_c (c % 2 ^ 8) s in
    let rest = write_from fuel str (index + 1) m s' in
    if c == 0 then some (index + 1, s) else if done then rest else some (index + 1, s')

unfoldable pub write_str : ℕ → ℕ → Bytes → Serial → Option (ℕ × Serial)
write_str fuel str m s = write_from fuel str 0 m s
