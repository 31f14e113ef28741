-- ===== src/Serial/Trigger.antt =====
-- src/c/serial.c: `trigger_write`, which the transmitter's interrupt calls, and `SER_init`.
use implement_os.Prelude.{ℕ, ◌≡◌, refl, List, [], ◌∷◌, arith, length}
use implement_os.Machine.{inb, cli, sti}
use implement_os.Buffer
use implement_os.Buffer.Refine.{contents, counts-contents}
use implement_os.Serial.{
  Serial, com1_lsr, is_thr_empty, buf_consume, waiting, trigger_write, init, write_to_serial,
}
use implement_os.Serial.Line
use implement_os.Serial.Line.{Line, line}
use implement_os.Serial.Refine.{AreBytes, IsReady, sent, thr_empty, line_of, consume_at}

module _ {s : Serial} (r : IsReady s) where
  trigger_at :
      (q : List ℕ)
      → contents s.serial_buffer ≡ q
      → AreBytes q
      → let (done, s') = trigger_write s in
        (done, line_of s') ≡ Line.trigger_write (thr_empty s.machine) (line (sent s.machine.log) q)
  unfolding trigger_write is_thr_empty buf_consume waiting write_to_serial sent Line.trigger_write
      cli sti
  trigger_at [] e b = ground (arith, counts-contents r.ring)
  trigger_at (x ∷ q) e b =
      ground (arith, counts-contents r.ring, consume_at r (inb com1_lsr (cli s.machine).1).1 x q e)

  -- In a ready driver trigger_write sends the oldest waiting byte and returns true when one
  -- waits and the transmitter is ready, and else returns false and leaves the sent and the
  -- waiting bytes.
  pub trigger_write_refines :
      let (done, s') = trigger_write s in
      (done, line_of s') ≡ Line.trigger_write (thr_empty s.machine) (line_of s)
  trigger_write_refines = trigger_at (contents s.serial_buffer) refl r.bytes

-- SER_init with storage of the buffer's size leaves the driver ready and with no byte that
-- waits.
pub init-IsReady :
    (s : Serial)
    → length s.serial_buffer.buff ≡ Buffer.buffer_size
    → IsReady (init s).1 × (contents (init s).1.serial_buffer ≡ [])
unfolding init Buffer.init
init-IsReady s h = (record { ring = ground arith; sends = refl; bytes = tt }, refl)
