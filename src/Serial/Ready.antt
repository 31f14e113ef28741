-- ===== src/Serial/Ready.antt =====
-- src/c/serial.c: `trigger_write` leaves a ready driver.
use mathlib.Core.Path.{subst}
use implement_os.Prelude.{ℕ, ◌≡◌, sym, ap, ◌∙◌, List, [], ◌∷◌, arith, Bool, true, false}
use implement_os.Machine.{inb, cli, sti}
use implement_os.Buffer.Invariant.{IsValid, consume-IsValid}
use implement_os.Buffer.Refine.{contents, same_func}
use implement_os.Serial.{Serial, com1_lsr, is_thr_empty, buf_consume, waiting, trigger_write}
use implement_os.Serial.Line
use implement_os.Serial.Line.{Line, line}
use implement_os.Serial.Refine.{AreBytes, IsReady, sent, thr_empty, consume_interrupts}
use implement_os.Serial.Text.{Written}
use implement_os.Serial.Trigger.{trigger_write_refines}

trigger-ring :
    {s : Serial}
    → IsReady s
    → IsValid (trigger_write s).1.serial_buffer
      × ((trigger_write s).1.serial_buffer.consume_func ≡ s.serial_buffer.consume_func)
unfolding trigger_write is_thr_empty buf_consume waiting cli sti
trigger-ring {s} r = ground (
  arith,
  consume-IsValid (inb com1_lsr (cli s.machine).1).1 r.ring,
  same_func s.serial_buffer 0 (inb com1_lsr (cli s.machine).1).1,
)

AreBytes_trigger :
    (ready : Bool) (out xs : List ℕ)
    → AreBytes xs
    → AreBytes (Line.trigger_write ready (line out xs)).1.queue
unfolding Line.trigger_write
AreBytes_trigger ready out [] b = tt
AreBytes_trigger true out (x ∷ xs) b = b.1
AreBytes_trigger false out (x ∷ xs) b = b

trigger_interrupts :
    (s : Serial) → IsReady s → (trigger_write s).1.machine.interrupts ≡ s.machine.interrupts
unfolding trigger_write is_thr_empty waiting cli sti
trigger_interrupts s r =
    ground (
      arith,
      consume_interrupts (record s { machine = (inb com1_lsr (cli s.machine).1).1 }) r.sends,
    )

pub trigger_write-Written : (s : Serial) → Written s (trigger_write s).1
trigger_write-Written s = record {
  ready = λ r. record {
    ring = (trigger-ring r).0;
    sends = (trigger-ring r).1 ∙ r.sends;
    bytes = subst AreBytes (ap (λ (p : Bool × Line). p.1.queue) (sym (trigger_write_refines r))) (
        AreBytes_trigger (thr_empty s.machine) (sent s.machine.log) (contents s.serial_buffer)
          r.bytes);
  };
  interrupts_kept = trigger_interrupts s;
}
