-- ===== src/Serial/Tests.antt =====
-- The serial driver of src/c/serial.c with bytes that wait, in front of a transmitter that is ready.
use mathlib.Core.List.{Sublistᴰ}
use implement_os.Prelude.{
  ℕ, ◌+◌, List, ◌++◌, ◌∷◌, some, ◌==◌, if◌then◌else◌, ◌≡◌, refl, [], true, replicate, arith,
}
use implement_os.Machine.{Machine}
use implement_os.Serial.{Serial, send, write_c, write_str, trigger_write}
use implement_os.Serial.Line
use implement_os.Serial.Refine.{IsReady, thr_empty, line_of, write_c_refines}
use implement_os.Serial.Trigger.{trigger_write_refines}
use implement_os.Serial.Order.{Action, offer, interrupt, run, offered, taken, run-taken}
use implement_os.Serial.Text.{Offered, Written, write_str-Written}

abbrev machine : Machine
machine = record { device = λ log port. 0x20; log = []; interrupts = true }

abbrev state : Serial
state = record {
  serial_buffer = record {
    buff = replicate 33 7;
    prod_index = 1;
    cons_index = 32;
    consume_func = send;
  };
  machine = machine;
}

state-IsReady : IsReady state
state-IsReady = record {
  ring = record { storage = refl; prod_in = omega arith; cons_in = omega arith };
  sends = refl;
  bytes = (omega arith, (omega arith, tt));
}

write_c_refines_example :
    let (done, s) = write_c b'a' state in
    (done, line_of s) ≡ Line.write_c (thr_empty machine) b'a' (line_of state)
write_c_refines_example = write_c_refines b'a' state-IsReady (omega arith)

abbrev actions : List Action
actions = offer b'a' ∷ interrupt ∷ offer b'b' ∷ []

run-taken_example :
    (more : List ℕ) × (taken (line_of (run actions state)) ≡ taken (line_of state) ++ more)
    × Sublistᴰ more (offered actions)
    × IsReady (run actions state)
run-taken_example = run-taken actions state-IsReady (omega arith, (omega arith, tt))

trigger_write_refines_example :
    let (done, s) = trigger_write state in
    (done, line_of s) ≡ Line.trigger_write (thr_empty machine) (line_of state)
trigger_write_refines_example = trigger_write_refines state-IsReady

-- the text `ok` at 200
abbrev memory : ℕ → ℕ
memory a = if a == 200 then b'o' else if a == 201 then b'k' else 0

write_str-Written_example :
    (k : ℕ) × (s' : Serial) × (write_str 3 200 memory state ≡ some (k + 1, s'))
    × Offered (b'o' ∷ b'k' ∷ []) state k s'
    × Written state s'
write_str-Written_example =
    write_str-Written 3 200 memory (b'o' ∷ b'k' ∷ []) state
      (refl, (λ e. omega arith), (refl, (λ e. omega arith), refl)) (omega arith)
