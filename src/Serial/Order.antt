-- ===== src/Serial/Order.antt =====
-- src/c/serial.c: writers and the transmitter's interrupt, interleaved in any order.
use mathlib.Core.List.{Sublistᴰ, append_assoc, append-nil}
use implement_os.Prelude.{
  ℕ, ◌≡◌, refl, sym, ap, ◌∙◌, Bool, Bool-cases, inl, inr, true, false, List, [], ◌∷◌, ◌++◌, length,
  ltb, if◌then◌else◌,
}
use implement_os.Buffer.Refine.{contents}
use implement_os.Serial.{Serial, write_c, trigger_write}
use implement_os.Serial.Line
use implement_os.Serial.Line.{Line, line}
use implement_os.Serial.Refine.{
  IsReady, AreBytes, sent, thr_empty, line_of, write_c_refines, write_c-IsReady,
}
use implement_os.Serial.Trigger.{trigger_write_refines}
use implement_os.Serial.Ready.{trigger_write-Written}

-- A byte is offered to the port, or the port's interrupt comes.
pub data Action : Type 0 where
  offer : ℕ → Action
  interrupt : Action

unfoldable pub run : List Action → Serial → Serial
run [] s = s
run (offer c ∷ acts) s = run acts (write_c c s).1
run (interrupt ∷ acts) s = run acts (trigger_write s).1

-- the bytes that are offered
abbrev pub offered : List Action → List ℕ
offered [] = []
offered (offer c ∷ acts) = c ∷ offered acts
offered (interrupt ∷ acts) = offered acts

-- everything that the driver has taken, oldest first
abbrev pub taken : Line → List ℕ
taken l = l.sent ++ l.queue

trigger-taken :
    (ready : Bool) (out q : List ℕ) → taken (Line.trigger_write ready (line out q)).1 ≡ out ++ q
unfolding Line.trigger_write
trigger-taken ready out [] = refl
trigger-taken true out (x ∷ q) = append_assoc out (x ∷ []) q
trigger-taken false out (x ∷ q) = refl

-- A byte that is offered goes behind all that were taken, or is lost.
write-taken :
    (ready : Bool) (c : ℕ) (out q : List ℕ)
    → (kept : Bool) × (taken (Line.write_c ready c (line out q)).1
        ≡ (out ++ q) ++ (if kept then c ∷ [] else []))
unfolding Line.write_c
write-taken true c out [] =
    (true, append-nil (out ++ (c ∷ [])) ∙ ap (λ o. o ++ (c ∷ [])) (sym (append-nil out)))
write-taken false c out [] = (true, ap (λ o. o ++ (c ∷ [])) (sym (append-nil out)))
write-taken true c out (x ∷ q) =
    (false, append_assoc out (x ∷ []) q ∙ sym (append-nil (out ++ (x ∷ q))))
write-taken false c out (x ∷ q) = elim (Bool-cases (ltb (length (x ∷ q)) 32)) [
  | inl e ↦ (true, rw e (sym (append_assoc out (x ∷ q) (c ∷ []))))
  | inr e ↦ (false, rw e (sym (append-nil (out ++ (x ∷ q)))))
]

offered-sub :
    (kept : Bool) (c : ℕ) {more all : List ℕ}
    → Sublistᴰ more all
    → Sublistᴰ ((if kept then c ∷ [] else []) ++ more) (c ∷ all)
offered-sub true c sub = Sublistᴰ.cons-cons refl sub
offered-sub false c sub = Sublistᴰ.cons sub

-- However calls of SER_write_c and the transmitter's interrupts are interleaved, a ready driver
-- stays ready, and the bytes that it has sent and those that wait, in that order, only grow
-- behind, by bytes that were offered, in the order in which they were offered: none is sent
-- twice, made up or overtaken.
pub run-taken :
    (acts : List Action) {s : Serial}
    → IsReady s
    → AreBytes (offered acts)
    → (more : List ℕ) × (taken (line_of (run acts s)) ≡ taken (line_of s) ++ more)
      × Sublistᴰ more (offered acts)
      × IsReady (run acts s)
unfolding run
run-taken [] r b = ([], sym (append-nil _), Sublistᴰ.slnil, r)
run-taken (interrupt ∷ acts) {s} r b =
    let (more, all, sub, r') =
      run-taken acts {s = (trigger_write s).1} ((trigger_write-Written s).ready r) b in
    let step : taken (line_of (trigger_write s).1) ≡ taken (line_of s) =
      ap (λ (p : Bool × Line). taken p.1) (trigger_write_refines r)
      ∙ trigger-taken (thr_empty s.machine) (sent s.machine.log) (contents s.serial_buffer) in
    (more, all ∙ ap (λ t. t ++ more) step, sub, r')
run-taken (offer c ∷ acts) {s} r b =
    let (more, all, sub, r') = run-taken acts {s = (write_c c s).1} (write_c-IsReady c r b.0) b.1 in
    let (kept, to) =
      write-taken (thr_empty s.machine) c (sent s.machine.log) (contents s.serial_buffer) in
    let step = ap (λ (p : Bool × Line). taken p.1) (write_c_refines c r b.0) ∙ to in
    (
      (if kept then c ∷ [] else []) ++ more,
      all
          ∙ ap (λ t. t ++ more) step
          ∙ append_assoc (taken (line_of s)) (if kept then c ∷ [] else []) more,
      offered-sub kept c sub,
      r',
    )
