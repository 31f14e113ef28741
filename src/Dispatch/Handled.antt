-- ===== src/Dispatch/Handled.antt =====
-- src/c/interrupts.c: what the handling of any interrupt leaves.
use implement_os.Prelude.{ℕ, ◌-◌, ◌≡◌, Bool, true, false, List, [], ◌∷◌, ◌++◌, ltb, if◌then◌else◌}
use implement_os.Machine.{Event, wrote}
use implement_os.Interrupts.{pic1, pic2}
use implement_os.Dispatch.{Kernel, Setting, machine, set_machine, is_irq}
use implement_os.Dispatch.Cases.{Acted}

-- the acknowledgement of an interrupt, the latest event first
abbrev pub end_events : ℕ → List Event
end_events irq = if ltb 8 irq then wrote 0x20 pic2 ∷ wrote 0x20 pic1 ∷ [] else wrote 0x20 pic1 ∷ []

-- what the handling of an interrupt leaves
pub record Served (c : Setting) (limit isr_code cr2 : ℕ) (k k' : Kernel) : Type 0 where
  pub acted : Acted c limit isr_code cr2 k k'
  pub before : List Event
  pub ended :
      (machine k').log ≡ (if is_irq isr_code then end_events (isr_code - 32) ++ before else before)

abbrev off : Kernel → Kernel
off k = set_machine k (record (machine k) { interrupts = false })

abbrev on_again : Bool → Kernel → Kernel
on_again b k = set_machine k (if b then record (machine k) { interrupts = true } else machine k)
