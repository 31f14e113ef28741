-- ===== src/Interrupts/Tests.antt =====
-- The interrupt table of src/c/interrupts.c, from an empty one.
use implement_os.Prelude.{ℕ, ◌*◌, ◌+◌, ◌<◌, ◌≤◌, ◌≡◌, [], arith, true}
use implement_os.Machine.{Machine}
use implement_os.Machine.{Machine}
use implement_os.Interrupts.{Idt, Gate, setup_idt}
use implement_os.Interrupts.Table.{IsInterruptGate, setup_idt_lem}

abbrev machine : Machine
machine = record { device = λ log port. 0; log = []; interrupts = true }

abbrev no_gate : Gate
no_gate = record {
  target_offset_1 = 0;
  target_selector = 0;
  ist = 0;
  res_1 = 0;
  gate_type = 0;
  zero_bit = 0;
  dpl = 0;
  present = 0;
  target_offset_2 = 0;
  target_offset_3 = 0;
  res_2 = 0;
}

abbrev no_table : Idt
no_table = record { interrupt_desc_table = λ i. no_gate; size = 0; idt_address = 0 }

abbrev stubs : ℕ → ℕ
stubs i = 0x100000 + 16 * i

setup_idt_lem_example :
    ((i : ℕ)
      → i < 256
      → IsInterruptGate stubs i
          ((setup_idt stubs 0x8000 no_table machine).0.interrupt_desc_table i))
    × ((i : ℕ)
        → 256 ≤ i
        → (setup_idt stubs 0x8000 no_table machine).0.interrupt_desc_table i ≡ no_gate)
setup_idt_lem_example = setup_idt_lem stubs 0x8000 no_table machine (λ i h. omega arith)
