-- ===== src/Interrupts/Table.antt =====
-- src/c/interrupts.c: the interrupt descriptor table that `setup_idt` writes.
use mathlib.Core.Path.{subst}
use implement_os.Prelude.{
  ◌≢◌, ℕ, zero, suc, ◌+◌, ◌*◌, ◌^◌, ◌<◌, ◌≤◌, ◌≡◌, refl, sym, ◌∙◌, arith, ltb, leb, ◌&&◌, ◌==◌,
  if◌then◌else◌,
}
use implement_os.Machine.{Machine}
use implement_os.Interrupts.{Gate, Idt, set_gate, set_gates, setup_idt}

-- where the processor goes through a gate
abbrev pub target : Gate → ℕ
target g = g.target_offset_1 + g.target_offset_2 * 2 ^ 16 + g.target_offset_3 * 2 ^ 32

set_gates_lem :
    (rounds : ℕ) (isr : ℕ → ℕ) (start i : ℕ) (table : ℕ → Gate)
    → set_gates rounds isr start table i
      ≡ (if leb start i && ltb i (start + rounds) then set_gate (isr i) i (table i) else table i)
unfolding set_gates
set_gates_lem zero isr start i table = ground arith
set_gates_lem (suc rounds) isr start i table =
    set_gates_lem rounds isr (start + 1) i
      (λ i. if i == start then set_gate (isr start) start (table i) else table i)
    ∙ grind arith

-- what an entry of the finished table has
pub record IsInterruptGate (isr : ℕ → ℕ) (i : ℕ) (g : Gate) : Type 0 where
  pub goes_to : target g ≡ isr i
  pub in_kernel_code : g.target_selector ≡ 8
  pub stands_present : g.present ≡ 1
  pub masks_interrupts : g.gate_type ≡ 0xe
  pub for_kernel : g.dpl ≡ 0
  pub double_fault : i ≡ 8 → g.ist ≡ 1
  pub general_protection : i ≡ 13 → g.ist ≡ 2
  pub page_fault : i ≡ 14 → g.ist ≡ 3
  pub no_other : i ≢ 8 → i ≢ 13 → i ≢ 14 → g.ist ≡ 0

set_gate-IsInterruptGate :
    (isr : ℕ → ℕ) (i : ℕ) (g : Gate) → isr i < 2 ^ 64 → IsInterruptGate isr i (set_gate (isr i) i g)
unfolding set_gate
set_gate-IsInterruptGate isr i g h = record {
  goes_to = omega arith;
  in_kernel_code = refl;
  stands_present = refl;
  masks_interrupts = refl;
  for_kernel = refl;
  double_fault = λ e. ground arith;
  general_protection = λ e. ground arith;
  page_fault = λ e. ground arith;
  no_other = λ a b c. ground arith;
}

-- When the stubs' addresses fit 64 bits, setup_idt leaves in each of the 256 entries, whatever
-- was there, a present interrupt gate of the kernel whose three offsets make up the address of
-- the stub of that number, with stack 1 for a double fault, 2 for a general protection fault, 3
-- for a page fault and 0 for every other; it changes nothing behind them.
pub setup_idt_lem :
    (isr : ℕ → ℕ) (address : ℕ) (idt : Idt) (m : Machine)
    → ((i : ℕ) → i < 256 → isr i < 2 ^ 64)
    → ((i : ℕ)
        → i < 256
        → IsInterruptGate isr i ((setup_idt isr address idt m).0.interrupt_desc_table i))
      × ((i : ℕ)
          → 256 ≤ i
          → (setup_idt isr address idt m).0.interrupt_desc_table i ≡ idt.interrupt_desc_table i)
unfolding setup_idt
setup_idt_lem isr address idt m h = (
  λ i lt.
      subst (IsInterruptGate isr i)
        (sym (set_gates_lem 256 isr 0 i idt.interrupt_desc_table ∙ ground arith))
        (set_gate-IsInterruptGate isr i (idt.interrupt_desc_table i) (h i lt)),
  λ i le. set_gates_lem 256 isr 0 i idt.interrupt_desc_table ∙ ground arith,
)
