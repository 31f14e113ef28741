-- ===== src/Dispatch.antt =====
-- src/c/interrupts.c: `generic_interrupt_handler`, which hands an interrupt to its part of the kernel.
-- The screen's state holds the machine of all parts but the page tables, which use none here.
pub mod Cases
pub mod Handled
mod Tests
use implement_os.Prelude.{
  ℕ, ◌+◌, ◌-◌, ◌&&◌, Bool, true, false, Option, none, some, ltb, leb, ◌==◌, if◌then◌else◌,
}
use implement_os.Prelude.State.{M}
use implement_os.Machine.{Machine, cli, sti}
use implement_os.Strings.{Bytes}
use implement_os.PageTable
use implement_os.PageTable.{Mmu}
use implement_os.Console.{Console}
use implement_os.Serial.{Serial}
use implement_os.Terminal.{Terminal, printkln, printkln_no_serial, ser_interrupt}
use implement_os.Ps2.{keyboard_interrupt}
use implement_os.Interrupts.{irq_end_of_interrupt}

pub record Kernel : Type 0 where
  pub console : Console
  pub port : Serial
  pub mmu : Mmu
  pub memory : Bytes

abbrev pub terminal : Kernel → Terminal
terminal k = record { vga = k.console.vga; port = k.port }

abbrev pub set_terminal : Kernel → Terminal → Kernel
set_terminal k t = record k { console = record k.console { vga = t.vga }; port = t.port }

abbrev pub machine : Kernel → Machine
machine k = k.console.vga.machine

abbrev pub set_machine : Kernel → Machine → Kernel
set_machine k m = record k {
  console = record k.console { vga = record k.console.vga { machine = m } };
}

-- Where the messages stand, by the number of the interrupt, with the fuel and the arrays of a print,
-- and what stands behind the key table; `args` are the arguments that the message of an interrupt is
-- given, which the processor and its stub supply.
pub record Setting : Type 0 where
  pub fuel : ℕ
  pub rounds : ℕ
  pub array : (size c : ℕ) → ℕ
  pub beyond : ℕ → ℕ
  pub p3_table : ℕ
  pub format : ℕ → ℕ
  pub args : (isr_code i : ℕ) → ℕ

module _ (c : Setting) where
  unfoldable pub message : ℕ → Kernel → Option Kernel
  message isr_code k =
      elim (printkln c.fuel c.array (c.args isr_code) c.rounds (c.format isr_code) k.memory
        (terminal k)) [
          | none ↦ none
          | some (n, m, t) ↦ some (record (set_terminal k t) { memory = m })
        ]

  -- the case of a page fault, which prints where the page cannot be had
  unfoldable pub page_fault : ℕ → Kernel → Option Kernel
  page_fault cr2 k =
      let (done, mmu') = PageTable.can_allocate c.p3_table cr2 k.mmu in
      if done == 0 then message 14 (record k { mmu = mmu' }) else some (record k { mmu = mmu' })

  unfoldable pub key : Kernel → Option Kernel
  key k = elim (keyboard_interrupt c.fuel c.beyond k.console) [
    | none ↦ none
    | some s ↦ some (record k { console = s })
  ]

  -- the switch, up to the end of the interrupt
  unfoldable pub act : (isr_code cr2 : ℕ) → Kernel → Option Kernel
  act isr_code cr2 k =
      if isr_code == 14
      then page_fault cr2 k
      else if isr_code == 33
      then key k
      else if isr_code == 36
      then some (set_terminal k (ser_interrupt (terminal k)))
      else if isr_code == 38
      then some (set_terminal k (printkln_no_serial (terminal k)))
      else message isr_code k

abbrev pub is_irq : ℕ → Bool
is_irq isr_code = leb 32 isr_code && ltb isr_code 48

-- The interrupts of the two controllers are acknowledged.
unfoldable pub acknowledge : ℕ → Kernel → Kernel
acknowledge isr_code k =
    if is_irq isr_code
    then set_machine k (irq_end_of_interrupt (isr_code - 32) (machine k)).1
    else k

-- `generic_interrupt_handler`
unfoldable pub handle : Setting → (isr_code cr2 : ℕ) → Kernel → Option Kernel
handle c isr_code cr2 k =
    let (int_flag, m) = cli (machine k) in
    elim (act c isr_code cr2 (set_machine k m)) [
      | none ↦ none
      | some k' ↦
          let k'' = acknowledge isr_code k' in some (set_machine k'' (sti int_flag (machine k'')).1)
    ]
