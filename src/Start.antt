-- ===== src/Start.antt =====
-- src/c/main.c: `kmain` up to where it turns interrupts on, in three parts: the banner, the memory
-- and the devices. Loading the task register is the assembly's.
pub mod Frames
pub mod Pages
pub mod Devices
pub mod SetUp
mod Tests
use implement_os.Prelude.{ℕ, true, Option, none, some, List, [], ◌∷◌}
use implement_os.Prelude.State.{M}
use implement_os.Machine.{Machine, cli, sti}
use implement_os.Memory
use implement_os.PageTable
use implement_os.Multiboot
use implement_os.Multiboot.{Registers}
use implement_os.Gdt.{Layout, Tables, setup_gdt, load_gdt}
use implement_os.Interrupts.{irq_set_mask, irq_clear_mask}
use implement_os.Ps2.{Host, setup_keyboard}
use implement_os.Serial
use implement_os.Console.{write_prompt}
use implement_os.Vga
use implement_os.Terminal.{Terminal, with_port, set_port, printkln}
use implement_os.Dispatch.{Kernel, Setting, terminal, set_terminal, machine, set_machine}

-- the kernel's parts and the tables of src/c/gdt.c
pub record System : Type 0 where
  pub kernel : Kernel
  pub tables : Tables

-- the registers that the loader left, where the linker put the tables, and the addresses of the banner's lines and of
-- the message of a keyboard controller that fails its test
pub record Loaded : Type 0 where
  pub exx : Registers
  pub layout : Layout
  pub banner : List ℕ
  pub test_failed : ℕ

abbrev on_machine : {A : Type 0} → M Machine A → Kernel → Kernel
on_machine m k = set_machine k (m (machine k)).1

module _ (c : Setting) (l : Loaded) where
  -- Each line is printed, with no arguments.
  print_lines : List ℕ → Kernel → Option Kernel
  print_lines [] k = some k
  print_lines (fmt ∷ fmts) k =
      elim (printkln c.fuel c.array (λ i. 0) c.rounds fmt k.memory (terminal k)) [
        | none ↦ none
        | some (n, m, t) ↦ print_lines fmts (record (set_terminal k t) { memory = m })
      ]

  unfoldable pub welcome : Kernel → Option Kernel
  unfolding cli print_lines
  welcome k =
      let k' = on_machine cli k in
      let vga' = (Vga.clear k'.console.vga).1 in
      print_lines l.banner (record k' { console = record k'.console { vga = vga' } })

  -- `MEM_init`, `MUL_parse` and `PT_init`
  unfoldable pub start_memory : Kernel → Option Kernel
  start_memory k = elim (Multiboot.parse c.fuel l.exx (Memory.init k.mmu.memory)) [
    | none ↦ none
    | some m ↦ some (record k { mmu = (PageTable.init c.p3_table (record k.mmu { memory = m })).1 })
  ]

  -- `SER_init`, on the machine of all parts
  abbrev pub start_serial : Kernel → Kernel
  start_serial k = let t = terminal k in set_terminal k (set_port t (Serial.init (with_port t)).1)

  -- what follows the set-up of the keyboard
  abbrev pub finish : Kernel → Kernel
  finish k =
      let k' = start_serial k in
      let vga' = write_prompt k'.console.vga in
      on_machine (sti true) (record k' { console = record k'.console { vga = vga' } })

  -- the kernel as the state of `PS2_setup_keyboard`, whose message is printed as a banner's line is
  unfoldable pub keyboard_host : Host Kernel
  unfolding print_lines
  keyboard_host = record {
    machine_of = machine;
    put_machine = set_machine;
    report = print_lines (l.test_failed ∷ []);
  }

  -- from `setup_gdt` to `sti(1)`
  unfoldable pub start_devices : System → Option System
  unfolding sti keyboard_host
  start_devices s =
      let (tables', m1) = load_gdt l.layout (setup_gdt l.layout s.tables) (machine s.kernel) in
      let m2 = (irq_set_mask 0 m1).1 in
      let m3 = (irq_clear_mask 4 m2).1 in
      elim (setup_keyboard keyboard_host c.fuel (set_machine s.kernel m3)) [
        | none ↦ none
        | some k ↦ some (record { kernel = finish k; tables = tables' })
      ]

  -- from `MEM_init` to `sti(1)`
  unfoldable pub set_up : System → Option System
  unfolding start_memory start_devices
  set_up s = elim (start_memory s.kernel) [
    | none ↦ none
    | some k ↦ start_devices (record s { kernel = k })
  ]

  -- `kmain`, up to `sti(1)`
  unfoldable pub start : System → Option System
  unfolding welcome set_up
  start s = elim (welcome s.kernel) [ none ↦ none | some k ↦ set_up (record s { kernel = k }) ]
