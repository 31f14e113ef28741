-- ===== src/Start/Devices.antt =====
-- src/c/main.c: `kmain` from the segment descriptors to where it turns interrupts on.
use mathlib.Core.Path.{subst}
use implement_os.Prelude.{
  ◌+◌, ◌*◌, ◌-◌, ◌^◌, ◌<◌, ◌≡◌, refl, sym, ap, ◌∙◌, true, some, length, arith,
}
use implement_os.Machine.{Machine, inb, outb, cli, sti}
use implement_os.Buffer
use implement_os.Gdt
use implement_os.Gdt.{Tables, setup_gdt, load_gdt}
use implement_os.Gdt.Descriptors
use implement_os.Gdt.Descriptors.{setup_gdt-IsReady}
use implement_os.Interrupts.{irq_set_mask, irq_clear_mask}
use implement_os.Ps2.{setup_keyboard}
use implement_os.Ps2.Setup.{IsResponsive, IsHost, IsSetUp, setup_keyboard_lem}
use implement_os.Serial.Refine.{IsReady}
use implement_os.Serial.Trigger.{init-IsReady}
use implement_os.Vga.Display.{IsOnScreen, Inside}
use implement_os.Console.Keys.{IsInRow, write_prompt-Printed}
use implement_os.Terminal.{with_port}
use implement_os.Dispatch.{Kernel, Setting, terminal, machine, set_machine}
use implement_os.Start.{System, Loaded, start_serial, finish, keyboard_host, start_devices}

-- what the devices' set-up is to leave
pub record IsStarted (l : Loaded) (s s' : System) : Type 0 where
  pub tables : Gdt.Descriptors.IsReady l.layout s'.tables
  pub loaded : (s'.tables.load_size ≡ 8 * 4 - 1) × (s'.tables.load_address ≡ l.layout.gdt_address)
  pub serial : IsReady s'.kernel.port
  pub cursor : IsInRow s'.kernel.console.vga
  pub screen : Inside s.kernel.console.vga s'.kernel.console.vga
  pub interrupts : (machine s'.kernel).interrupts ≡ true

-- what the linker places lies below 2^64
pub record IsPlaced (l : Loaded) : Type 0 where
  pub tss : l.layout.tss_address < 2 ^ 64
  pub first_stack : l.layout.ist1_stack + 8 * 511 < 2 ^ 64
  pub second_stack : l.layout.ist2_stack + 8 * 511 < 2 ^ 64
  pub third_stack : l.layout.ist3_stack + 8 * 511 < 2 ^ 64

-- the machine when the keyboard's set-up begins
abbrev masked : Machine → Machine
masked m = (irq_clear_mask 4 (irq_set_mask 0 m).1).1

masked-device : (m : Machine) → (masked m).device ≡ m.device
unfolding irq_set_mask irq_clear_mask inb outb
masked-device m = refl

module _ (c : Setting) (l : Loaded) where
  finish_lem :
      (k : Kernel)
      → length k.port.serial_buffer.buff ≡ Buffer.buffer_size
      → IsOnScreen k.console.vga
      → IsReady (finish c l k).port
        × IsInRow (finish c l k).console.vga
        × Inside k.console.vga (finish c l k).console.vga
        × ((machine (finish c l k)).interrupts ≡ true)
        × ((finish c l k).mmu ≡ k.mmu)
  unfolding sti
  finish_lem k storage on =
      let r = init-IsReady (with_port (terminal k)) storage in
      let (p, row) = write_prompt-Printed (start_serial c l k).console.vga on in
      (record { ring = r.0.ring; sends = r.0.sends; bytes = r.0.bytes }, row, p.inside, refl, refl)

  -- the machine behind `load_gdt`
  abbrev loaded_gdt : System → Tables × Machine
  loaded_gdt s = load_gdt l.layout (setup_gdt l.layout s.tables) (machine s.kernel)

  load_gdt_lem :
      (s : System)
      → ((loaded_gdt s).0 ≡ record (setup_gdt l.layout s.tables) {
        load_size = 8 * 4 - 1;
        load_address = l.layout.gdt_address;
      })
        × ((loaded_gdt s).1.device ≡ (machine s.kernel).device)
  unfolding load_gdt cli sti
  load_gdt_lem s = (refl, ground arith)

  Tables-IsReady : (s : System) → IsPlaced l → Gdt.Descriptors.IsReady l.layout (loaded_gdt s).0
  Tables-IsReady s at =
      let r =
        setup_gdt-IsReady l.layout s.tables at.tss at.first_stack at.second_stack at.third_stack in
      subst (Gdt.Descriptors.IsReady l.layout) (sym (load_gdt_lem s).0)
        (record { null_segment = r.null_segment; code = r.code; task = r.task; stacks = r.stacks })

  keyboard_host-IsHost : IsHost (keyboard_host c l)
  unfolding keyboard_host
  keyboard_host-IsHost = record { holds = λ k m. refl; replaces = λ k m m'. refl }

  keyboard_runs :
      (k : Kernel) (m : Machine)
      → IsResponsive m.device c.fuel
      → (m' : Machine) × (setup_keyboard (keyboard_host c l) c.fuel (set_machine k m)
          ≡ some (set_machine k m'))
        × IsSetUp m m'
  unfolding keyboard_host
  keyboard_runs k m r = setup_keyboard_lem (keyboard_host-IsHost) c.fuel (set_machine k m) r

  start_devices_runs :
      (s : System) (m4 : Machine)
      → setup_keyboard (keyboard_host c l) c.fuel (set_machine s.kernel (masked (loaded_gdt s).1))
        ≡ some (set_machine s.kernel m4)
      → start_devices c l s
        ≡ some (record { kernel = finish c l (set_machine s.kernel m4); tables = (loaded_gdt s).0 })
  unfolding start_devices
  start_devices_runs s m4 runs = rw (start_devices, runs)

  -- The devices' set-up ends when the keyboard controller answers within the fuel, the serial
  -- buffer has its size, the cursor is on the screen and the tables lie below 2^64.
  pub start_devices_lem :
      (s : System)
      → IsPlaced l
      → IsResponsive (machine s.kernel).device c.fuel
      → length s.kernel.port.serial_buffer.buff ≡ Buffer.buffer_size
      → IsOnScreen s.kernel.console.vga
      → (s' : System) × (start_devices c l s ≡ some s')
        × IsStarted l s s'
        × (s'.kernel.mmu ≡ s.kernel.mmu)
  start_devices_lem s at responsive storage on =
      let t : Tables = (loaded_gdt s).0 in
      let m1 : Machine = (loaded_gdt s).1 in
      let kept : (masked m1).device ≡ (machine s.kernel).device =
        masked-device m1 ∙ (load_gdt_lem s).1 in
      let (m4, runs, _) =
        keyboard_runs s.kernel (masked m1)
          (subst (λ d. IsResponsive d c.fuel) (sym kept) responsive) in
      let k : Kernel = set_machine s.kernel m4 in
      let (serial, row, inside, on', same) = finish_lem k storage on in
      (
        record { kernel = finish c l k; tables = t },
        start_devices_runs s m4 runs,
        record {
          tables = Tables-IsReady s at;
          loaded = (
            ap (λ (u : Tables). u.load_size) (load_gdt_lem s).0,
            ap (λ (u : Tables). u.load_address) (load_gdt_lem s).0,
          );
          serial = serial;
          cursor = row;
          screen = inside;
          interrupts = on';
        },
        same,
      )
