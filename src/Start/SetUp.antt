-- ===== src/Start/SetUp.antt =====
-- src/c/main.c: `kmain` from `MEM_init` to where it turns interrupts on.
use mathlib.Core.Path.{subst}
use implement_os.Prelude.{ℕ, ◌+◌, ◌-◌, ◌^◌, ◌≤◌, ◌<◌, ◌≡◌, sym, some, List, length}
use implement_os.Buffer
use implement_os.Memory
use implement_os.Memory.{Memory}
use implement_os.Memory.Search.{IsBounded}
use implement_os.PageTable.Address.{IsIndexed, page_number, page_limit}
use implement_os.Multiboot.{seen, parse_elf}
use implement_os.Multiboot.Tags.{Tag}
use implement_os.Multiboot.Map.{Region, IsMap}
use implement_os.Multiboot.Count.{HasRun}
use implement_os.Multiboot.Boot.{IsBoot, IsSparing}
use implement_os.Ps2.Setup.{IsResponsive}
use implement_os.Vga.Display.{IsOnScreen, Inside}
use implement_os.Dispatch.{Kernel, Setting, machine}
use implement_os.Start.{System, Loaded, start_memory, start_devices, set_up}
use implement_os.Start.Pages.{IsInside, contents, PagesReady, start_memory_lem}
use implement_os.Start.Devices.{IsPlaced, IsStarted, start_devices_lem}

-- A boot information whose map has 515 free pages in a row behind the sections that `sections`
-- holds, of which none begins in the boot information, and page tables of the boot code inside these.
pub record HasMemory (c : Setting) (l : Loaded) (limit elf elf_size map : ℕ) (ts : List Tag)
    (rs : List Region) (sections : Memory) (k : Kernel) : Type 0 where
  pub boot : IsBoot c.fuel limit elf elf_size map l.exx ts rs (Memory.init k.mmu.memory)
  pub registered :
      parse_elf (elf_size - 8) (contents l elf) (Memory.init k.mmu.memory) ≡ some sections
  pub bounds : IsBounded sections.structure limit
  pub fits : IsMap sections.structure limit 0 rs
  pub sparing : IsSparing sections l.exx (seen k.mmu.memory l.exx.ebx) rs
  pub enough : HasRun sections.structure 515 rs
  pub inside :
      IsInside
        (seen k.mmu.memory)
        (contents l elf + 12)
        (seen k.mmu.memory (contents l elf))
        c.p3_table
        k.mmu.memory.words
  pub indexed : IsIndexed k.mmu
  pub in_gigabyte : 2 ^ 18 ≤ page_number k.mmu + 1
  pub room : page_number k.mmu + 1 < page_limit

-- A keyboard controller that answers, a serial buffer of its size and a cursor on the screen.
pub record HasDevices (c : Setting) (l : Loaded) (k : Kernel) : Type 0 where
  pub placed : IsPlaced l
  pub keyboard : IsResponsive (machine k).device c.fuel
  pub storage : length k.port.serial_buffer.buff ≡ Buffer.buffer_size
  pub on_screen : IsOnScreen k.console.vga

module _ (c : Setting) (l : Loaded) where
  set_up_runs :
      (s : System) (k : Kernel) (s' : System)
      → start_memory c l s.kernel ≡ some k
      → start_devices c l (record s { kernel = k }) ≡ some s'
      → set_up c l s ≡ some s'
  unfolding set_up
  set_up_runs s k s' e f = rw (set_up, e, f)

  -- kmain from MEM_init to sti(1) ends. The page tables then hold 512 tables for the gigabyte,
  -- none of whose pages is mapped or may be allocated, two more frames are free, a page can be
  -- handed out, and none of these frames holds a byte of a section of the kernel. The segment
  -- tables are set up and named for the processor, the serial driver is ready, the cursor is in
  -- a row, nothing outside the screen's memory is written by the prompt, and interrupts are on.
  -- It holds when the boot information is a sequence of tags with one of sections and one of a
  -- memory map whose available regions ascend and have 515 free pages in a row, the boot
  -- information stands at an address that 8 divides and no page of those regions that is clear
  -- of every span begins in it, each section is empty, finds an entry left in the table of
  -- regions or begins within a page of the last span, the sections end below 2^63 and their
  -- spans below a page-aligned limit of at most 2^43 and off page boundaries, the fuel is above
  -- the numbers of tags, of entries and of pages up to the limit, the indices of the last page
  -- handed out are in bounds with a page of the gigabyte left, the boot code's tables lie in
  -- sections and the entry of address 0 there or in the page at address 0, the keyboard
  -- controller answers within the fuel and passes its test, the serial buffer has its size, the
  -- cursor is on the screen and the linker's addresses are below 2^64.
  pub set_up_lem :
      {limit elf elf_size map : ℕ} {ts : List Tag} {rs : List Region} {sections : Memory}
      (s : System)
      → HasMemory c l limit elf elf_size map ts rs sections s.kernel
      → HasDevices c l s.kernel
      → (s' : System) × (set_up c l s ≡ some s')
        × PagesReady c (seen s.kernel.mmu.memory) l elf s'.kernel.mmu
        × IsStarted l s s'
  set_up_lem {elf = elf} {sections = sections} s m d =
      let (k, memory_runs, same, pages) =
        start_memory_lem c l s.kernel m.boot sections m.registered m.bounds m.fits m.sparing
          m.enough m.inside m.indexed m.in_gigabyte m.room in
      let d' : HasDevices c l k = subst (HasDevices c l) (sym same) (record {
        placed = d.placed;
        keyboard = d.keyboard;
        storage = d.storage;
        on_screen = d.on_screen;
      }) in
      let (s', device_runs, started, kept) =
        start_devices_lem c l (record s { kernel = k }) d'.placed d'.keyboard d'.storage
          d'.on_screen in
      (
        s',
        set_up_runs s k s' memory_runs device_runs,
        subst (PagesReady c (seen s.kernel.mmu.memory) l elf) (sym kept) pages,
        record {
          tables = started.tables;
          loaded = started.loaded;
          serial = started.serial;
          cursor = started.cursor;
          screen =
              subst (λ (u : Kernel). Inside u.console.vga s'.kernel.console.vga) same
                started.screen;
          interrupts = started.interrupts;
        },
      )
