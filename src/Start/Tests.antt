-- ===== src/Start/Tests.antt =====
-- src/c/main.c: a kernel of one section at 1 MiB, with the page tables of the boot code in it and
-- 4 MiB of memory from there on.
use implement_os.Prelude.{
  ℕ, zero, suc, ◌+◌, ◌*◌, ◌%◌, ◌^◌, ◌<◌, ◌≡◌, ◌≢◌, refl, arith, inl, inr, none, some, false, List,
  [], ◌∷◌, replicate, ◌==◌, if◌then◌else◌,
}
use implement_os.Machine.{Machine}
use implement_os.Memory.{Memory, Structure, span_end, init, add_allocated_span}
use implement_os.Memory.Span.{IsTable}
use implement_os.PageTable.{get_pml1}
use implement_os.PageTable.Entry.{get_add}
use implement_os.Multiboot.{magic, padd_8, word32, elf_loop, parse_elf}
use implement_os.Multiboot.Sections.{section_start, section_size}
use implement_os.Multiboot.Tags.{Tag, TagsAt}
use implement_os.Multiboot.Map.{Region}
use implement_os.Multiboot.Count.{Run}
use implement_os.Multiboot.Boot.{IsBoot}
use implement_os.Dispatch.{Kernel, Setting}
use implement_os.Start.{System, Loaded, set_up}
use implement_os.Start.Pages.{PagesReady}
use implement_os.Start.Devices.{IsStarted}
use implement_os.Start.SetUp.{HasMemory, HasDevices, set_up_lem}

abbrev tags : List Tag
tags =
    record { tag_type = 9; tag_size = 84 }
    ∷ record { tag_type = 6; tag_size = 64 }
    ∷ record { tag_type = 0; tag_size = 8 }
    ∷ []

abbrev regions : List Region
regions =
    record { start = 0; size = 0x9f000; region_type = 2 }
    ∷ record { start = 0x100000; size = 0x400000; region_type = 1 }
    ∷ []

abbrev no_spans : Structure
no_spans = record {
  allocated_addresses = replicate 6 0;
  allocated_sizes = replicate 6 0;
  current_allocated_index = none;
  start_address = 0;
  address_space_size = 0;
}

-- the boot information at 0x8000 and the boot code's tables, whose first entry is for a large page
abbrev words : ℕ → ℕ
words a =
    if a == 0x8000
    then 168
    else if a == 0x8008
    then 84 * 2 ^ 32 + 9
    else if a == 0x8010
    then 64 * 2 ^ 32 + 1
    else if a == 0x8028
    then 1048576 * 2 ^ 32
    else if a == 0x8038
    then 6144 * 2 ^ 32
    else if a == 0x8060
    then 64 * 2 ^ 32 + 6
    else if a == 0x8068
    then 24
    else if a == 0x8078
    then 651264
    else if a == 0x8080
    then 2
    else if a == 0x8088
    then 1048576
    else if a == 0x8090
    then 4194304
    else if a == 0x8098
    then 1
    else if a == 0x80a0
    then 8 * 2 ^ 32
    else if a == 0x100000
    then 0x101003
    else if a == 0x101000
    then 0x83
    else 0

abbrev info : ℕ → ℕ
info = word32 words

tags-TagsAt : TagsAt info 0x8000 8 168 tags
unfolding padd_8 word32
tags-TagsAt = (
  refl,
  refl,
  omega arith,
  omega arith,
  omega arith,
  omega arith,
  (
    refl,
    refl,
    omega arith,
    omega arith,
    omega arith,
    omega arith,
    (refl, refl, omega arith, omega arith, omega arith, omega arith, refl),
  ),
)

abbrev machine : Machine
machine = record {
  device = λ log port. if port == 0x64 then 1 else 0x55;
  log = [];
  interrupts = false;
}

abbrev kernel : Kernel
kernel = record {
  console = record {
    is_capslock = false;
    is_left_shift = false;
    is_right_shift = false;
    vga = record { vga_buff = λ a. 0; current_row = 7; current_col = 0; machine = machine };
  };
  port = record {
    serial_buffer = record {
      buff = replicate 33 0;
      prod_index = 0;
      cons_index = 0;
      consume_func = λ c m. m;
    };
    machine = machine;
  };
  mmu = record {
    curr_pml1_index = 0;
    curr_pml2_index = 0;
    curr_pml3_index = 1;
    curr_stack_pml1_index = 512;
    curr_stack_pml2_index = 512;
    curr_stack_pml3_index = 1;
    memory = record {
      structure = no_spans;
      free_pages = record { page_head = 3; page_tail = 5; count = 7 };
      words = words;
      raised = [];
    };
    machine = machine;
  };
  memory = λ a. 0;
}

abbrev setting : Setting
setting = record {
  fuel = 2000;
  rounds = 100;
  array = λ size c. 1000;
  beyond = λ i. 0;
  p3_table = 0x100000;
  format = λ n. 0;
  args = λ n i. 0;
}

abbrev loaded : Loaded
loaded = record {
  exx = record { eax = magic; ebx = 0x8000 };
  layout = record {
    ist1_stack = 0x110000;
    ist2_stack = 0x120000;
    ist3_stack = 0x130000;
    tss_address = 0x123456789abcdef0;
    gdt_address = 0x140000;
  };
  banner = [];
  test_failed = 300;
}

abbrev system : System
system = record {
  kernel = kernel;
  tables = record { gdt = λ i. 9; tss = λ i. 9; load_size = 9; load_address = 9 };
}

no_spans-IsTable : IsTable no_spans
no_spans-IsTable = record {
  addresses = refl;
  sizes = refl;
  in_use = omega arith;
  small = λ j h. absurd (omega arith);
}

sections_small : (i : ℕ) → i < 1 → section_start info 0x801c i + section_size info 0x801c i < 2 ^ 63
unfolding word32
sections_small zero h = omega arith
sections_small (suc i) h = absurd (omega arith)

kernel-IsBoot : IsBoot 2000 0x500000 8 84 96 loaded.exx tags regions (init kernel.mmu.memory)
unfolding padd_8 init word32
kernel-IsBoot = record {
  loaded = refl;
  aligned = refl;
  tags = tags-TagsAt;
  rounds = omega arith;
  sections_tag = inl (refl, refl, refl, ((λ e. omega arith), ((λ e. omega arith), tt)));
  map_tag = inr ((λ e. omega arith), inl (refl, refl, refl, ((λ e. omega arith), tt)));
  headers = refl;
  entries = (refl, refl);
  regions = (refl, refl, refl, (refl, refl, refl, tt));
  few = (omega arith, omega arith);
  table = no_spans-IsTable;
  no_pages = record { linked = refl; ends = tt; distinct = tt; count = refl; small = omega arith };
  room = (inr (inl (omega arith)), tt);
  low_sections = sections_small;
  small = omega arith;
  enough = omega arith;
}

-- the memory once the section is registered
abbrev sections : Memory
sections = record {
  structure = record no_spans {
    allocated_addresses = 0x100000 ∷ replicate 5 0;
    allocated_sizes = 0x1800 ∷ replicate 5 0;
    current_allocated_index = some 0;
  };
  free_pages = record { page_head = 0; page_tail = 0; count = 0 };
  words = words;
  raised = [];
}

section_runs : parse_elf 76 0x8010 (init kernel.mmu.memory) ≡ some sections
unfolding parse_elf elf_loop add_allocated_span init word32
section_runs = refl

section_ends : (j : ℕ) → j < 1 → span_end sections.structure j < 0x500000
section_ends zero h = omega arith
section_ends (suc j) h = absurd (omega arith)

section_loose : (j : ℕ) → j < 1 → span_end sections.structure j % 4096 ≢ 0
section_loose zero h = λ e. omega arith
section_loose (suc j) h = absurd (omega arith)

pages_free : Run sections.structure 0x102000 515
pages_free k h zero hj = ground arith
pages_free k h (suc j) hj = absurd (omega arith)

kernel-HasMemory : HasMemory setting loaded 0x500000 8 84 96 tags regions sections kernel
unfolding get_pml1 get_add word32 init
kernel-HasMemory = record {
  boot = kernel-IsBoot;
  registered = section_runs;
  bounds = record {
    aligned = refl;
    small = omega arith;
    ends = section_ends;
    loose = section_loose;
  };
  fits = inl (
    (λ e. omega arith),
    inr (
      refl,
      omega arith,
      omega arith,
      (0x102000, (refl, omega arith, omega arith, omega arith, pages_free 0 (omega arith))),
      tt,
    ),
  );
  sparing = ((λ e. absurd (omega arith)), ((λ e p al lo hi cl. inr (omega arith)), tt));
  enough = inr (inl (refl, (0x102000, refl, omega arith, omega arith, omega arith, pages_free)));
  inside = record {
    first = (0, omega arith, omega arith, omega arith);
    second = (0, omega arith, omega arith, omega arith);
    null = inr (omega arith);
    top = (0, omega arith, omega arith, omega arith);
  };
  indexed = record { low = omega arith; middle = omega arith; top = omega arith };
  in_gigabyte = omega arith;
  room = omega arith;
}

kernel-HasDevices : HasDevices setting loaded kernel
kernel-HasDevices = record {
  placed = record {
    tss = omega arith;
    first_stack = omega arith;
    second_stack = omega arith;
    third_stack = omega arith;
  };
  keyboard = record {
    takes = λ log. (0, omega arith, refl);
    answers = λ c before asks. (0, omega arith, refl);
    passes = λ k before. refl;
  };
  storage = refl;
  on_screen = (omega arith, omega arith);
}

set_up_lem_example :
    (s' : System) × (set_up setting loaded system ≡ some s')
    × PagesReady setting info loaded 8 s'.kernel.mmu
    × IsStarted loaded system s'
set_up_lem_example = set_up_lem setting loaded system kernel-HasMemory kernel-HasDevices
