-- ===== src/Multiboot/Tests.antt =====
-- src/c/multiboot_parser.c: boot information with one section of the kernel and an end tag.
use implement_os.Prelude.{
  ℕ, zero, suc, ◌+◌, ◌*◌, ◌%◌, ◌^◌, ◌<◌, ◌≢◌, inl, inr, ◌≡◌, refl, List, [], ◌∷◌, some, none, arith,
  ◌==◌, if◌then◌else◌,
}
use mathlib.Core.Option.{some-injective}
use mathlib.Core.Path.{subst}
use implement_os.Memory.{Memory, Structure, span_end, add_allocated_span}
use implement_os.Memory.FreeList.{Fresh, IsFreeList}
use implement_os.Memory.Search.{IsFree}
use implement_os.Memory.Pages.{Each}
use implement_os.Memory.Span.{IsTable}
use implement_os.Multiboot.{Registers, magic, padd_8, word32, elf_loop, parse_elf, parse_tag, parse}
use implement_os.Multiboot.Sections.{section_start, section_size}
use implement_os.Multiboot.Map.{Region, Listed}
use implement_os.Multiboot.Boot.{IsBoot, IsOutside, parse_lem}
use implement_os.Multiboot.Tags.{
  Tag, TagsAt, Reads, Keeps, visit, parse_tag-visit, parse_tag-diverges,
}

abbrev registers : Registers
registers = record { eax = magic; ebx = 0x8000 }

-- 104 bytes: the header, a tag of the sections of 84 bytes and an end tag of 8
abbrev words : ℕ → ℕ
words a =
    if a == 0x8000
    then 104
    else if a == 0x8008
    then 84 * 2 ^ 32 + 9
    else if a == 0x8010
    then 64 * 2 ^ 32 + 1
    else if a == 0x8028
    then 1048576 * 2 ^ 32
    else if a == 0x8038
    then 6144 * 2 ^ 32
    else if a == 0x8060
    then 8 * 2 ^ 32
    else 0

abbrev info : ℕ → ℕ
info = word32 words

-- the same with a first tag of size 0
abbrev no_size : ℕ → ℕ
no_size a = if a == 0x8000 then 104 else 0

abbrev no_spans : Structure
no_spans = record {
  allocated_addresses = 0 ∷ 0 ∷ 0 ∷ 0 ∷ 0 ∷ 0 ∷ [];
  allocated_sizes = 0 ∷ 0 ∷ 0 ∷ 0 ∷ 0 ∷ 0 ∷ [];
  current_allocated_index = none;
  start_address = 0;
  address_space_size = 0;
}

no_spans-IsTable : IsTable no_spans
no_spans-IsTable = record {
  addresses = refl;
  sizes = refl;
  in_use = omega arith;
  small = λ j h. absurd (omega arith);
}

abbrev memory : Memory
memory = record {
  structure = no_spans;
  free_pages = record { page_head = 0; page_tail = 0; count = 0 };
  words = words;
  raised = [];
}

abbrev no_size_memory : Memory
no_size_memory = record memory { words = no_size }

abbrev tags : List Tag
tags = record { tag_type = 9; tag_size = 84 } ∷ record { tag_type = 0; tag_size = 8 } ∷ []

tags-TagsAt : TagsAt info 0x8000 8 104 tags
unfolding padd_8 word32
tags-TagsAt = (
  refl,
  refl,
  omega arith,
  omega arith,
  omega arith,
  omega arith,
  (refl, refl, omega arith, omega arith, omega arith, omega arith, refl),
)

tags-Keeps : Keeps info 9 parse_elf 0x8000 104 8 tags memory
unfolding parse_elf elf_loop word32
tags-Keeps = λ m' runs. (
  kept m' runs,
  (λ m2 same. (subst (Reads info 0x8000 0x8068) (some-injective _ _ same) (kept m' runs), tt)),
)
  where
    kept : (m' : Memory) → parse_elf 76 0x8010 memory ≡ some m' → Reads info 0x8000 0x8068 m'
    kept m' runs = subst (Reads info 0x8000 0x8068) (some-injective _ _ runs) (λ a lo hi. refl)

parse_tag-visit_example :
    parse_tag 3 registers 9 parse_elf memory ≡ visit 9 parse_elf 0x8000 8 tags memory
unfolding word32
parse_tag-visit_example =
    parse_tag-visit 3 9 parse_elf registers tags memory refl tags-TagsAt tags-Keeps (omega arith)

parse_tag-diverges_example : parse_tag 70 registers 9 parse_elf no_size_memory ≡ none
unfolding word32
parse_tag-diverges_example =
    parse_tag-diverges 70 9 parse_elf registers no_size_memory refl (omega arith) (λ e. omega arith)
      refl

-- The same with a map of two regions behind: the second, over the section, is available.
abbrev boot_words : ℕ → ℕ
boot_words a =
    if a == 0x8000
    then 168
    else if a == 0x8008
    then 84 * 2 ^ 32 + 9
    else if a == 0x8010
    then 64 * 2 ^ 32 + 1
    else if a == 0x8028
    then 1048576 * 2 ^ 32
    else if a == 0x8038
    then 6144 * 2 ^ 32
    else if a == 0x8060
    then 64 * 2 ^ 32 + 6
    else if a == 0x8068
    then 24
    else if a == 0x8078
    then 651264
    else if a == 0x8080
    then 2
    else if a == 0x8088
    then 1048576
    else if a == 0x8090
    then 32768
    else if a == 0x8098
    then 1
    else if a == 0x80a0
    then 8 * 2 ^ 32
    else 0

abbrev boot_memory : Memory
boot_memory = record memory { words = boot_words }

abbrev boot_info : ℕ → ℕ
boot_info = word32 boot_words

abbrev boot_tags : List Tag
boot_tags =
    record { tag_type = 9; tag_size = 84 }
    ∷ record { tag_type = 6; tag_size = 64 }
    ∷ record { tag_type = 0; tag_size = 8 }
    ∷ []

abbrev regions : List Region
regions =
    record { start = 0; size = 0x9f000; region_type = 2 }
    ∷ record { start = 0x100000; size = 0x8000; region_type = 1 }
    ∷ []

boot_tags-TagsAt : TagsAt boot_info 0x8000 8 168 boot_tags
unfolding padd_8 word32
boot_tags-TagsAt = (
  refl,
  refl,
  omega arith,
  omega arith,
  omega arith,
  omega arith,
  (
    refl,
    refl,
    omega arith,
    omega arith,
    omega arith,
    omega arith,
    (refl, refl, omega arith, omega arith, omega arith, omega arith, refl),
  ),
)

boot_sections_small :
    (i : ℕ) → i < 1 → section_start boot_info 0x801c i + section_size boot_info 0x801c i < 2 ^ 63
unfolding word32
boot_sections_small zero h = omega arith
boot_sections_small (suc i) h = absurd (omega arith)

memory-IsBoot : IsBoot 1000 0x110000 8 84 96 registers boot_tags regions boot_memory
unfolding padd_8 word32
memory-IsBoot = record {
  loaded = refl;
  aligned = refl;
  tags = boot_tags-TagsAt;
  rounds = omega arith;
  sections_tag = inl (refl, refl, refl, ((λ e. omega arith), ((λ e. omega arith), tt)));
  map_tag = inr ((λ e. omega arith), inl (refl, refl, refl, ((λ e. omega arith), tt)));
  headers = refl;
  entries = (refl, refl);
  regions = (refl, refl, refl, (refl, refl, refl, tt));
  few = (omega arith, omega arith);
  table = no_spans-IsTable;
  no_pages = record { linked = refl; ends = tt; distinct = tt; count = refl; small = omega arith };
  room = (inr (inl (omega arith)), tt);
  low_sections = boot_sections_small;
  small = omega arith;
  enough = omega arith;
}

-- the memory once the section is registered
abbrev with_section : Memory
with_section = record boot_memory {
  structure = record no_spans {
    allocated_addresses = 0x100000 ∷ 0 ∷ 0 ∷ 0 ∷ 0 ∷ 0 ∷ [];
    allocated_sizes = 0x1800 ∷ 0 ∷ 0 ∷ 0 ∷ 0 ∷ 0 ∷ [];
    current_allocated_index = some 0;
  };
}

section_runs : parse_elf 76 0x8010 boot_memory ≡ some with_section
unfolding parse_elf elf_loop add_allocated_span word32
section_runs = refl

section_ends : (j : ℕ) → j < 1 → span_end with_section.structure j < 0x110000
section_ends zero h = omega arith
section_ends (suc j) h = absurd (omega arith)

section_loose : (j : ℕ) → j < 1 → span_end with_section.structure j % 4096 ≢ 0
section_loose zero h = λ e. omega arith
section_loose (suc j) h = absurd (omega arith)

page-IsFree : IsFree with_section.structure 0x102000
page-IsFree zero h = refl
page-IsFree (suc j) h = absurd (omega arith)

parse_lem_example :
    (m' : Memory) × (ys : List ℕ) × (parse 1000 registers boot_memory ≡ some m')
    × IsFreeList m' ys
    × Listed with_section.structure regions ys
    × (m'.structure ≡ with_section.structure)
    × Each (IsOutside boot_info 0x801c 1) ys
    × ((a : ℕ) → Fresh a ys → m'.words a ≡ boot_memory.words a)
unfolding word32
parse_lem_example =
    parse_lem memory-IsBoot with_section section_runs
      (record { aligned = refl; small = omega arith; ends = section_ends; loose = section_loose })
      (inl (
        (λ e. omega arith),
        inr (
          refl,
          omega arith,
          omega arith,
          (0x102000, (refl, omega arith, omega arith, omega arith, page-IsFree)),
          tt,
        ),
      ))
      ((λ e. absurd (omega arith)), ((λ e p al lo hi cl. inr (omega arith)), tt))
