-- ===== src/Memory/Tests.antt =====
-- The memory manager of src/c/memory_manager.c with the kernel's span and two free pages.
use implement_os.Prelude.{
  ℕ, zero, suc, ◌+◌, ◌%◌, ◌<◌, ◌≡◌, ◌≢◌, refl, [], ◌∷◌, get_or, ◌^◌, arith, some, none, ◌==◌,
  if◌then◌else◌,
}
use implement_os.Memory.{
  Memory, Structure, page_size, span_end, add_allocated_span, find_free_page, add_address_space,
  pf_alloc, pf_free, count_free_pages,
}
use implement_os.Memory.FreeList.{IsFreeList}
use implement_os.Memory.Search.{IsBounded, Found, find_free_page_lem}
use implement_os.Memory.Span.{IsTable, Registers, add_allocated_span-Registers}
use implement_os.Memory.Space.{Added, add_address_space_lem}
use implement_os.Memory.Faults.{find_free_page-diverges, pf_free-lost}

abbrev kernel_span : Structure
kernel_span = record {
  allocated_addresses = 0x100000 ∷ 0 ∷ 0 ∷ 0 ∷ 0 ∷ 0 ∷ [];
  allocated_sizes = 0x1800 ∷ 0 ∷ 0 ∷ 0 ∷ 0 ∷ 0 ∷ [];
  current_allocated_index = some 0;
  start_address = 0;
  address_space_size = 0;
}

-- the same with a span that ends on a page boundary
abbrev even_span : Structure
even_span = record kernel_span { allocated_sizes = 0x1000 ∷ 0 ∷ 0 ∷ 0 ∷ 0 ∷ 0 ∷ [] }

abbrev no_pages : Memory
no_pages = record {
  structure = kernel_span;
  free_pages = record { page_head = 0; page_tail = 0; count = 0 };
  words = λ a. 0;
  raised = [];
}

abbrev two_pages : Memory
two_pages = record {
  structure = kernel_span;
  free_pages = record { page_head = 0x80000; page_tail = 0x90000; count = 2 };
  words = λ a. if a == 0x80000 then 0x90000 else 0;
  raised = [];
}

no_pages-IsFreeList : IsFreeList no_pages []
no_pages-IsFreeList = record {
  linked = refl;
  ends = tt;
  distinct = tt;
  count = refl;
  small = omega arith;
}

two_pages-IsFreeList : IsFreeList two_pages (0x80000 ∷ 0x90000 ∷ [])
two_pages-IsFreeList = record {
  linked = (refl, λ e. omega arith, (refl, λ e. omega arith, refl));
  ends = refl;
  distinct = ((λ e. omega arith, tt), (tt, tt));
  count = refl;
  small = omega arith;
}

kernel_ends : (j : ℕ) → j < 1 → span_end kernel_span j < 0x110000
kernel_ends zero h = omega arith
kernel_ends (suc j) h = absurd (omega arith)

kernel_loose : (j : ℕ) → j < 1 → span_end kernel_span j % page_size ≢ 0
kernel_loose zero h = λ e. omega arith
kernel_loose (suc j) h = absurd (omega arith)

kernel-IsBounded : IsBounded kernel_span 0x110000
kernel-IsBounded = record {
  aligned = refl;
  small = omega arith;
  ends = kernel_ends;
  loose = kernel_loose;
}

add_address_space_lem_example :
    Added two_pages 0x110000 0x100000 0x8000
      (0x80000 ∷ 0x90000 ∷ [])
      (add_address_space 1000 0x100000 0x8000 two_pages)
add_address_space_lem_example = add_address_space_lem (record {
  spans = kernel-IsBounded;
  list = two_pages-IsFreeList;
  behind = (omega arith, (omega arith, tt));
  inside = omega arith;
  nonempty = omega arith;
  room = omega arith;
  enough = omega arith;
})

find_free_page_lem_example :
    (r : ℕ) × (find_free_page 1000 kernel_span 0x100000 ≡ some r)
    × Found kernel_span 0x110000 0x100000 r
find_free_page_lem_example =
    find_free_page_lem kernel-IsBounded 1000 0x100000 (omega arith) (omega arith) (omega arith)

kernel_small :
    (j : ℕ)
    → j < 1
    → get_or kernel_span.allocated_addresses j 0 + get_or kernel_span.allocated_sizes j 0 < 2 ^ 63
kernel_small zero h = omega arith
kernel_small (suc j) h = absurd (omega arith)

kernel-IsTable : IsTable kernel_span
kernel-IsTable = record {
  addresses = refl;
  sizes = refl;
  in_use = omega arith;
  small = kernel_small;
}

add_allocated_span-Registers_example :
    Registers kernel_span (add_allocated_span kernel_span 0x180000 0x2345) 0x180000 0x2345
add_allocated_span-Registers_example =
    add_allocated_span-Registers kernel-IsTable 0x180000 0x2345 (omega arith) (omega arith)
      (omega arith)

find_free_page-diverges_example : find_free_page 50 even_span 0x100000 ≡ none
find_free_page-diverges_example =
    find_free_page-diverges
      (record {
        some_span = omega arith;
        ends = refl;
        starts = omega arith;
        boundary = refl;
        small = omega arith;
      })
      50 0x100000 (omega arith) (omega arith) (omega arith)

pf_free-lost_example :
    (count_free_pages (pf_free 0x70000 no_pages) ≡ 1)
    × ((pf_free 0x70000 no_pages).words no_pages.free_pages.page_tail ≡ 0x70000)
    × (pf_alloc (pf_free 0x70000 no_pages)
        ≡ (0, record (pf_free 0x70000 no_pages) { raised = 13 ∷ [] }))
pf_free-lost_example = pf_free-lost 0x70000 no_pages-IsFreeList
