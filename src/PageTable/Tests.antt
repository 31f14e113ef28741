-- ===== src/PageTable/Tests.antt =====
-- The page tables of src/c/page_table.c, with the page of the kernel's addresses that comes first.
use implement_os.Prelude.{
  ℕ, ◌+◌, ◌*◌, ◌%◌, ◌^◌, ◌≡◌, refl, ap, ◌∙◌, [], ◌∷◌, ◌++◌, arith, none, true, ◌==◌, if◌then◌else◌,
}
use implement_os.Memory.{page_size}
use implement_os.Memory.FreeList.{IsFreeList}
use implement_os.PageTable.{
  Mmu, get_pml1, mapped_entry, reserved_entry, can_allocate, free_page, alloc_page, alloc_pages,
  alloc_stack_page,
}
use implement_os.PageTable.Entry.{is_allocatable, get_add}
use implement_os.PageTable.Address.{IsIndexed, page_number, alloc_pages_lem, stack_page-collides}
use implement_os.PageTable.Demand.{entry, can_allocate-maps, free_page_lem, free_page-untouched}

-- where the tables stand, and the entry of the address 0x40001000 in them
abbrev p3 : ℕ
p3 = 0x1000

abbrev fault : ℕ
fault = 0x40001000

-- The table at 0x1000 leads to 0x2000 and that to 0x3000, whose second entry is `e`.
abbrev tables : ℕ → ℕ → ℕ
tables e a =
    if a == 0x1008 then 0x2007 else if a == 0x2000 then 0x3007 else if a == 0x3008 then e else 0

abbrev with_entry : ℕ → Mmu
with_entry e = record {
  curr_pml1_index = 0;
  curr_pml2_index = 0;
  curr_pml3_index = 1;
  curr_stack_pml1_index = 511;
  curr_stack_pml2_index = 512;
  curr_stack_pml3_index = 1;
  memory = record {
    structure = record {
      allocated_addresses = [];
      allocated_sizes = [];
      current_allocated_index = none;
      start_address = 0;
      address_space_size = 0;
    };
    free_pages = record { page_head = 0x80000; page_tail = 0x80000; count = 1 };
    words = tables e;
    raised = [];
  };
  machine = record { device = λ log port. 0; log = []; interrupts = true };
}

abbrev reserved : Mmu
reserved = with_entry (2 ^ 52)

one_page : (e : ℕ) → IsFreeList (with_entry e).memory (0x80000 ∷ [])
one_page e = record {
  linked = (refl, λ z. omega arith, refl);
  ends = refl;
  distinct = (tt, tt);
  count = refl;
  small = omega arith;
}

-- The tables lead to the entry.
leads : (e : ℕ) → entry p3 (with_entry e) fault ≡ 0x3008
unfolding get_pml1 get_add
leads e = refl

stands : (e : ℕ) → (with_entry e).memory.words (entry p3 (with_entry e) fault) ≡ e
stands e = ap (with_entry e).memory.words (leads e)

is_reserved : is_allocatable (2 ^ 52) ≡ 1
unfolding is_allocatable
is_reserved = refl

is_not : is_allocatable 0 ≡ 0
unfolding is_allocatable
is_not = refl

reserved-IsIndexed : IsIndexed reserved
reserved-IsIndexed = record { low = omega arith; middle = omega arith; top = omega arith }

alloc_pages_lem_example :
    let (a, s) = alloc_pages p3 1 reserved in
    (a ≡ page_size * (page_number reserved + 1))
    × IsIndexed s
    × (page_number s ≡ page_number reserved + 1)
alloc_pages_lem_example =
    alloc_pages_lem p3 1 reserved-IsIndexed (omega arith) (omega arith) (omega arith)

-- the heap just before the page that the stack took
abbrev later : Mmu
later = record reserved { curr_pml1_index = 509 }

later-IsIndexed : IsIndexed later
later-IsIndexed = record { low = omega arith; middle = omega arith; top = omega arith }

stack_page-collides_example : (alloc_stack_page p3 reserved).0 ≡ (alloc_page p3 later).0
stack_page-collides_example = stack_page-collides p3 reserved later refl refl later-IsIndexed refl

can_allocate-maps_example :
    let (done, s) = can_allocate p3 fault reserved in
    (done ≡ 1) × (s.memory.words (entry p3 reserved fault) ≡ 0x80000 + 7) × IsFreeList s.memory []
can_allocate-maps_example =
    can_allocate-maps p3 reserved fault 0x80000 []
      (ap is_allocatable (stands (2 ^ 52)) ∙ is_reserved) (one_page (2 ^ 52)) (refl, omega arith) tt

free_page_lem_example :
    let s = (free_page p3 fault (with_entry (mapped_entry 0x90000))).1 in
    IsFreeList s.memory ((0x80000 ∷ []) ++ (0x90000 ∷ []))
    × (s.memory.words (entry p3 (with_entry (mapped_entry 0x90000)) fault) ≡ 0)
    × (s.machine.interrupts ≡ true)
free_page_lem_example =
    free_page_lem p3 (with_entry (mapped_entry 0x90000)) fault 0x90000 0x80000 []
      (stands (mapped_entry 0x90000)) (refl, omega arith) (one_page (mapped_entry 0x90000))
      (λ z. omega arith) (λ z. omega arith, tt) refl (omega arith)
      (
        λ z. omega (arith, leads (mapped_entry 0x90000)),
        (λ z. omega (arith, leads (mapped_entry 0x90000)), tt),
      )

free_page-untouched_example :
    let s = (free_page p3 fault (with_entry reserved_entry)).1 in
    (s.memory.free_pages.page_tail ≡ 0) × (s.memory.free_pages.count ≡ (1 + 1) % 2 ^ 32)
free_page-untouched_example =
    free_page-untouched p3 (with_entry reserved_entry) fault (stands reserved_entry)
