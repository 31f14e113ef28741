-- ===== src/Memory.antt =====
-- src/c/memory_manager.c: the regions to avoid and the list of free page frames. The first eight
-- bytes of a free page hold the address of the next one, so physical memory is part of the state.
pub mod FreeList
pub mod Search
pub mod Open
pub mod Span
pub mod Pages
pub mod Loop
pub mod Space
pub mod Faults
mod Tests
use implement_os.Prelude.{
  ℕ, zero, suc, ◌+◌, ◌-◌, ◌%◌, ◌^◌, Bool, ◌&&◌, Option, none, some, List, ◌∷◌, get_or, set, ltb,
  leb, ◌==◌, if◌then◌else◌,
}
use implement_os.Prelude.Words.{add64, sub64}

abbrev pub page_size : ℕ
page_size = 4096

abbrev pub avoid_region_count : ℕ
avoid_region_count = 6

-- `memory_structure`; `current_allocated_index` is `none` where the source has -1.
pub record Structure : Type 0 where
  pub allocated_addresses : List ℕ
  pub allocated_sizes : List ℕ
  pub current_allocated_index : Option ℕ
  pub start_address : ℕ
  pub address_space_size : ℕ

pub record FreePages : Type 0 where
  pub page_head : ℕ
  pub page_tail : ℕ
  pub count : ℕ

-- `words a` is the `uint64_t` at address `a`; `raised` are the software interrupts that the code
-- has raised, the latest first.
pub record Memory : Type 0 where
  pub structure : Structure
  pub free_pages : FreePages
  pub words : ℕ → ℕ
  pub raised : List ℕ

-- `*(uint64_t*) a = v`
abbrev pub write : (ℕ → ℕ) → ℕ → ℕ → ℕ → ℕ
write w a v b = if b == a then v else w b

-- Entry `k` becomes the last one.
abbrev pub take_entry : Structure → ℕ → ℕ → ℕ → Structure
take_entry s k new_address new_size = record s {
  allocated_addresses = set s.allocated_addresses k new_address;
  allocated_sizes = set s.allocated_sizes k new_size;
  current_allocated_index = some k;
}

-- The last span grows when the new one begins within a page of its end; else an entry is taken.
pub add_next_span : Structure → ℕ → ℕ → ℕ → Structure
add_next_span s curr_reg new_address new_size =
    let curr_addy = get_or s.allocated_addresses curr_reg 0 in
    let curr_size = get_or s.allocated_sizes curr_reg 0 in
    let gap = sub64 new_address (add64 curr_addy curr_size) in
    if leb gap page_size
    then record s {
      allocated_sizes = set s.allocated_sizes curr_reg (add64 curr_size (add64 new_size gap));
    }
    else if leb avoid_region_count (curr_reg + 1)
    then s
    else take_entry s (curr_reg + 1) new_address new_size

-- `PRE_add_allocated_span`
unfoldable pub add_allocated_span : Structure → ℕ → ℕ → Structure
add_allocated_span s new_address new_size =
    if new_size == 0 then s else elim s.current_allocated_index [
      | none ↦ take_entry s 0 new_address new_size
      | some curr_reg ↦ add_next_span s curr_reg new_address new_size
    ]

-- how many entries the loop of `ok_address` looks at
abbrev pub span_count : Structure → ℕ
span_count s = elim s.current_allocated_index [ none ↦ 0 | some k ↦ k + 1 ]

abbrev pub span_start : Structure → ℕ → ℕ
span_start s i = get_or s.allocated_addresses i 0

abbrev pub span_end : Structure → ℕ → ℕ
span_end s i = add64 (span_start s i) (get_or s.allocated_sizes i 0)

-- the test of one entry
abbrev pub overlaps : Structure → ℕ → ℕ → Bool
overlaps s a i = leb a (span_end s i) && leb (span_start s i) (add64 a page_size)

-- The loop from entry `i` on, with the rounds left.
ok_loop : Structure → ℕ → ℕ → ℕ → ℕ
ok_loop s a zero i = 0
ok_loop s a (suc n) i = if overlaps s a i then span_end s i else ok_loop s a n (i + 1)

-- 0 where the page at `a` is clear of every span, else the end of the first that it meets
unfoldable pub ok_address : Structure → ℕ → ℕ
unfolding ok_loop
ok_address s a = ok_loop s a (span_count s) 0

unfoldable pub align_page_size : ℕ → ℕ
align_page_size v = if v % page_size == 0 then v else add64 v (page_size - v % page_size)

-- The recursion has no bound in the source: it takes fuel, and `none` means that it has not
-- returned within it.
unfoldable pub find_free_page : ℕ → Structure → ℕ → Option ℕ
find_free_page zero s start = none
find_free_page (suc fuel) s start =
    let a = align_page_size (if start == 0 then start + 1 else start) in
    let end_address = ok_address s a in
    let rest = find_free_page fuel s (align_page_size end_address) in
    if end_address == 0 then some a else rest

-- The last page of a space: its link is 0, and it is the tail.
abbrev pub close_list : ℕ → Memory → Memory
close_list curr m = record m {
  words = write m.words curr 0;
  free_pages = record (m.free_pages) { page_tail = curr };
}

-- The link from a page to the next one found.
abbrev pub link_page : ℕ → ℕ → Memory → Memory
link_page curr next m = record m {
  words = write m.words curr next;
  free_pages = record (m.free_pages) { count = (m.free_pages.count + 1) % 2 ^ 32 };
}

-- The loop of `PRE_add_address_space` from a page that is on the list already. `search` is the
-- fuel of each `find_free_page`.
pub add_loop : ℕ → ℕ → ℕ → ℕ → Memory → Option Memory
add_loop zero search max_address curr m = none
add_loop (suc fuel) search max_address curr m =
    let walk : Option Memory = elim (find_free_page search m.structure (add64 curr page_size)) [
      | none ↦ none
      | some next ↦
          (let go = add_loop fuel search max_address next (link_page curr next m) in
            if ltb max_address (add64 next page_size) then some (close_list curr m) else go)
    ] in
    if leb (add64 curr page_size) max_address then walk else some m

-- The first page of the space goes behind the tail, or becomes the head; its link is then 0.
unfoldable pub append_page : ℕ → Memory → Memory
append_page curr m =
    let linked =
      if m.free_pages.page_head == 0
      then record m {
        free_pages = record (m.free_pages) {
          page_head = curr;
          page_tail = curr;
          count = (m.free_pages.count + 1) % 2 ^ 32;
        };
      }
      else record m {
        words = write m.words m.free_pages.page_tail curr;
        free_pages = record (m.free_pages) {
          page_tail = curr;
          count = (m.free_pages.count + 1) % 2 ^ 32;
        };
      } in
    record linked { words = write linked.words curr 0 }

-- `PRE_add_address_space`
unfoldable pub add_address_space : ℕ → ℕ → ℕ → Memory → Option Memory
unfolding add_loop
add_address_space fuel start_address space_size m =
    elim (find_free_page fuel m.structure (align_page_size start_address)) [
      | none ↦ none
      | some curr ↦ add_loop fuel fuel (add64 start_address space_size) curr (append_page curr m)
    ]

-- `MEM_pf_alloc`: on an empty list it raises interrupt 13, behind a message that another component
-- prints, and what stands here is what it leaves and returns when the interrupt returns.
unfoldable pub pf_alloc : Memory → ℕ × Memory
pf_alloc m =
    let f = m.free_pages in
    if f.page_head == 0 then (0, record m { raised = 13 ∷ m.raised }) else (
      f.page_head,
      record m {
        free_pages = record f {
          page_head = m.words f.page_head;
          count = (f.count + 2 ^ 32 - 1) % 2 ^ 32;
        };
      },
    )

-- `MEM_pf_free`: the page goes behind the tail, and its own link is left as it is.
unfoldable pub pf_free : ℕ → Memory → Memory
pf_free new_tail m =
    let f = m.free_pages in
    record m {
      words = write m.words f.page_tail new_tail;
      free_pages = record f { page_tail = new_tail; count = (f.count + 1) % 2 ^ 32 };
    }

abbrev pub count_free_pages : Memory → ℕ
count_free_pages m = m.free_pages.count

-- `PRE_traverse`: how many links lead from the head to the tail.
traverse_from : ℕ → Memory → ℕ → ℕ → Option ℕ
traverse_from zero m address counter = none
traverse_from (suc fuel) m address counter =
    let rest = traverse_from fuel m (m.words address) (counter + 1) in
    if address == m.free_pages.page_tail then some counter else rest

unfoldable pub traverse : ℕ → Memory → Option ℕ
unfolding traverse_from
traverse fuel m = traverse_from fuel m m.free_pages.page_head 0

-- `MEM_init`
unfoldable pub init : Memory → Memory
init m = record m {
  structure = record (m.structure) {
    current_allocated_index = none;
    start_address = 0;
    address_space_size = 0;
  };
  free_pages = record { page_head = 0; page_tail = 0; count = 0 };
}
