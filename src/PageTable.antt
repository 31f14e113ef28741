-- ===== src/PageTable.antt =====
-- src/c/page_table.c: the page tables in physical memory, the addresses that the kernel hands out,
-- and the allocation of a page on its first use. The table that src/asm/boot.asm calls `p3_table`
-- is at an address that the linker chooses: a parameter. The tables are mapped to themselves.
pub mod Entry
pub mod EntryLaws
pub mod TableEntries
pub mod Tables
pub mod Fill
pub mod Address
pub mod Demand
pub mod Init
pub mod Stores
pub mod Walk
pub mod SetUp
pub mod Leaf
pub mod Cycle
pub mod Ready
mod Tests
mod TreeTests
use implement_os.Prelude.{
  ℕ, zero, suc, ◌+◌, ◌-◌, ◌*◌, ◌/◌, ◌%◌, ◌^◌, Bool, true, false, Option, ltb, leb, ◌==◌,
  if◌then◌else◌,
}
use implement_os.Prelude.State.{M, pure, ◌>>=◌, ◌>>◌}
use implement_os.Prelude.Words.{add64}
use implement_os.Machine.{Machine, cli, sti}
use implement_os.Memory
use implement_os.Memory.{Memory, page_size, write}
use Entry.{
  clear, set_present, is_present, set_rw, set_us, set_allocatable, is_allocatable, set_add, get_add,
}

-- the globals of page_table.c, with the memory manager and the machine
pub record Mmu : Type 0 where
  pub curr_pml1_index : ℕ
  pub curr_pml2_index : ℕ
  pub curr_pml3_index : ℕ
  pub curr_stack_pml1_index : ℕ
  pub curr_stack_pml2_index : ℕ
  pub curr_stack_pml3_index : ℕ
  pub memory : Memory
  pub machine : Machine

abbrev pub u16 : ℕ → ℕ
u16 n = n % 2 ^ 16

-- `struct VirtualAddress` and `virt_as_int`: each index is cut to its nine bits.
abbrev pub virtual_address : (pml1 pml2 pml3 : ℕ) → ℕ
virtual_address pml1 pml2 pml3 =
    pml1 % 2 ^ 9 * 2 ^ 12 + pml2 % 2 ^ 9 * 2 ^ 21 + pml3 % 2 ^ 9 * 2 ^ 30

abbrev io : {A : Type 0} → M Machine A → M Mmu A
io m s = let (a, m') = m s.machine in (a, record s { machine = m' })

-- `*pml = v`
abbrev pub store : ℕ → ℕ → M Mmu (Unit {0})
store pml v s = (tt, record s { memory = record (s.memory) { words = write s.memory.words pml v } })

-- The pointer arithmetic is on eight-byte entries.
abbrev pub slot : ℕ → ℕ → ℕ
slot table i = add64 table (8 * i)

-- an entry that `MMU_alloc_page` leaves: absent, and allocatable on first use
abbrev pub reserved_entry : ℕ
reserved_entry = set_allocatable (set_add (set_present (clear 0) false) 0) true

-- an entry that `PT_can_allocate` leaves
abbrev pub mapped_entry : ℕ → ℕ
mapped_entry phys_pf =
    set_rw (set_us (set_present (set_allocatable (set_add (clear 0) phys_pf) false) true) true) true

-- an entry that `MMU_free_page` leaves
abbrev pub freed_entry : ℕ
freed_entry =
    set_us (set_rw (set_add (set_allocatable (set_present (clear 0) false) false) 0) false) false

-- the entry of address 0, and the entries of the tables that `PT_init` fills
abbrev pub null_entry : ℕ
null_entry = set_allocatable (set_us (set_rw (set_present (clear 0) false) false) false) false

abbrev pub user_entry : ℕ
user_entry =
    set_allocatable (set_add (set_rw (set_us (set_present (clear 0) false) true) true) 0) false

abbrev pub table_entry : ℕ → ℕ
table_entry pml1 = set_us (set_rw (set_present (set_add (clear 0) pml1) true) true) true

abbrev pub top_entry : ℕ → ℕ
top_entry pml2 = set_add (set_rw (set_us (set_present (clear 0) true) true) true) pml2

module _ (p3_table : ℕ) where
  -- the address of the lowest entry for an address, through the two tables above it
  unfoldable pub get_pml1 : (ℕ → ℕ) → ℕ → ℕ
  get_pml1 words add =
      let pml3_i = add / 2 ^ 30 % 2 ^ 9 in
      let pml2_i = add / 2 ^ 21 % 2 ^ 9 in
      let pml1_i = add / 2 ^ 12 % 2 ^ 9 in
      let pml2 = get_add (words (slot p3_table pml3_i)) in
      let pml1 = get_add (words (slot pml2 pml2_i)) in slot pml1 pml1_i

  unfoldable pub mmu_is_present : ℕ → Mmu → ℕ
  unfolding get_pml1 is_present
  mmu_is_present pt s = is_present (s.memory.words (get_pml1 s.memory.words pt))

  unfoldable pub mmu_is_allocatable : ℕ → Mmu → ℕ
  unfolding get_pml1 is_allocatable
  mmu_is_allocatable pt s = is_allocatable (s.memory.words (get_pml1 s.memory.words pt))

  -- `PT_can_allocate`, called on a page fault
  unfoldable pub can_allocate : ℕ → Mmu → ℕ × Mmu
  can_allocate add s =
      let pml1_entry = get_pml1 s.memory.words add in
      if is_allocatable (s.memory.words pml1_entry) == 0
      then (0, s)
      else if ltb (Memory.count_free_pages s.memory) 1
      then (0, s)
      else (let (phys_pf, memory') = Memory.pf_alloc s.memory in
          (1, (store pml1_entry (mapped_entry phys_pf) (record s { memory = memory' })).1))

  -- `MMU_alloc_page`, once the three indices are bumped
  reserve : M Mmu ℕ
  reserve s =
      if ltb 1 s.curr_pml3_index
      then (0, s)
      else (let address = virtual_address s.curr_pml1_index s.curr_pml2_index s.curr_pml3_index in
          (address, (store (get_pml1 s.memory.words address) reserved_entry s).1))

  -- One index that reaches 512 goes back to 0 and carries into the next.
  bump : Mmu → Mmu
  bump s =
      let i1 = u16 (s.curr_pml1_index + 1) in
      let c1 = leb 512 i1 in
      let i2 = if c1 then u16 (s.curr_pml2_index + 1) else s.curr_pml2_index in
      let c2 = leb 512 i2 in
      record s {
        curr_pml1_index = if c1 then 0 else i1;
        curr_pml2_index = if c2 then 0 else i2;
        curr_pml3_index = if c2 then u16 (s.curr_pml3_index + 1) else s.curr_pml3_index;
      }

  -- `MMU_alloc_page`: 0 when the indices have left the one gigabyte of addresses.
  unfoldable pub alloc_page : M Mmu ℕ
  unfolding bump reserve
  alloc_page = do
    int_flag ← io cli
    (λ s. (tt, bump s))
    address ← reserve
    io (sti int_flag)
    pure address

  -- `while(--num)`, with the rounds left
  alloc_more : ℕ → M Mmu (Unit {0})
  alloc_more zero s = (tt, s)
  alloc_more (suc n) s = alloc_more n (alloc_page s).1

  -- `MMU_alloc_pages` at `num ≥ 0`
  unfoldable pub alloc_pages : ℕ → M Mmu ℕ
  unfolding alloc_more
  alloc_pages num = do
    int_flag ← io cli
    start_address ← (λ s.
        if ltb num 1
        then (0, s)
        else if ltb (Memory.count_free_pages s.memory) num
        then (0, s)
        else (alloc_page >>= λ a. alloc_more (num - 1) >> pure a) s)
    io (sti int_flag)
    pure start_address

  -- `MMU_free_page`: the frame goes back to the free list, mapped or not.
  unfoldable pub free_page : ℕ → M Mmu (Unit {0})
  free_page add = do
    int_flag ← io cli
    (λ s.
        let pml1 = get_pml1 s.memory.words add in
        let phys_pf = get_add (s.memory.words pml1) in
        store pml1 freed_entry (record s { memory = Memory.pf_free phys_pf s.memory }))
    io (sti int_flag)

  unfoldable pub free_each : ℕ → ℕ → M Mmu (Unit {0})
  free_each address zero s = (tt, s)
  free_each address (suc num) s = free_each (add64 address page_size) num (free_page address s).1

  unfoldable pub free_pages : ℕ → ℕ → M Mmu (Unit {0})
  unfolding free_each
  free_pages start_address num = do
    int_flag ← io cli
    free_each start_address num
    io (sti int_flag)

  -- The indices are `uint16_t`: a decrement goes round at 0, and no test `index < 0` succeeds.
  bump_stack : Mmu → Mmu
  bump_stack s =
      let i1 = u16 (s.curr_stack_pml1_index + 2 ^ 16 - 1) in
      let c1 = ltb i1 0 in
      let i2 = if c1 then u16 (s.curr_stack_pml2_index + 2 ^ 16 - 1) else s.curr_stack_pml2_index in
      let c2 = ltb i2 0 in
      record s {
        curr_stack_pml1_index = if c1 then 511 else i1;
        curr_stack_pml2_index = if c2 then 511 else i2;
        curr_stack_pml3_index =
            if c2 then u16 (s.curr_stack_pml3_index + 2 ^ 16 - 1) else s.curr_stack_pml3_index;
      }

  reserve_stack : M Mmu ℕ
  reserve_stack s =
      if ltb s.curr_stack_pml3_index 1
      then (0, s)
      else (let address =
            virtual_address s.curr_stack_pml1_index s.curr_stack_pml2_index
              s.curr_stack_pml3_index in
          (address, (store (get_pml1 s.memory.words address) reserved_entry s).1))

  unfoldable pub alloc_stack_page : M Mmu ℕ
  unfolding bump_stack reserve_stack
  alloc_stack_page = do
    int_flag ← io cli
    (λ s. (tt, bump_stack s))
    address ← reserve_stack
    io (sti int_flag)
    pure address

  -- The loops of `PT_init`: each of the 512 entries of a table at `pml1`, then the tables.
  unfoldable pub clear_entries : (pml1 j : ℕ) → ℕ → M Mmu (Unit {0})
  clear_entries pml1 j zero s = (tt, s)
  clear_entries pml1 j (suc n) s = clear_entries pml1 (j + 1) n (store (slot pml1 j) user_entry s).1

  unfoldable pub fill_tables : (pml2 i : ℕ) → ℕ → M Mmu (Unit {0})
  fill_tables pml2 i zero s = (tt, s)
  fill_tables pml2 i (suc n) s =
      let (pml1, memory') = Memory.pf_alloc s.memory in
      let s' = (clear_entries pml1 0 512 (record s { memory = memory' })).1 in
      fill_tables pml2 (i + 1) n (store (slot pml2 i) (table_entry pml1) s').1

  unfoldable pub init : M Mmu (Unit {0})
  unfolding clear_entries fill_tables
  init = do
    (λ s. store (get_pml1 s.memory.words 0) null_entry s)
    pml2 ← (λ s. let (a, memory') = Memory.pf_alloc s.memory in (a, record s { memory = memory' }))
    store (slot p3_table 1) (top_entry pml2)
    fill_tables pml2 0 512
