-- ===== src/PageTable/Address.antt =====
-- src/c/page_table.c: the addresses that `MMU_alloc_page`, `MMU_alloc_pages` and
-- `MMU_alloc_stack_page` hand out.
use implement_os.Prelude.{
  ℕ, zero, suc, ◌+◌, ◌-◌, ◌*◌, ◌%◌, ◌^◌, ◌≤◌, ◌<◌, ◌≡◌, refl, ap, ◌∙◌, arith, false, ltb,
  if◌then◌else◌,
}
use implement_os.Machine.{cli, sti}
use implement_os.Memory
use implement_os.Memory.{page_size}
use implement_os.PageTable.{
  Mmu, bump, reserve, alloc_page, alloc_more, alloc_pages, alloc_stack_page,
}

-- The two lower indices are below 512, and the third is 1 or has just left the gigabyte.
pub record IsIndexed (s : Mmu) : Type 0 where
  pub low : s.curr_pml1_index < 512
  pub middle : s.curr_pml2_index < 512
  pub top : s.curr_pml3_index ≤ 2

-- the number of the page that was handed out last
abbrev pub page_number : Mmu → ℕ
page_number s = s.curr_pml3_index * 2 ^ 18 + s.curr_pml2_index * 2 ^ 9 + s.curr_pml1_index

-- the end of the first two gigabytes, in pages
abbrev pub page_limit : ℕ
page_limit = 2 ^ 19

module _ (p3_table : ℕ) where
  bump_lem :
      {s : Mmu}
      → IsIndexed s
      → page_number s + 1 ≤ page_limit
      → IsIndexed (bump p3_table s) × (page_number (bump p3_table s) ≡ page_number s + 1)
  unfolding bump
  bump_lem i h = ground arith

  -- the address of page `n`, and 0 past the end
  abbrev pub address_of : ℕ → ℕ
  address_of n = if ltb n page_limit then page_size * n else 0

  reserve_lem :
      {s : Mmu}
      → IsIndexed s
      → page_number s ≤ page_limit
      → let (a, s') = reserve p3_table s in
        (a ≡ address_of (page_number s)) × IsIndexed s' × (page_number s' ≡ page_number s)
  unfolding reserve
  reserve_lem i h = ground arith

  bump_keeps :
      (s : Mmu) → ((bump p3_table s).memory ≡ s.memory) × ((bump p3_table s).machine ≡ s.machine)
  unfolding bump
  bump_keeps s = (refl, refl)

  reserve_keeps :
      (s : Mmu)
      → ((reserve p3_table s).1.memory.free_pages ≡ s.memory.free_pages)
        × ((reserve p3_table s).1.machine ≡ s.machine)
  unfolding reserve
  reserve_keeps s = ground arith

  -- what `MMU_alloc_page` is to return and leave
  abbrev pub NextPage : Mmu → ℕ × Mmu → Type 0
  NextPage s r =
      (r.0 ≡ address_of (page_number s + 1))
      × IsIndexed r.1
      × (page_number r.1 ≡ page_number s + 1)
      × (r.1.memory.free_pages ≡ s.memory.free_pages)
      × (r.1.machine.interrupts ≡ s.machine.interrupts)

  -- MMU_alloc_page, with its indices in bounds and the number of the next page at most that of
  -- the end of the gigabyte, returns the address of the next page, or 0 at that end, keeps the
  -- indices in bounds and moves them on by one page, and leaves the free pages' record and the
  -- interrupt flag as they were.
  pub alloc_page_lem :
      {s : Mmu} → IsIndexed s → page_number s + 1 ≤ page_limit → NextPage s (alloc_page p3_table s)
  unfolding alloc_page cli sti
  alloc_page_lem {s} i h =
      let quiet : Mmu = record s { machine = (cli s.machine).1 } in
      let b = bump_lem {s = quiet} (record { low = i.low; middle = i.middle; top = i.top }) h in
      let r = reserve_lem b.0 (omega (arith, b.1)) in
      let kept = reserve_keeps (bump p3_table quiet) in
      let kept' = bump_keeps quiet in
      (
        r.0 ∙ ap address_of b.1,
        record { low = r.1.low; middle = r.1.middle; top = r.1.top },
        r.2 ∙ b.1,
        kept.0 ∙ ap (λ (m : Memory.Memory). m.free_pages) kept'.0,
        ground (arith, kept.1, kept'.1),
      )

  alloc_more_lem :
      (n : ℕ) {s : Mmu}
      → IsIndexed s
      → page_number s + n ≤ page_limit
      → let s' = (alloc_more p3_table n s).1 in IsIndexed s' × (page_number s' ≡ page_number s + n)
  unfolding alloc_more
  alloc_more_lem zero i h = (i, omega arith)
  alloc_more_lem (suc n) i h =
      let p = alloc_page_lem i (omega arith) in
      let more = alloc_more_lem n p.1 (omega (arith, p.2)) in (more.0, omega (arith, more.1, p.2))

  -- MMU_alloc_pages of a positive number of pages, when as many frames are free and the
  -- gigabyte has room for them, returns the address of the next page after the last one handed
  -- out and moves the indices on by exactly that number, in bounds.
  pub alloc_pages_lem :
      {s : Mmu} (num : ℕ)
      → IsIndexed s
      → 0 < num
      → num ≤ Memory.count_free_pages s.memory
      → page_number s + num < page_limit
      → let (a, s') = alloc_pages p3_table num s in
        (a ≡ page_size * (page_number s + 1))
        × IsIndexed s'
        × (page_number s' ≡ page_number s + num)
  unfolding alloc_pages cli sti
  alloc_pages_lem {s} num i pos free h =
      let quiet : Mmu = record s { machine = (cli s.machine).1 } in
      let some_page : ltb num 1 ≡ false = ground arith in
      let enough : ltb (Memory.count_free_pages s.memory) num ≡ false = ground arith in
      let p =
        alloc_page_lem {s = quiet} (record { low = i.low; middle = i.middle; top = i.top })
          (omega arith) in
      let more = alloc_more_lem (num - 1) p.1 (omega (arith, p.2)) in
      rw (some_page, enough)
        (
          ground (arith, p.0),
          record { low = more.0.low; middle = more.0.middle; top = more.0.top },
          omega (arith, more.1, p.2),
        )

  -- While the stack's upper indices are 512 and 1, as at the start, MMU_alloc_stack_page
  -- returns the page of the first 512 of the gigabyte that the lowered first index names, cut
  -- to nine bits, lowers that index as a 16-bit number and leaves the other two.
  pub alloc_stack_page_lem :
      (s : Mmu)
      → s.curr_stack_pml2_index ≡ 512
      → s.curr_stack_pml3_index ≡ 1
      → let (a, s') = alloc_stack_page p3_table s in
        (a ≡ page_size * (2 ^ 18 + (s.curr_stack_pml1_index + 511) % 512))
        × (s'.curr_stack_pml1_index ≡ (s.curr_stack_pml1_index + 2 ^ 16 - 1) % 2 ^ 16)
        × (s'.curr_stack_pml2_index ≡ 512)
        × (s'.curr_stack_pml3_index ≡ 1)
  unfolding alloc_stack_page cli sti
  alloc_stack_page_lem s e2 e3 = ground arith

  -- When the stack's upper indices are 512 and 1, a heap whose next page has the number of the
  -- stack's next page gets from MMU_alloc_page the very address that MMU_alloc_stack_page
  -- returns.
  pub stack_page-collides :
      (s t : Mmu)
      → s.curr_stack_pml2_index ≡ 512
      → s.curr_stack_pml3_index ≡ 1
      → IsIndexed t
      → page_number t + 1 ≡ 2 ^ 18 + (s.curr_stack_pml1_index + 511) % 512
      → (alloc_stack_page p3_table s).0 ≡ (alloc_page p3_table t).0
  stack_page-collides s t e2 e3 i same =
      let stack = alloc_stack_page_lem s e2 e3 in
      let heap = alloc_page_lem i (omega arith) in ground (arith, stack.0, heap.0)
