-- ===== src/Heap/Big.antt =====
-- src/c/allocator.c: blocks that no pool fits, which get pages of their own.
use implement_os.Prelude.{
  ℕ, zero, suc, ◌+◌, ◌-◌, ◌/◌, ◌%◌, ◌^◌, ◌≤◌, ◌<◌, ◌≡◌, refl, ap, ◌∙◌, none, some, arith, ltb,
  Bool-cases, inl, inr,
}
use implement_os.Memory.{page_size}
use implement_os.PageTable
use implement_os.PageTable.{Mmu}
use implement_os.PageTable.Address.{IsIndexed, page_number, page_limit, alloc_page_lem}
use implement_os.Heap.{
  Heap, header_size, as_int, put_header, find_pool, big_pages, kmalloc_big, kmalloc, kfree_big,
}
use implement_os.Heap.Grow.{next_page}

-- how many pages hold that many bytes
abbrev pub page_count : ℕ → ℕ
page_count size = (size + (page_size - 1)) / page_size

module _ (p3_table : ℕ) where
  big_pages_lem :
      (fuel required : ℕ) {s : Mmu}
      → IsIndexed s
      → page_number s + page_count required ≤ page_limit
      → required < fuel
      → (s' : Mmu) × (big_pages p3_table fuel required s ≡ some s')
        × IsIndexed s'
        × (page_number s' ≡ page_number s + page_count required)
  unfolding big_pages
  big_pages_lem zero required i room lt = absurd (omega arith)
  big_pages_lem (suc fuel) required {s} i room lt = elim (Bool-cases (ltb 0 required)) [
    | inr e ↦ (s, rw e, i, ground arith)
    | inl e ↦
        let (_, i', n, _, _) = alloc_page_lem p3_table i (ground arith) in
        let (s', runs, i'', n') =
          big_pages_lem fuel (required - page_size) {s = (PageTable.alloc_page p3_table s).1} i'
            (ground (arith, n)) (ground arith) in
        (s', rw e runs, i'', ground (arith, n, n'))
  ]

  big_runs :
      (fuel size page : ℕ) (h : Heap) (s : Mmu)
      → find_pool ((size + header_size) % 2 ^ 32) h.pools 0 ≡ none
      → (PageTable.alloc_page p3_table h.mmu).0 ≡ page
      → big_pages p3_table fuel
          (as_int ((size + header_size) % 2 ^ 32))
          (PageTable.alloc_page p3_table h.mmu).1
        ≡ some s
      → kmalloc p3_table (suc fuel) size h
        ≡ some (page + header_size, record h { virt = put_header page 0 size h.virt; mmu = s })
  unfolding kmalloc kmalloc_big
  big_runs fuel size page h s found at runs =
      rw (kmalloc, found, kmalloc_big, runs)
        (ap (λ p. some (p + header_size, record h { virt = put_header p 0 size h.virt; mmu = s }))
          at)

  -- kmalloc of a size that no pool fits, with the header below 2^31 and fuel above both,
  -- returns the address behind a header with no pool and that size at the start of the next
  -- page, and reserves one page more than the size with its header needs. It holds when the
  -- gigabyte has room for these pages.
  pub kmalloc-big :
      (fuel size : ℕ) (h : Heap)
      → find_pool ((size + header_size) % 2 ^ 32) h.pools 0 ≡ none
      → size + header_size < 2 ^ 31
      → IsIndexed h.mmu
      → page_number h.mmu + 1 + page_count (size + header_size) < page_limit
      → size + header_size < fuel
      → (h' : Heap) × (kmalloc p3_table (suc fuel) size h ≡ some (next_page h + header_size, h'))
        × (h'.virt (next_page h) ≡ 0)
        × (h'.virt (next_page h + 8) ≡ size)
        × (h'.pools ≡ h.pools)
        × IsIndexed h'.mmu
        × (page_number h'.mmu ≡ page_number h.mmu + 1 + page_count (size + header_size))
  kmalloc-big fuel size h found small i room lt =
      let (at, i', n, _, _) = alloc_page_lem p3_table i (omega arith) in
      let at_next : (PageTable.alloc_page p3_table h.mmu).0 ≡ next_page h = at ∙ ground arith in
      let required : as_int ((size + header_size) % 2 ^ 32) ≡ size + header_size = ground arith in
      let (s', runs, i'', n') =
        big_pages_lem fuel (size + header_size) {s = (PageTable.alloc_page p3_table h.mmu).1} i'
          (omega (arith, n)) lt in
      (
        record h { virt = put_header (next_page h) 0 size h.virt; mmu = s' },
        big_runs fuel size (next_page h) h s' found at_next (
            ap (λ r. big_pages p3_table fuel r (PageTable.alloc_page p3_table h.mmu).1) required
            ∙ runs),
        ground arith,
        ground arith,
        refl,
        i'',
        omega (arith, n, n'),
      )

  -- kfree_big with fuel above the size does what freeing, one after the other, as many pages as
  -- hold the size without its header does.
  pub kfree_big-free_each :
      (fuel address size : ℕ) (s : Mmu)
      → size < fuel
      → kfree_big p3_table fuel address size s
        ≡ some (PageTable.free_each p3_table address (page_count size) s).1
  unfolding kfree_big PageTable.free_each
  kfree_big-free_each zero address size s lt = absurd (omega arith)
  kfree_big-free_each (suc fuel) address size s lt = elim (Bool-cases (ltb 0 size)) [
    | inr e ↦ let z : page_count size ≡ 0 = ground arith in rw (e, z)
    | inl e ↦
        let more : page_count size ≡ suc (page_count (size - page_size)) = ground arith in
        rw (e, more)
          (kfree_big-free_each fuel ((address + page_size) % 2 ^ 64) (size - page_size)
            (PageTable.free_page p3_table address s).1 (ground arith))
  ]
