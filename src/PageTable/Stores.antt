-- ===== src/PageTable/Stores.antt =====
-- src/c/page_table.c: what `MMU_alloc_page`, `PT_can_allocate` and `MMU_free_page` write.
use implement_os.Prelude.{
  ℕ, ◌+◌, ◌%◌, ◌^◌, ◌<◌, ◌≡◌, ◌≢◌, refl, sym, ap, ◌∙◌, arith, false, List, [], ◌∷◌, ◌++◌, length,
  length-append, ltb, ==_refl,
}
use implement_os.Machine.{cli, sti}
use implement_os.Memory
use implement_os.Memory.{Memory, write, pf_alloc, pf_free}
use implement_os.Memory.FreeList.{
  Fresh, Linked, Linked-write, IsFreeList, Distinct, last-append, Distinct-append, pf_alloc_lem,
  pf_free_links,
}
use implement_os.PageTable.{
  Mmu, reserved_entry, mapped_entry, freed_entry, bump, reserve, alloc_page, can_allocate,
  free_page,
}
use implement_os.PageTable.Entry.{is_allocatable, get_add}
use implement_os.PageTable.EntryLaws.{IsFrame, mapped_entry_lem, freed_entry_lem}
use implement_os.PageTable.Address.{IsIndexed, page_number, page_limit}
use implement_os.PageTable.Demand.{entry}

-- a list of free pages whose last link is `v`, which is 0 in a list that ends
pub record EndsIn (v : ℕ) (m : Memory) (x : ℕ) (xs : List ℕ) (y : ℕ) : Type 0 where
  pub linked : Linked m.words m.free_pages.page_head ((x ∷ xs) ++ (y ∷ [])) v
  pub tail : m.free_pages.page_tail ≡ y
  pub count : m.free_pages.count ≡ length (x ∷ xs) + 1

pf_free-EndsIn :
    {m : Memory} (y x : ℕ) (xs : List ℕ)
    → IsFreeList m (x ∷ xs)
    → y ≢ 0
    → Fresh y (x ∷ xs)
    → length (x ∷ xs) + 1 < 2 ^ 32
    → EndsIn (m.words y) (pf_free y m) x xs y
unfolding pf_free
pf_free-EndsIn {m} y x xs f ne fr h = record {
  linked = pf_free_links y x xs f ne fr;
  tail = refl;
  count = ap (λ c. (c + 1) % 2 ^ 32) f.count ∙ omega arith;
}

EndsIn-write :
    {v : ℕ} {m : Memory} {x y : ℕ} {xs : List ℕ} (b u : ℕ)
    → Fresh b ((x ∷ xs) ++ (y ∷ []))
    → EndsIn v m x xs y
    → EndsIn v (record m { words = write m.words b u }) x xs y
EndsIn-write {v} {m} {x} {y} {xs} b u fr e = record {
  linked = Linked-write m.words b u m.free_pages.page_head ((x ∷ xs) ++ (y ∷ [])) v e.linked fr;
  tail = e.tail;
  count = e.count;
}

pub EndsIn-IsFreeList :
    {m : Memory} {x y : ℕ} {xs : List ℕ}
    → EndsIn 0 m x xs y
    → Distinct (y ∷ x ∷ xs)
    → length (x ∷ xs) + 1 < 2 ^ 32
    → IsFreeList m ((x ∷ xs) ++ (y ∷ []))
EndsIn-IsFreeList {m} {x} {y} {xs} e d h = record {
  linked = e.linked;
  ends = e.tail ∙ sym (last-append x y xs);
  distinct = Distinct-append y (x ∷ xs) d.1 d.0;
  count = omega (arith, e.count, length-append {0} xs (y ∷ []));
  small = omega (arith, length-append {0} xs (y ∷ []));
}

module _ (p3_table : ℕ) where
  reserve-stores :
      (s : Mmu)
      → ltb 1 s.curr_pml3_index ≡ false
      → (reserve p3_table s).1.memory ≡ record (s.memory) {
        words = write s.memory.words (entry p3_table s (reserve p3_table s).0) reserved_entry;
      }
  unfolding reserve
  reserve-stores s e = rw e

  bump-in_gigabyte :
      (s : Mmu)
      → IsIndexed s
      → page_number s + 1 < page_limit
      → ltb 1 (bump p3_table s).curr_pml3_index ≡ false
  unfolding bump
  bump-in_gigabyte s i h = ground (arith, i.low, i.middle, i.top)

  -- MMU_alloc_page writes the entry of the address that it returns, and nothing else.
  pub alloc_page-stores :
      (s : Mmu)
      → IsIndexed s
      → page_number s + 1 < page_limit
      → (alloc_page p3_table s).1.memory ≡ record (s.memory) {
        words = write s.memory.words (entry p3_table s (alloc_page p3_table s).0) reserved_entry;
      }
  unfolding alloc_page cli sti bump
  alloc_page-stores s i h =
      let quiet : Mmu = record s { machine = (cli s.machine).1 } in
      reserve-stores (bump p3_table quiet)
        (bump-in_gigabyte quiet (record { low = i.low; middle = i.middle; top = i.top }) h)

  -- PT_can_allocate writes the entry, and nothing else.
  pub can_allocate-stores :
      (s : Mmu) (add x : ℕ) (xs : List ℕ)
      → is_allocatable (s.memory.words (entry p3_table s add)) ≡ 1
      → IsFreeList s.memory (x ∷ xs)
      → (can_allocate p3_table add s).1.memory.words
        ≡ write s.memory.words (entry p3_table s add) (mapped_entry x)
  unfolding can_allocate
  can_allocate-stores s add x xs a f =
      let some_frame : ltb (Memory.count_free_pages s.memory) 1 ≡ false = ground (arith, f.count) in
      let taken = pf_alloc_lem (x ∷ xs) f in
      rw (a, some_frame)
        (ap (λ p. write (pf_alloc s.memory).1.words (entry p3_table s add) (mapped_entry p)) taken.0
          ∙ ap (λ w. write w (entry p3_table s add) (mapped_entry x)) taken.2)

  -- MMU_free_page puts the frame behind the free pages, whose last link is then its first word.
  pub free_page-EndsIn :
      (s : Mmu) (add x y : ℕ) (ys : List ℕ)
      → s.memory.words (entry p3_table s add) ≡ mapped_entry x
      → IsFrame x
      → IsFreeList s.memory (y ∷ ys)
      → x ≢ 0
      → Fresh x (y ∷ ys)
      → length (y ∷ ys) + 1 < 2 ^ 32
      → Fresh (entry p3_table s add) ((y ∷ ys) ++ (x ∷ []))
      → let s' = (free_page p3_table add s).1 in
        EndsIn (s.memory.words x) s'.memory y ys x
        × (s'.memory.words (entry p3_table s add) ≡ 0)
        × (s'.machine.interrupts ≡ s.machine.interrupts)
  unfolding free_page cli sti
  free_page-EndsIn s add x y ys e fx f ne fr h away =
      let frame : get_add (s.memory.words (entry p3_table s add)) ≡ x =
        rw e (mapped_entry_lem fx).2 in
      let back =
        EndsIn-write (entry p3_table s add) freed_entry away (pf_free-EndsIn x y ys f ne fr h) in
      rw frame (back, rw (==_refl (entry p3_table s add)) freed_entry_lem, ground arith)
