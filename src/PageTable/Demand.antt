-- ===== src/PageTable/Demand.antt =====
-- src/c/page_table.c: a page is mapped on its first use, and its frame goes back when it is freed.
use implement_os.Prelude.{
  ℕ, ◌+◌, ◌%◌, ◌^◌, ◌<◌, ◌≡◌, ◌≢◌, refl, ◌⊎◌, inl, inr, false, List, [], ◌∷◌, ◌++◌, length, ==_refl,
  arith, ltb,
}
use implement_os.Machine.{cli, sti}
use implement_os.Memory
use implement_os.Memory.{Memory, write}
use implement_os.Memory.FreeList.{Fresh, IsFreeList, Linked-write, pf_alloc_lem, pf_free_lem}
use implement_os.PageTable.{
  Mmu, get_pml1, mapped_entry, reserved_entry, freed_entry, can_allocate, free_page,
}
use implement_os.PageTable.Entry.{is_allocatable, get_add, set_add, set_present, set_allocatable}
use implement_os.PageTable.EntryLaws.{
  IsFrame, mapped_entry-frame, mapped_entry_lem, freed_entry_lem,
}

-- A write outside the listed pages keeps the list.
pub IsFreeList-write :
    {m : Memory} (y v : ℕ) (pages : List ℕ)
    → IsFreeList m pages
    → Fresh y pages
    → IsFreeList (record m { words = write m.words y v }) pages
IsFreeList-write {m} y v pages f fr = record {
  linked = Linked-write m.words y v m.free_pages.page_head pages 0 f.linked fr;
  ends = f.ends;
  distinct = f.distinct;
  count = f.count;
  small = f.small;
}

module _ (p3_table : ℕ) where
  abbrev pub entry : Mmu → ℕ → ℕ
  entry s add = get_pml1 p3_table s.memory.words add

  -- A page fault at an address whose entry is allocatable, with a page-aligned frame below 2^52
  -- first on the free list and the entry outside the other free pages, makes PT_can_allocate
  -- return 1, store that frame with the present, writable and user bits in the entry and take
  -- only that frame off the list.
  pub can_allocate-maps :
      (s : Mmu) (add x : ℕ) (xs : List ℕ)
      → is_allocatable (s.memory.words (entry s add)) ≡ 1
      → IsFreeList s.memory (x ∷ xs)
      → IsFrame x
      → Fresh (entry s add) xs
      → let (done, s') = can_allocate p3_table add s in
        (done ≡ 1) × (s'.memory.words (entry s add) ≡ x + 7) × IsFreeList s'.memory xs
  unfolding can_allocate
  can_allocate-maps s add x xs a f h fr =
      let some_frame : ltb (Memory.count_free_pages s.memory) 1 ≡ false = ground (arith, f.count) in
      let taken = pf_alloc_lem (x ∷ xs) f in
      rw (a, some_frame)
        (
          refl,
          rw (==_refl (entry s add), taken.0) (mapped_entry-frame h),
          IsFreeList-write (entry s add) (mapped_entry (Memory.pf_alloc s.memory).0) xs taken.1 fr,
        )

  -- PT_can_allocate at an address whose entry is not allocatable, or with an empty free list,
  -- returns 0 and changes nothing.
  pub can_allocate-refuses :
      (s : Mmu) (add : ℕ)
      → (is_allocatable (s.memory.words (entry s add)) ≡ 0) ⊎ IsFreeList s.memory []
      → can_allocate p3_table add s ≡ (0, s)
  unfolding can_allocate
  can_allocate-refuses s add (inl e) = rw e
  can_allocate-refuses s add (inr f) = ground (arith, f.count)

  -- MMU_free_page of an address whose entry maps a page-aligned frame below 2^52 puts that
  -- frame at the end of the free list, clears the entry and leaves the interrupt flag as it
  -- was. It holds when the free list is not empty, the frame is not 0 and not on it, the
  -- frame's first word is 0, the count does not wrap and the entry is in none of these pages.
  pub free_page_lem :
      (s : Mmu) (add x y : ℕ) (ys : List ℕ)
      → s.memory.words (entry s add) ≡ mapped_entry x
      → IsFrame x
      → IsFreeList s.memory (y ∷ ys)
      → x ≢ 0
      → Fresh x (y ∷ ys)
      → s.memory.words x ≡ 0
      → length (y ∷ ys) + 1 < 2 ^ 32
      → Fresh (entry s add) ((y ∷ ys) ++ (x ∷ []))
      → let s' = (free_page p3_table add s).1 in
        IsFreeList s'.memory ((y ∷ ys) ++ (x ∷ []))
        × (s'.memory.words (entry s add) ≡ 0)
        × (s'.machine.interrupts ≡ s.machine.interrupts)
  unfolding free_page cli sti
  free_page_lem s add x y ys e fx f ne fr z h away =
      let frame : get_add (s.memory.words (entry s add)) ≡ x = rw e (mapped_entry_lem fx).2 in
      let back = pf_free_lem x y ys f ne fr z h in
      let kept = IsFreeList-write (entry s add) freed_entry ((y ∷ ys) ++ (x ∷ [])) back away in
      rw frame (kept, rw (==_refl (entry s add)) freed_entry_lem, ground arith)

  -- MMU_free_page of an address whose entry is reserved and has never been touched makes
  -- address 0 the tail of the free list and adds one to its count.
  pub free_page-untouched :
      (s : Mmu) (add : ℕ)
      → s.memory.words (entry s add) ≡ reserved_entry
      → let s' = (free_page p3_table add s).1 in
        (s'.memory.free_pages.page_tail ≡ 0)
        × (s'.memory.free_pages.count ≡ (s.memory.free_pages.count + 1) % 2 ^ 32)
  unfolding free_page cli sti get_add set_allocatable set_add set_present Memory.pf_free
  free_page-untouched s add e = (rw e, refl)
