-- ===== src/PageTable/Cycle.antt =====
-- src/c/page_table.c: a page from `MMU_alloc_page` over the page fault on its first use to
-- `MMU_free_page`.
use mathlib.Core.Path.{subst}
use implement_os.Prelude.{
  ℕ, ◌+◌, ◌*◌, ◌/◌, ◌%◌, ◌^◌, ◌≤◌, ◌<◌, ◌≡◌, ◌≢◌, sym, ap, ◌∙◌, arith, List, [], ◌∷◌, ◌++◌, length,
  length-append, ltb, true, ==_refl,
}
use implement_os.Memory.{Memory, page_size, write, pf_alloc}
use implement_os.Memory.FreeList.{write-ne, Fresh, Fresh-append, IsFreeList}
use implement_os.Memory.Pages.{Each}
use implement_os.Memory.Faults.{after_allocs, after_allocs-head, alloc_of_head}
use implement_os.PageTable.{
  Mmu, slot, store, get_pml1, reserved_entry, mapped_entry, alloc_page, can_allocate, free_page,
}
use implement_os.PageTable.Entry.{is_allocatable}
use implement_os.PageTable.EntryLaws.{IsFrame, mapped_entry-frame, reserved_entry_lem}
use implement_os.PageTable.Address.{IsIndexed, page_number, page_limit, alloc_page_lem}
use implement_os.PageTable.Demand.{entry, IsFreeList-write, can_allocate-maps}
use implement_os.PageTable.Tables.{slot-frame}
use implement_os.PageTable.Stores.{
  EndsIn, EndsIn-IsFreeList, alloc_page-stores, can_allocate-stores, free_page-EndsIn,
}
use implement_os.PageTable.Walk.{IsTree, leaf, get_pml1-IsTree}
use implement_os.PageTable.Leaf.{IsLeaf, write-IsTree, leaf-IsLeaf}

-- The gigabyte's tables stand, a page of it is left, and two frames or more are free, all apart.
pub record IsReadyFor (p3_table y : ℕ) (ts : List ℕ) (x z : ℕ) (zs : List ℕ) (s : Mmu)
    : Type 0 where
  pub tree : IsTree p3_table y ts s.memory.words
  pub list : IsFreeList s.memory (x ∷ z ∷ zs)
  pub frames : Each IsFrame (x ∷ z ∷ zs)
  pub apart : Each (λ t. Fresh t (x ∷ z ∷ zs)) (y ∷ ts)
  pub top_apart : Fresh (slot p3_table 1) (x ∷ z ∷ zs)
  pub indexed : IsIndexed s
  pub in_gigabyte : 2 ^ 18 ≤ page_number s + 1
  pub room : page_number s + 1 < page_limit

-- the tables, the free list and what one entry holds
record Stage (p3_table y : ℕ) (ts pages : List ℕ) (e v : ℕ) (m : Memory) : Type 0 where
  tree : IsTree p3_table y ts m.words
  list : IsFreeList m pages
  value : m.words e ≡ v

module _ {p3_table y : ℕ} {ts : List ℕ} {x z : ℕ} {zs : List ℕ} {s : Mmu}
    (r : IsReadyFor p3_table y ts x z zs s) where
  address : ℕ
  address = (alloc_page p3_table s).0

  allocated : Mmu
  allocated = (alloc_page p3_table s).1

  touched : Mmu
  touched = (can_allocate p3_table address allocated).1

  address_lem : address ≡ page_size * (page_number s + 1)
  unfolding address
  address_lem =
      let below : ltb (page_number s + 1) page_limit ≡ true = ground (arith, r.room) in
      (alloc_page_lem p3_table r.indexed (omega (arith, r.room))).0 ∙ rw below

  top_index : address / 2 ^ 30 % 512 ≡ 1
  top_index = omega (arith, address_lem, r.in_gigabyte, r.room)

  at_leaf : {w : ℕ → ℕ} → IsTree p3_table y ts w → get_pml1 p3_table w address ≡ leaf ts address
  at_leaf tree = get_pml1-IsTree address tree top_index

  leaf_lem : IsLeaf p3_table y (x ∷ z ∷ zs) (leaf ts address)
  leaf_lem = leaf-IsLeaf (x ∷ z ∷ zs) address r.tree r.frames r.apart.1

  stores :
      allocated.memory
      ≡ record (s.memory) { words = write s.memory.words (leaf ts address) reserved_entry }
  unfolding address allocated
  stores =
      alloc_page-stores p3_table s r.indexed r.room
      ∙ ap (λ e. record (s.memory) { words = write s.memory.words e reserved_entry })
          (at_leaf r.tree)

  allocated_lem : Stage p3_table y ts (x ∷ z ∷ zs) (leaf ts address) reserved_entry allocated.memory
  allocated_lem =
      subst (Stage p3_table y ts (x ∷ z ∷ zs) (leaf ts address) reserved_entry) (sym stores)
        (record {
          tree =
              write-IsTree (leaf ts address) reserved_entry leaf_lem.not_top leaf_lem.not_upper
                r.tree;
          list =
              IsFreeList-write (leaf ts address) reserved_entry (x ∷ z ∷ zs) r.list
                leaf_lem.not_free;
          value = rw (==_refl (leaf ts address));
        })

  may_allocate : is_allocatable (allocated.memory.words (entry p3_table allocated address)) ≡ 1
  may_allocate =
      ap (λ e. is_allocatable (allocated.memory.words e)) (at_leaf allocated_lem.tree)
      ∙ ap is_allocatable allocated_lem.value
      ∙ reserved_entry_lem.1

  fault_lem :
      ((can_allocate p3_table address allocated).0 ≡ 1)
      × Stage p3_table y ts (z ∷ zs) (leaf ts address) (mapped_entry x) touched.memory
  unfolding touched
  fault_lem =
      let at = at_leaf allocated_lem.tree in
      let fresh : Fresh (entry p3_table allocated address) (z ∷ zs) =
        subst (λ e. Fresh e (z ∷ zs)) (sym at) leaf_lem.not_free.1 in
      let maps =
        can_allocate-maps p3_table allocated address x (z ∷ zs) may_allocate allocated_lem.list
          r.frames.0 fresh in
      let writes =
        can_allocate-stores p3_table allocated address x (z ∷ zs) may_allocate allocated_lem.list
        ∙ ap (λ e. write allocated.memory.words e (mapped_entry x)) at in
      (
        maps.0,
        record {
          tree = subst (IsTree p3_table y ts) (sym writes) (
              write-IsTree (leaf ts address) (mapped_entry x) leaf_lem.not_top leaf_lem.not_upper
                allocated_lem.tree);
          list = maps.2;
          value = ap (λ w. w (leaf ts address)) writes ∙ rw (==_refl (leaf ts address));
        },
      )

  -- The page is freed with the word `v` at its start.
  freed_lem :
      (m : Memory)
      → Stage p3_table y ts (z ∷ zs) (leaf ts address) (mapped_entry x) m
      → let s3 : Mmu = record touched { memory = m } in
        let s4 = (free_page p3_table address s3).1 in
        EndsIn (m.words x) s4.memory z zs x × (s4.memory.words (entry p3_table s3 address) ≡ 0)
  freed_lem m st =
      let at = at_leaf st.tree in
      let others : Fresh (leaf ts address) ((z ∷ zs) ++ (x ∷ [])) =
        Fresh-append (leaf ts address) x (z ∷ zs) leaf_lem.not_free.1 leaf_lem.not_free.0 in
      let freed =
        free_page-EndsIn p3_table (record touched { memory = m }) address x z zs
          (ap m.words at ∙ st.value) r.frames.0 st.list r.list.linked.1 r.list.distinct.0
          (omega (arith, r.list.small))
          (subst (λ e. Fresh e ((z ∷ zs) ++ (x ∷ []))) (sym at) others) in
      (freed.0, freed.1)

  -- the program's write to the start of the page
  written_lem :
      (v : ℕ)
      → Stage p3_table y ts
          (z ∷ zs)
          (leaf ts address)
          (mapped_entry x)
          (record (touched.memory) { words = write touched.memory.words x v })
  written_lem v =
      let st = fault_lem.1 in
      record {
        tree =
            write-IsTree x v (λ e. r.top_apart.0 (sym e))
              (λ k h e.
                r.apart.0.0 (
                  omega (arith, slot-frame k st.tree.frames.0 h, st.tree.frames.0.0, r.frames.0.0)))
              st.tree;
        list = IsFreeList-write x v (z ∷ zs) st.list r.list.distinct.0;
        value = write-ne touched.memory.words x (leaf ts address) v leaf_lem.not_free.0 ∙ st.value;
      }

  -- With the gigabyte's tables standing and two or more frames free, MMU_alloc_page returns the
  -- address of the next page; PT_can_allocate of that address, as on the page fault of its
  -- first use, returns 1 and maps the first free frame there; and when the program has written
  -- 0 to the page's first word, MMU_free_page of the address leaves a well-formed free list of
  -- the other frames with this one at its end, and the page's entry 0. It holds when the
  -- indices are in bounds with a page of the gigabyte left, the frames and the tables are page-
  -- aligned, below 2^52 and all different, and none holds the entry that leads to the tables.
  pub page_returns :
      let (a, s1) = alloc_page p3_table s in
      let (done, s2) = can_allocate p3_table a s1 in
      let s3 = (store x 0 s2).1 in
      let s4 = (free_page p3_table a s3).1 in
      (a ≡ page_size * (page_number s + 1))
      × (done ≡ 1)
      × (s2.memory.words (entry p3_table s2 a) ≡ x + 7)
      × IsFreeList s4.memory ((z ∷ zs) ++ (x ∷ []))
      × (s4.memory.words (entry p3_table s3 a) ≡ 0)
  unfolding address allocated touched
  page_returns =
      let mapped = fault_lem in
      let s3 : Mmu = (store x 0 touched).1 in
      let back : Memory = (free_page p3_table address s3).1.memory in
      let freed =
        freed_lem (record (touched.memory) { words = write touched.memory.words x 0 })
          (written_lem 0) in
      (
        address_lem,
        mapped.0,
        ap touched.memory.words (at_leaf mapped.1.tree)
            ∙ mapped.1.value
            ∙ mapped_entry-frame r.frames.0,
        EndsIn-IsFreeList (subst (λ v. EndsIn v back z zs x) (rw (==_refl x)) freed.0)
            r.list.distinct (omega (arith, r.list.small)),
        freed.1,
      )

  -- Until the program writes to it, the page holds the link that it had on the free list.
  first_word : touched.memory.words x ≡ z
  unfolding touched
  first_word =
      let at = at_leaf allocated_lem.tree in
      let apart : x ≢ leaf ts address = λ e. leaf_lem.not_free.0 (sym e) in
      ap (λ w. w x)
        (can_allocate-stores p3_table allocated address x (z ∷ zs) may_allocate allocated_lem.list)
      ∙ write-ne allocated.memory.words (entry p3_table allocated address) x (mapped_entry x)
          (λ e. apart (e ∙ at))
      ∙ ap (λ m. m.words x) stores
      ∙ write-ne s.memory.words (leaf ts address) x reserved_entry apart
      ∙ r.list.linked.2.0

  -- With the gigabyte's tables standing and two or more frames free, a page that is handed out,
  -- mapped on a page fault and freed before its first word is written makes the free list a
  -- ring: MEM_pf_alloc returns the first of the other frames at once, and again after one call
  -- for each of the others and one for the freed frame. It holds when the indices are in bounds
  -- with a page of the gigabyte left, the frames and the tables are page-aligned, below 2^52
  -- and all different, and none holds the entry that leads to the tables.
  pub unwritten_page-twice :
      let (a, s1) = alloc_page p3_table s in
      let s2 = (can_allocate p3_table a s1).1 in
      let m = (free_page p3_table a s2).1.memory in
      ((pf_alloc m).0 ≡ z) × ((pf_alloc (after_allocs (length (z ∷ zs) + 1) m)).0 ≡ z)
  unfolding address allocated touched
  unwritten_page-twice =
      let freed = freed_lem touched.memory fault_lem.1 in
      let m : Memory = (free_page p3_table address touched).1.memory in
      let n : length ((z ∷ zs) ++ (x ∷ [])) ≡ length (z ∷ zs) + 1 =
        length-append {0} (z ∷ zs) (x ∷ []) in
      (
        alloc_of_head m ∙ freed.0.linked.0,
        alloc_of_head (after_allocs (length (z ∷ zs) + 1) m)
            ∙ subst (λ k. (after_allocs k m).free_pages.page_head ≡ touched.memory.words x) n
                (after_allocs-head ((z ∷ zs) ++ (x ∷ [])) m (touched.memory.words x) freed.0.linked)
            ∙ first_word,
      )
