-- ===== src/Start/Pages.antt =====
-- src/c/main.c: after `MEM_init`, `MUL_parse` and `PT_init` pages can be handed out.
use mathlib.Core.Path.{subst}
use implement_os.Prelude.{
  ℕ, ◌+◌, ◌-◌, ◌^◌, ◌≤◌, ◌<◌, ◌≡◌, ◌⊎◌, inl, inr, refl, sym, some, List, ◌∷◌, ◌++◌, length,
}
use implement_os.Memory
use implement_os.Memory.{Memory, Structure, page_size}
use implement_os.Memory.FreeList.{Fresh, IsFreeList}
use implement_os.Memory.Pages.{Each}
use implement_os.Memory.Search.{IsBounded}
use implement_os.PageTable
use implement_os.PageTable.{Mmu, slot, get_pml1}
use implement_os.PageTable.Entry.{get_add}
use implement_os.PageTable.EntryLaws.{IsFrame}
use implement_os.PageTable.Address.{IsIndexed, page_number, page_limit}
use implement_os.PageTable.Tables.{IsAway}
use implement_os.PageTable.Init.{IsAway-Fresh}
use implement_os.PageTable.SetUp.{HasFrames, IsUnused, init-IsTree}
use implement_os.PageTable.Cycle.{IsReadyFor}
use implement_os.PageTable.Ready.{init-IsReadyFor}
use implement_os.Multiboot
use implement_os.Multiboot.{Registers, seen, parse_elf}
use implement_os.Multiboot.Tags.{Tag}
use implement_os.Multiboot.Map.{Region, IsMap}
use implement_os.Multiboot.Count.{HasRun, Listed-many, Listed-Below}
use implement_os.Multiboot.Boot.{IsBoot, IsSparing, IsOutside, parse_lem}
use implement_os.Dispatch.{Kernel, Setting}
use implement_os.Start.{Loaded, start_memory}
use implement_os.Start.Frames.{
  InSection, section-IsAway, Below-IsFrame, low-IsAway, null_walk, split_frames,
}

-- The boot code's tables lie in the kernel's sections, and so does the entry of address 0, or it is in
-- the page at address 0, where the walk ends up at an entry for a large page.
pub record IsInside (info : ℕ → ℕ) (ptr n p3_table : ℕ) (w : ℕ → ℕ) : Type 0 where
  pub first : InSection info ptr n (slot p3_table 0)
  pub second : InSection info ptr n (slot (get_add (w (slot p3_table 0))) 0)
  pub null : InSection info ptr n (get_pml1 p3_table w 0) ⊎ (get_pml1 p3_table w 0 < page_size)
  pub top : InSection info ptr n (slot p3_table 1)

-- where the contents of the tag at `elf` stand
abbrev pub contents : Loaded → ℕ → ℕ
contents l elf = l.exx.ebx + elf + 8

-- The tables stand and no page is in use, and neither they nor the first pages to hand out touch a
-- section of the kernel.
abbrev pub PagesReady : Setting → (info : ℕ → ℕ) → Loaded → (elf : ℕ) → Mmu → Type 0
PagesReady c info l elf mmu =
    (y : ℕ) × (us : List ℕ) × (x : ℕ) × (z : ℕ) × (zs : List ℕ) × IsReadyFor c.p3_table y us x z zs
      mmu
    × IsUnused c.p3_table mmu
    × Each (IsOutside info (contents l elf + 12) (info (contents l elf))) (y ∷ (us ++ (x ∷ z ∷ zs)))

module _ (c : Setting) (l : Loaded) (k : Kernel) where
  start_memory_runs :
      (m : Memory)
      → Multiboot.parse c.fuel l.exx (Memory.init k.mmu.memory) ≡ some m
      → start_memory c l k
        ≡ some (record k { mmu = (PageTable.init c.p3_table (record k.mmu { memory = m })).1 })
  unfolding start_memory
  start_memory_runs m e = rw (start_memory, e)

  HasFrames-of :
      (m : Memory) (y : ℕ) (us : List ℕ) (rest : List ℕ) (ptr n : ℕ)
      → length us ≡ 512
      → IsFreeList m (y ∷ (us ++ rest))
      → Each IsFrame (y ∷ (us ++ rest))
      → Each (IsOutside (seen k.mmu.memory) ptr n) (y ∷ (us ++ rest))
      → ((a : ℕ) → Fresh a (y ∷ (us ++ rest)) → m.words a ≡ k.mmu.memory.words a)
      → IsInside (seen k.mmu.memory) ptr n c.p3_table k.mmu.memory.words
      → HasFrames c.p3_table y us rest (record k.mmu { memory = m })
  HasFrames-of m y us rest ptr n full list frames outside kept inside =
      let pages = y ∷ (us ++ rest) in
      let away : (a : ℕ) → InSection (seen k.mmu.memory) ptr n a → Each (IsAway a) pages =
        λ a is. section-IsAway (seen k.mmu.memory) ptr n a pages is outside in
      let same : (a : ℕ)
          → InSection (seen k.mmu.memory) ptr n a
          → m.words a ≡ k.mmu.memory.words a =
        λ a is. kept a (IsAway-Fresh a pages (away a is)) in
      let null : get_pml1 c.p3_table m.words 0 ≡ get_pml1 c.p3_table k.mmu.memory.words 0 =
        null_walk c.p3_table k.mmu.memory.words m.words (same (slot c.p3_table 0) inside.first)
          (same (slot (get_add (k.mmu.memory.words (slot c.p3_table 0))) 0) inside.second) in
      let null_away : Each (IsAway (get_pml1 c.p3_table k.mmu.memory.words 0)) pages =
        elim inside.null [
          | inl is ↦ away (get_pml1 c.p3_table k.mmu.memory.words 0) is
          | inr low ↦
              low-IsAway (get_pml1 c.p3_table k.mmu.memory.words 0) low m.words
                m.free_pages.page_head pages list.linked frames
        ] in
      record {
        full = full;
        list = list;
        frames = frames;
        null_apart = subst (λ a. Each (IsAway a) pages) (sym null) null_away;
        top_apart = away (slot c.p3_table 1) inside.top;
      }

  -- The memory's set-up ends, with a page to hand out, when the boot information's map has 515 free
  -- pages in a row and the boot code's tables lie in the kernel's sections.
  pub start_memory_lem :
      {limit elf elf_size map : ℕ} {ts : List Tag} {rs : List Region}
      → IsBoot c.fuel limit elf elf_size map l.exx ts rs (Memory.init k.mmu.memory)
      → (sections : Memory)
      → parse_elf (elf_size - 8) (contents l elf) (Memory.init k.mmu.memory) ≡ some sections
      → IsBounded sections.structure limit
      → IsMap sections.structure limit 0 rs
      → IsSparing sections l.exx (seen k.mmu.memory l.exx.ebx) rs
      → HasRun sections.structure 515 rs
      → IsInside
          (seen k.mmu.memory)
          (contents l elf + 12)
          (seen k.mmu.memory (contents l elf))
          c.p3_table
          k.mmu.memory.words
      → IsIndexed k.mmu
      → 2 ^ 18 ≤ page_number k.mmu + 1
      → page_number k.mmu + 1 < page_limit
      → (k' : Kernel) × (start_memory c l k ≡ some k')
        × (k' ≡ record k { mmu = k'.mmu })
        × PagesReady c (seen k.mmu.memory) l elf k'.mmu
  unfolding Memory.init
  start_memory_lem {limit} {elf} {rs = rs} b sections elf_runs bounds fits sparing enough inside
        indexed lo hi =
      let (m', ys, runs, list, listed, same, outside, kept) =
        parse_lem b sections elf_runs bounds fits sparing in
      let frames =
        Below-IsFrame limit ys b.small
          (Listed-Below sections.structure limit 0 rs ys fits listed) in
      let (y, us, x, z, zs, e, full) =
        split_frames 512 ys (Listed-many sections.structure 515 rs ys listed enough) in
      let has : HasFrames c.p3_table y us (x ∷ z ∷ zs) (record k.mmu { memory = m' }) =
        HasFrames-of m' y us (x ∷ z ∷ zs) (contents l elf + 12) (seen k.mmu.memory (contents l elf))
          full (subst (IsFreeList m') e list) (subst (Each IsFrame) e frames)
          (subst
            (Each (
              IsOutside (seen k.mmu.memory) (contents l elf + 12)
                (seen k.mmu.memory (contents l elf))))
            e outside)
          (λ a f. kept a (subst (Fresh a) (sym e) f)) inside in
      let indexed' : IsIndexed (record k.mmu { memory = m' }) = record {
        low = indexed.low;
        middle = indexed.middle;
        top = indexed.top;
      } in
      (
        record k { mmu = (PageTable.init c.p3_table (record k.mmu { memory = m' })).1 },
        start_memory_runs m' runs,
        refl,
        (
          y,
          us,
          x,
          z,
          zs,
          init-IsReadyFor has indexed' lo hi,
          (init-IsTree has).2,
          subst
              (Each (
                IsOutside (seen k.mmu.memory) (contents l elf + 12)
                  (seen k.mmu.memory (contents l elf))))
              e outside,
        ),
      )
