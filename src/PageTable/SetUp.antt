-- ===== src/PageTable/SetUp.antt =====
-- src/c/page_table.c: the gigabyte of addresses after `PT_init`.
use mathlib.Core.Path.{subst}
use implement_os.Prelude.{
  ℕ, zero, suc, ◌+◌, ◌/◌, ◌%◌, ◌^◌, ◌<◌, ◌≡◌, refl, sym, ap, ◌∙◌, arith, List, [], ◌∷◌, ◌++◌,
  length, get_or,
}
use implement_os.Memory.FreeList.{Fresh-left, Distinct, IsFreeList}
use implement_os.Memory.Pages.{Each}
use implement_os.PageTable.{
  Mmu, slot, get_pml1, user_entry, mmu_is_present, mmu_is_allocatable, init,
}
use implement_os.PageTable.Entry.{is_present, is_allocatable}
use implement_os.PageTable.EntryLaws.{IsFrame}
use implement_os.PageTable.TableEntries.{user_entry_lem}
use implement_os.PageTable.Tables.{IsAway}
use implement_os.PageTable.Fill.{OpenTables, Each-left}
use implement_os.PageTable.Demand.{entry}
use implement_os.PageTable.Init.{init_lem}
use implement_os.PageTable.Walk.{Leads, IsTree, get_pml1-IsTree}

OpenTables-Leads : (w : ℕ → ℕ) (y i : ℕ) (ts : List ℕ) → OpenTables w y i ts → Leads w y i ts
OpenTables-Leads w y i [] o = tt
OpenTables-Leads w y i (t ∷ ts) o = (o.0, OpenTables-Leads w y (i + 1) ts o.2)

OpenTables-at :
    (w : ℕ → ℕ) (y i : ℕ) (ts : List ℕ) (k j : ℕ)
    → OpenTables w y i ts
    → k < length ts
    → j < 512
    → w (slot (get_or ts k 0) j) ≡ user_entry
OpenTables-at w y i [] k j o h lt = absurd (omega arith)
OpenTables-at w y i (t ∷ ts) zero j o h lt = o.1 j lt
OpenTables-at w y i (t ∷ ts) (suc k) j o h lt =
    OpenTables-at w y (i + 1) ts k j o.2 (omega arith) lt

pub Distinct-left : (xs ys : List ℕ) → Distinct (xs ++ ys) → Distinct xs
Distinct-left [] ys d = tt
Distinct-left (x ∷ xs) ys d = (Fresh-left x xs ys d.0, Distinct-left xs ys d.1)

-- What `PT_init` takes: 513 frames from the free list, apart from the entry of address 0 and from
-- that of the gigabyte.
pub record HasFrames (p3_table y : ℕ) (ts rest : List ℕ) (s : Mmu) : Type 0 where
  pub full : length ts ≡ 512
  pub list : IsFreeList s.memory (y ∷ (ts ++ rest))
  pub frames : Each IsFrame (y ∷ (ts ++ rest))
  pub null_apart : Each (IsAway (entry p3_table s 0)) (y ∷ (ts ++ rest))
  pub top_apart : Each (IsAway (slot p3_table 1)) (y ∷ (ts ++ rest))

-- No page of the gigabyte is mapped, and none may be allocated.
abbrev pub IsUnused : (p3_table : ℕ) → Mmu → Type 0
IsUnused p3_table s =
    (add : ℕ)
    → add / 2 ^ 30 % 512 ≡ 1
    → (mmu_is_present p3_table add s ≡ 0) × (mmu_is_allocatable p3_table add s ≡ 0)

module _ {p3_table y : ℕ} {ts rest : List ℕ} {s : Mmu} (h : HasFrames p3_table y ts rest s) where
  -- PT_init on a free list of 513 frames or more takes the first 513 off it and makes of them a
  -- table that the gigabyte's entry leads to and the 512 tables that it leads to, in their
  -- order; no page of the gigabyte is then present or may be allocated, and nothing but the
  -- memory changes. It holds when the frames are page-aligned and below 2^52, and the entry of
  -- address 0 and that of the gigabyte lie in none of them.
  pub init-IsTree :
      let s' = (init p3_table s).1 in
      IsTree p3_table y ts s'.memory.words
      × IsFreeList s'.memory rest
      × IsUnused p3_table s'
      × (s' ≡ record s { memory = s'.memory })
  unfolding mmu_is_present mmu_is_allocatable
  init-IsTree =
      let (m', runs, done) =
        init_lem p3_table s y ts rest h.full h.list h.frames h.null_apart h.top_apart in
      let tree : IsTree p3_table y ts m'.words = record {
        top = done.top;
        leads = OpenTables-Leads m'.words y 0 ts done.tables;
        frames = (h.frames.0, Each-left IsFrame ts rest h.frames.1);
        full = h.full;
        distinct = Distinct-left (y ∷ ts) rest h.list.distinct;
        apart = Each-left (IsAway (slot p3_table 1)) (y ∷ ts) rest h.top_apart;
      } in
      let at : (add : ℕ)
          → add / 2 ^ 30 % 512 ≡ 1
          → m'.words (get_pml1 p3_table m'.words add) ≡ user_entry =
        λ add e.
          ap m'.words (get_pml1-IsTree add tree e)
          ∙ OpenTables-at m'.words y 0 ts (add / 2 ^ 21 % 512) (add / 2 ^ 12 % 512) done.tables
              (omega (arith, h.full)) (omega arith) in
      subst
        (λ (u : Mmu).
          IsTree p3_table y ts u.memory.words
          × IsFreeList u.memory rest
          × IsUnused p3_table u
          × (u ≡ record s { memory = u.memory }))
        (sym runs)
        (
          tree,
          done.list,
          (λ add e. (
            ap is_present (at add e) ∙ user_entry_lem.0,
            ap is_allocatable (at add e) ∙ user_entry_lem.1,
          )),
          refl,
        )
