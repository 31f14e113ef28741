-- ===== src/PageTable/Init.antt =====
-- src/c/page_table.c: `PT_init`, and the entry that it leaves for each page of the gigabyte.
use implement_os.Prelude.{
  ℕ, ◌+◌, ◌*◌, ◌≤◌, ◌<◌, ◌≡◌, ◌≢◌, refl, sym, ap, ◌∙◌, arith, ◌⊎◌, inl, inr, List, [], ◌∷◌, ◌++◌,
  length, ==_refl,
}
use implement_os.Memory.{Memory, page_size, write, pf_alloc}
use implement_os.Memory.FreeList.{Fresh, write-ne, IsFreeList, pf_alloc_lem}
use implement_os.Memory.Pages.{Each}
use implement_os.PageTable.{Mmu, slot, null_entry, top_entry, fill_tables, init}
use implement_os.PageTable.Entry.{set_present, set_rw, set_us, set_allocatable}
use implement_os.PageTable.EntryLaws.{IsFrame}
use implement_os.PageTable.TableEntries.{top_entry-frame}
use implement_os.PageTable.Tables.{IsAway}
use implement_os.PageTable.Fill.{OpenTables, Each-left, fill_tables_lem}
use implement_os.PageTable.Demand.{entry, IsFreeList-write}

pub IsAway-Fresh : (a : ℕ) (fs : List ℕ) → Each (IsAway a) fs → Fresh a fs
IsAway-Fresh a [] e = tt
IsAway-Fresh a (f ∷ fs) (away, e) =
    (elim away [ inl lo ↦ λ p. omega arith | inr hi ↦ λ p. omega arith ], IsAway-Fresh a fs e)

null_entry_lem : null_entry ≡ 0
unfolding set_present set_rw set_us set_allocatable
null_entry_lem = refl

-- What `PT_init` leaves: a table of tables at `y`, which leads to the tables `ts`.
pub record IsSetUp (p3_table y : ℕ) (ts rest : List ℕ) (s : Mmu) (m : Memory) : Type 0 where
  pub list : IsFreeList m rest
  pub top : m.words (slot p3_table 1) ≡ y + 7
  pub tables : OpenTables m.words y 0 ts
  pub null_gone : entry p3_table s 0 ≢ slot p3_table 1 → m.words (entry p3_table s 0) ≡ 0
  pub kept :
      (a : ℕ)
      → Each (IsAway a) (y ∷ ts)
      → a ≢ entry p3_table s 0
      → a ≢ slot p3_table 1
      → m.words a ≡ s.memory.words a

module _ (p3_table : ℕ) where
  -- PT_init on a free list of 513 frames or more that lie apart from the entry of address 0 and
  -- that of the gigabyte.
  pub init_lem :
      (s : Mmu) (y : ℕ) (ts rest : List ℕ)
      → length ts ≡ 512
      → IsFreeList s.memory (y ∷ (ts ++ rest))
      → Each IsFrame (y ∷ (ts ++ rest))
      → Each (IsAway (entry p3_table s 0)) (y ∷ (ts ++ rest))
      → Each (IsAway (slot p3_table 1)) (y ∷ (ts ++ rest))
      → (m' : Memory) × ((init p3_table s).1 ≡ record s { memory = m' })
        × IsSetUp p3_table y ts rest s m'
  unfolding init
  init_lem s y ts rest n l fs null_away top_away =
      let null_at = entry p3_table s 0 in
      let top_at = slot p3_table 1 in
      let m1 : Memory = record (s.memory) { words = write s.memory.words null_at null_entry } in
      let l1 =
        IsFreeList-write null_at null_entry (y ∷ (ts ++ rest)) l
          (IsAway-Fresh null_at (y ∷ (ts ++ rest)) null_away) in
      let taken = pf_alloc_lem (y ∷ (ts ++ rest)) l1 in
      let m2 : Memory = (pf_alloc m1).1 in
      let m3 : ℕ → Memory = λ p. record m2 { words = write m2.words top_at (top_entry p) } in
      let go : ℕ → Mmu = λ p. (fill_tables p3_table p 0 512 (record s { memory = m3 p })).1 in
      let l3 =
        IsFreeList-write top_at (top_entry y) (ts ++ rest) taken.1
          (IsAway-Fresh top_at (ts ++ rest) top_away.1) in
      let (m', runs, f) =
        fill_tables_lem p3_table fs.0 0 ts rest (record s { memory = m3 y }) fs.1 l.distinct.0
          (omega arith) l3 in
      let before : (a : ℕ) → a ≢ top_at → (m3 y).words a ≡ m1.words a =
        λ a ne. write-ne m2.words top_at a (top_entry y) ne ∙ ap (λ w. w a) taken.2 in
      let outside : (a : ℕ) → IsAway a y → (a < y + 8 * 0) ⊎ (y + page_size ≤ a) =
        λ a away. elim away [ inl lo ↦ inl (omega arith) | inr hi ↦ inr hi ] in
      (
        m',
        ap go taken.0
            ∙ ap (λ k. (fill_tables p3_table y 0 k (record s { memory = m3 y })).1) (sym n)
            ∙ runs,
        record {
          list = f.list;
          top =
              f.kept top_at (Each-left (IsAway top_at) ts rest top_away.1)
                (outside top_at top_away.0)
              ∙ rw (==_refl top_at) (top_entry-frame fs.0);
          tables = f.tables;
          null_gone = λ ne.
              f.kept null_at (Each-left (IsAway null_at) ts rest null_away.1)
                (outside null_at null_away.0)
              ∙ before null_at ne
              ∙ rw (==_refl null_at) null_entry_lem;
          kept = λ a e ne ne'.
              f.kept a e.1 (outside a e.0)
              ∙ before a ne'
              ∙ write-ne s.memory.words null_at a null_entry ne;
        },
      )
