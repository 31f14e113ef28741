-- ===== src/PageTable/Fill.antt =====
-- src/c/page_table.c: `PT_init` takes the free frames one by one and makes tables of them.
use mathlib.Core.Path.{subst}
use implement_os.Prelude.{
  ℕ, ◌+◌, ◌*◌, ◌≤◌, ◌<◌, ◌≡◌, ◌≢◌, refl, sym, ap, ◌∙◌, arith, ◌⊎◌, inl, inr, false, List, [], ◌∷◌,
  ◌++◌, length, ◌==◌, ==_refl,
}
use implement_os.Memory.{Memory, page_size, write, pf_alloc}
use implement_os.Memory.FreeList.{Fresh, Fresh-left, IsFreeList, pf_alloc_lem}
use implement_os.Memory.Pages.{Each}
use implement_os.PageTable.{Mmu, slot, store, user_entry, table_entry, clear_entries, fill_tables}
use implement_os.PageTable.EntryLaws.{IsFrame}
use implement_os.PageTable.TableEntries.{table_entry-frame}
use implement_os.PageTable.Tables.{
  IsAway, slot-frame, slot-IsAway, IsFreeList-same, clear_entries_lem,
}

-- From entry `i` on the table at `pml2` leads to these tables, and no page of theirs is mapped or
-- may be allocated.
abbrev pub OpenTables : (ℕ → ℕ) → (pml2 i : ℕ) → List ℕ → Type 0
OpenTables w pml2 i [] = Unit
OpenTables w pml2 i (t ∷ ts) =
    (w (slot pml2 i) ≡ t + 7)
    × ((j : ℕ) → j < 512 → w (slot t j) ≡ user_entry)
    × OpenTables w pml2 (i + 1) ts

pub Each-left : (P : ℕ → Type 0) (xs ys : List ℕ) → Each P (xs ++ ys) → Each P xs
Each-left P [] ys e = tt
Each-left P (x ∷ xs) ys e = (e.0, Each-left P xs ys e.1)

Each-IsAway :
    {t : ℕ} (j : ℕ) (ts : List ℕ)
    → IsFrame t
    → j < 512
    → Each IsFrame ts
    → Fresh t ts
    → Each (IsAway (slot t j)) ts
Each-IsAway j [] h lt e f = tt
Each-IsAway j (x ∷ ts) h lt e f = (slot-IsAway j h e.0 f.0 lt, Each-IsAway j ts h lt e.1 f.1)

-- One table more: the frame's entries and the one that leads to it are written.
record Round (pml2 i x : ℕ) (rest : List ℕ) (m m' : Memory) : Type 0 where
  list : IsFreeList m' rest
  leads : m'.words (slot pml2 i) ≡ x + 7
  filled : (j : ℕ) → j < 512 → m'.words (slot x j) ≡ user_entry
  kept : (a : ℕ) → IsAway a x → a ≢ slot pml2 i → m'.words a ≡ m.words a

module _ (p3_table : ℕ) {pml2 : ℕ} (top : IsFrame pml2) where
  Round-each :
      (i x : ℕ) (m m' : Memory) (zs : List ℕ)
      → IsFrame x
      → i < 512
      → Each IsFrame zs
      → Fresh x zs
      → Fresh pml2 zs
      → ((a : ℕ) → IsAway a x → a ≢ slot pml2 i → m'.words a ≡ m.words a)
      → Each (λ z. m'.words z ≡ m.words z) zs
  Round-each i x m m' [] h lt e fx f2 kept = tt
  Round-each i x m m' (z ∷ zs) h lt e fx f2 kept = (
    kept z
        (subst (λ a. IsAway a x) (omega arith)
          (slot-IsAway 0 e.0 h (λ p. fx.0 (sym p)) (omega arith)))
        (λ p. f2.0 (omega (arith, slot-frame i top lt))),
    Round-each i x m m' zs h lt e.1 fx.1 f2.1 kept,
  )

  round_lem :
      (i x : ℕ) (rest : List ℕ) (s : Mmu)
      → IsFrame x
      → i < 512
      → Each IsFrame rest
      → pml2 ≢ x
      → Fresh x rest
      → Fresh pml2 rest
      → IsFreeList s.memory rest
      → (m' : Memory) × ((store
            (slot pml2 i)
            (table_entry x)
            (clear_entries p3_table x 0 512 s).1).1
          ≡ record s { memory = m' })
        × Round pml2 i x rest s.memory m'
  round_lem i x rest s h lt e ne fx f2 list =
      let (m1, runs, c) = clear_entries_lem p3_table x 0 512 s h (omega arith) in
      let m' : Memory = record m1 { words = write m1.words (slot pml2 i) (table_entry x) } in
      let kept : (a : ℕ) → IsAway a x → a ≢ slot pml2 i → m'.words a ≡ s.memory.words a =
        λ a away other.
          let no : (a == slot pml2 i) ≡ false = ground arith in
          rw no (c.kept a (elim away [ inl lo ↦ inl (omega arith) | inr hi ↦ inr hi ])) in
      (
        m',
        ap (λ u. (store (slot pml2 i) (table_entry x) u).1) runs,
        record {
          list =
              IsFreeList-same rest c.free (Round-each i x s.memory m' rest h lt e fx f2 kept) list;
          leads = rw (==_refl (slot pml2 i)) (table_entry-frame h);
          filled = λ j hj.
              let apart : slot x j ≢ slot pml2 i =
                omega (arith, slot-frame j h hj, slot-frame i top lt) in
              let no : (slot x j == slot pml2 i) ≡ false = ground arith in
              rw no (c.filled j (omega arith) (omega arith));
          kept = kept;
        },
      )

-- What filling the tables `ts` leaves, with these free frames behind them.
pub record Filled (pml2 i : ℕ) (ts rest : List ℕ) (m m' : Memory) : Type 0 where
  pub list : IsFreeList m' rest
  pub tables : OpenTables m'.words pml2 i ts
  pub kept :
      (a : ℕ)
      → Each (IsAway a) ts
      → (a < pml2 + 8 * i) ⊎ (pml2 + page_size ≤ a)
      → m'.words a ≡ m.words a

module _ (p3_table : ℕ) {pml2 : ℕ} (top : IsFrame pml2) where
  pub fill_tables_lem :
      (i : ℕ) (ts rest : List ℕ) (s : Mmu)
      → Each IsFrame (ts ++ rest)
      → Fresh pml2 (ts ++ rest)
      → i + length ts ≤ 512
      → IsFreeList s.memory (ts ++ rest)
      → (m' : Memory) × ((fill_tables p3_table pml2 i (length ts) s).1 ≡ record s { memory = m' })
        × Filled pml2 i ts rest s.memory m'
  unfolding fill_tables
  fill_tables_lem i [] rest s fs f2 lt l =
      (s.memory, refl, record { list = l; tables = tt; kept = λ a e out. refl })
  fill_tables_lem i (x ∷ ts) rest s fs f2 lt l =
      let taken = pf_alloc_lem (x ∷ (ts ++ rest)) l in
      let go : ℕ → Mmu = λ page.
        (fill_tables p3_table pml2 (i + 1) (length ts)
          (store (slot pml2 i) (table_entry page)
            (clear_entries p3_table page 0 512
              (record s { memory = (pf_alloc s.memory).1 })).1).1).1 in
      let (m2, runs, r) =
        round_lem p3_table top i x (ts ++ rest) (record s { memory = (pf_alloc s.memory).1 }) fs.0
          (omega arith) fs.1 f2.0 l.distinct.0 f2.1 taken.1 in
      let (m', more, rest') =
        fill_tables_lem (i + 1) ts rest (record s { memory = m2 }) fs.1 f2.1 (omega arith) r.list in
      let same_words : (a : ℕ) → (pf_alloc s.memory).1.words a ≡ s.memory.words a =
        λ a. ap (λ w. w a) taken.2 in
      let others = Fresh-left x ts rest l.distinct.0 in
      (
        m',
        ap go taken.0 ∙ ap (λ u. (fill_tables p3_table pml2 (i + 1) (length ts) u).1) runs ∙ more,
        record {
          list = rest'.list;
          tables = (
            rest'.kept (slot pml2 i)
                  (Each-IsAway i ts top (omega arith) (Each-left IsFrame ts rest fs.1)
                    (Fresh-left pml2 ts rest f2.1))
                  (inl (omega (arith, slot-frame i top (omega arith))))
                ∙ r.leads,
            (λ j hj.
                rest'.kept (slot x j)
                  (Each-IsAway j ts fs.0 hj (Each-left IsFrame ts rest fs.1) others)
                  (beside (slot-IsAway j fs.0 top (λ p. f2.0 (sym p)) hj))
                ∙ r.filled j hj),
            rest'.tables,
          );
          kept = λ a e out. rest'.kept a e.1 (wider out) ∙ r.kept a e.0 (other out) ∙ same_words a;
        },
      )
    where
      beside : {a : ℕ} → IsAway a pml2 → (a < pml2 + 8 * (i + 1)) ⊎ (pml2 + page_size ≤ a)
      beside (inl h) = inl (omega arith)
      beside (inr h) = inr h

      wider :
          {a : ℕ}
          → (a < pml2 + 8 * i) ⊎ (pml2 + page_size ≤ a)
          → (a < pml2 + 8 * (i + 1)) ⊎ (pml2 + page_size ≤ a)
      wider (inl h) = inl (omega arith)
      wider (inr h) = inr h

      other : {a : ℕ} → (a < pml2 + 8 * i) ⊎ (pml2 + page_size ≤ a) → a ≢ slot pml2 i
      other (inl h) = λ p. omega (arith, slot-frame i top (omega arith))
      other (inr h) = λ p. omega (arith, slot-frame i top (omega arith))
