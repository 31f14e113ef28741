-- ===== src/PageTable/Tables.antt =====
-- src/c/page_table.c: the loops of `PT_init`, each on the tables that are left to fill.
use mathlib.Core.Path.{subst}
use implement_os.Prelude.{
  ℕ, zero, suc, ◌+◌, ◌*◌, ◌≤◌, ◌<◌, ◌≡◌, ◌≢◌, refl, sym, ap, ◌∙◌, arith, ◌⊎◌, inl, inr, false,
  Bool-cases, List, [], ◌∷◌, leb, ◌==◌, ==_refl,
}
use implement_os.Memory.{Memory, page_size, write}
use implement_os.Memory.FreeList.{Linked, EndsAt, IsFreeList}
use implement_os.Memory.Pages.{Each}
use implement_os.PageTable.{Mmu, slot, store, user_entry, clear_entries}
use implement_os.PageTable.EntryLaws.{IsFrame}

-- The word at `a` is outside the page at `f`.
abbrev pub IsAway : (a f : ℕ) → Type 0
IsAway a f = (a < f) ⊎ (f + page_size ≤ a)

pub slot-frame : {t : ℕ} (i : ℕ) → IsFrame t → i < 512 → slot t i ≡ t + 8 * i
slot-frame i h lt = omega arith

pub slot-IsAway : {t f : ℕ} (i : ℕ) → IsFrame t → IsFrame f → t ≢ f → i < 512 → IsAway (slot t i) f
slot-IsAway {t} {f} i h g ne lt = elim (Bool-cases (leb (f + page_size) (slot t i))) [
  | inl e ↦ inr (ground arith)
  | inr e ↦ inl (ground arith)
]

-- Memory that agrees on the words of the free pages holds the same list.
pub IsFreeList-same :
    {m m' : Memory} (pages : List ℕ)
    → m'.free_pages ≡ m.free_pages
    → Each (λ z. m'.words z ≡ m.words z) pages
    → IsFreeList m pages
    → IsFreeList m' pages
IsFreeList-same {m} {m'} pages f w l = record {
  linked =
      relinked m'.free_pages.page_head pages w
        (subst (λ g. Linked m.words g.page_head pages 0) (sym f) l.linked);
  ends = subst (λ g. EndsAt pages g.page_tail) (sym f) l.ends;
  distinct = l.distinct;
  count = ap (λ g. g.count) f ∙ l.count;
  small = l.small;
}
  where
    relinked :
        (p : ℕ) (xs : List ℕ)
        → Each (λ z. m'.words z ≡ m.words z) xs
        → Linked m.words p xs 0
        → Linked m'.words p xs 0
    relinked p [] w l = l
    relinked p (x ∷ xs) (e, w) l =
        (l.0, l.1, relinked (m'.words x) xs w (subst (λ v. Linked m.words v xs 0) (sym e) l.2))

-- The entries of a table from `j` on, `n` of them, are filled, and nothing behind or before.
pub record Cleared (pml1 j n : ℕ) (m m' : Memory) : Type 0 where
  pub free : m'.free_pages ≡ m.free_pages
  pub structure : m'.structure ≡ m.structure
  pub filled : (k : ℕ) → j ≤ k → k < j + n → m'.words (slot pml1 k) ≡ user_entry
  pub kept : (a : ℕ) → (a < pml1 + 8 * j) ⊎ (pml1 + page_size ≤ a) → m'.words a ≡ m.words a

module _ (p3_table : ℕ) where
  pub clear_entries_lem :
      (pml1 j n : ℕ) (s : Mmu)
      → IsFrame pml1
      → j + n ≤ 512
      → (m' : Memory) × ((clear_entries p3_table pml1 j n s).1 ≡ record s { memory = m' })
        × Cleared pml1 j n s.memory m'
  unfolding clear_entries
  clear_entries_lem pml1 j zero s h lt = (
    s.memory,
    refl,
    record {
      free = refl;
      structure = refl;
      filled = λ k lo hi. absurd (omega arith);
      kept = λ a out. refl;
    },
  )
  clear_entries_lem pml1 j (suc n) s h lt =
      let (m', runs, rest) =
        clear_entries_lem pml1 (j + 1) n (store (slot pml1 j) user_entry s).1 h (omega arith) in
      (
        m',
        runs,
        record {
          free = rest.free;
          structure = rest.structure;
          filled = λ k lo hi. elim (Bool-cases (k == j)) [
            | inr e ↦ rest.filled k (ground arith) (omega arith)
            | inl e ↦
                let p : k ≡ j = ground arith in
                rest.kept (slot pml1 k) (inl (omega (arith, slot-frame k h (omega arith))))
                ∙ ap (λ i. write s.memory.words (slot pml1 j) user_entry (slot pml1 i)) p
                ∙ rw (==_refl (slot pml1 j))
          ];
          kept = λ a out.
              rest.kept a (elim out [ inl lo ↦ inl (omega arith) | inr hi ↦ inr hi ]) ∙ elim out [
                | inl lo ↦
                    let ne : (a == slot pml1 j) ≡ false =
                      ground (arith, slot-frame j h (omega arith)) in
                    rw ne
                | inr hi ↦
                    let ne : (a == slot pml1 j) ≡ false =
                      ground (arith, slot-frame j h (omega arith)) in
                    rw ne
              ];
        },
      )
