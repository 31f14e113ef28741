-- ===== src/PageTable/Walk.antt =====
-- src/c/page_table.c: the walk of `PML_get_pml1` through the tables that `PT_init` made.
use implement_os.Prelude.{
  ℕ, zero, suc, ◌+◌, ◌/◌, ◌%◌, ◌^◌, ◌<◌, ◌≡◌, ap, ◌∙◌, arith, List, [], ◌∷◌, length, get_or,
}
use implement_os.Memory.FreeList.{Distinct}
use implement_os.Memory.Pages.{Each}
use implement_os.PageTable.{slot, get_pml1}
use implement_os.PageTable.Entry.{get_add}
use implement_os.PageTable.EntryLaws.{IsFrame}
use implement_os.PageTable.TableEntries.{get_add-frame}
use implement_os.PageTable.Tables.{IsAway}

pub get_or-Each :
    (P : ℕ → Type 0) (xs : List ℕ) (i : ℕ) → Each P xs → i < length xs → P (get_or xs i 0)
get_or-Each P [] i e h = absurd (omega arith)
get_or-Each P (x ∷ xs) zero e h = e.0
get_or-Each P (x ∷ xs) (suc i) e h = get_or-Each P xs i e.1 (omega arith)

-- The table at `y` leads from entry `i` on to these tables.
abbrev pub Leads : (ℕ → ℕ) → (y i : ℕ) → List ℕ → Type 0
Leads w y i [] = Unit
Leads w y i (t ∷ ts) = (w (slot y i) ≡ t + 7) × Leads w y (i + 1) ts

pub Leads-at :
    (w : ℕ → ℕ) (y i : ℕ) (ts : List ℕ) (k : ℕ)
    → Leads w y i ts
    → k < length ts
    → w (slot y (i + k)) ≡ get_or ts k 0 + 7
Leads-at w y i [] k l h = absurd (omega arith)
Leads-at w y i (t ∷ ts) zero l h = ap (λ n. w (slot y n)) (omega arith) ∙ l.0
Leads-at w y i (t ∷ ts) (suc k) l h =
    ap (λ n. w (slot y n)) (omega arith) ∙ Leads-at w y (i + 1) ts k l.1 (omega arith)

-- The gigabyte's tables: the one at `y`, which the table at `p3_table` leads to, and its 512.
pub record IsTree (p3_table y : ℕ) (ts : List ℕ) (w : ℕ → ℕ) : Type 0 where
  pub top : w (slot p3_table 1) ≡ y + 7
  pub leads : Leads w y 0 ts
  pub frames : IsFrame y × Each IsFrame ts
  pub full : length ts ≡ 512
  pub distinct : Distinct (y ∷ ts)
  pub apart : Each (IsAway (slot p3_table 1)) (y ∷ ts)

-- the entry of an address in these tables
abbrev pub leaf : List ℕ → ℕ → ℕ
leaf ts add = slot (get_or ts (add / 2 ^ 21 % 512) 0) (add / 2 ^ 12 % 512)

Leads-same :
    (w w' : ℕ → ℕ) (y i : ℕ) (us : List ℕ)
    → ((k : ℕ) → k < i + length us → w' (slot y k) ≡ w (slot y k))
    → Leads w y i us
    → Leads w' y i us
Leads-same w w' y i [] same l = tt
Leads-same w w' y i (u ∷ us) same l =
    (same i (omega arith) ∙ l.0, Leads-same w w' y (i + 1) us (λ k h. same k (omega arith)) l.1)

module _ {p3_table y : ℕ} {ts : List ℕ} where
  -- The walk of an address of the gigabyte ends in its entry.
  pub get_pml1-IsTree :
      {w : ℕ → ℕ} (add : ℕ)
      → IsTree p3_table y ts w
      → add / 2 ^ 30 % 512 ≡ 1
      → get_pml1 p3_table w add ≡ leaf ts add
  unfolding get_pml1
  get_pml1-IsTree {w} add t in_gigabyte =
      let i = add / 2 ^ 21 % 512 in
      let j = add / 2 ^ 12 % 512 in
      let small : i < length ts = omega (arith, t.full) in
      let first : get_add (w (slot p3_table (add / 2 ^ 30 % 512))) ≡ y =
        ap (λ k. get_add (w (slot p3_table k))) in_gigabyte
        ∙ ap get_add t.top
        ∙ get_add-frame t.frames.0 in
      let second : get_add (w (slot y i)) ≡ get_or ts i 0 =
        ap (λ k. get_add (w (slot y k))) (omega arith)
        ∙ ap get_add (Leads-at w y 0 ts i t.leads small)
        ∙ get_add-frame (get_or-Each IsFrame ts i t.frames.1 small) in
      ap (λ k. slot (get_add (w (slot k i))) j) first ∙ ap (λ k. slot k j) second

  -- Words that agree on the two upper levels hold the same tables.
  pub IsTree-same :
      {w w' : ℕ → ℕ}
      → w' (slot p3_table 1) ≡ w (slot p3_table 1)
      → ((k : ℕ) → k < 512 → w' (slot y k) ≡ w (slot y k))
      → IsTree p3_table y ts w
      → IsTree p3_table y ts w'
  IsTree-same {w} {w'} e same t = record {
    top = e ∙ t.top;
    leads = Leads-same w w' y 0 ts (λ k h. same k (omega (arith, t.full))) t.leads;
    frames = t.frames;
    full = t.full;
    distinct = t.distinct;
    apart = t.apart;
  }
