-- ===== src/PageTable/Ready.antt =====
-- src/c/page_table.c: after `PT_init` pages can be handed out, touched and freed.
use implement_os.Prelude.{ℕ, ◌+◌, ◌^◌, ◌≤◌, ◌<◌, sym, List, [], ◌∷◌, ◌++◌}
use mathlib.Core.Path.{subst}
use implement_os.Memory.FreeList.{Fresh, Distinct}
use implement_os.Memory.Pages.{Each}
use implement_os.PageTable.{Mmu, slot, init}
use implement_os.PageTable.EntryLaws.{IsFrame}
use implement_os.PageTable.Address.{IsIndexed, page_number, page_limit}
use implement_os.PageTable.Tables.{IsAway}
use implement_os.PageTable.Init.{IsAway-Fresh}
use implement_os.PageTable.SetUp.{HasFrames, init-IsTree}
use implement_os.PageTable.Cycle.{IsReadyFor}

Each-right : (P : ℕ → Type 0) (xs ys : List ℕ) → Each P (xs ++ ys) → Each P ys
Each-right P [] ys e = e
Each-right P (x ∷ xs) ys e = Each-right P xs ys e.1

Fresh-right : (a : ℕ) (xs ys : List ℕ) → Fresh a (xs ++ ys) → Fresh a ys
Fresh-right a [] ys f = f
Fresh-right a (x ∷ xs) ys f = Fresh-right a xs ys f.1

Distinct-apart : (xs ys : List ℕ) → Distinct (xs ++ ys) → Each (λ t. Fresh t ys) xs
Distinct-apart [] ys d = tt
Distinct-apart (x ∷ xs) ys d = (Fresh-right x xs ys d.0, Distinct-apart xs ys d.1)

-- `PT_init` with two frames to spare, and with the indices of a start, leaves tables from which a
-- page can be handed out.
pub init-IsReadyFor :
    {p3_table y x z : ℕ} {ts zs : List ℕ} {s : Mmu}
    → HasFrames p3_table y ts (x ∷ z ∷ zs) s
    → IsIndexed s
    → 2 ^ 18 ≤ page_number s + 1
    → page_number s + 1 < page_limit
    → IsReadyFor p3_table y ts x z zs (init p3_table s).1
init-IsReadyFor {p3_table} {y} {x} {z} {ts} {zs} {s} h i lo hi =
    let (tree, list, _, same) = init-IsTree h in
    record {
      tree = tree;
      list = list;
      frames = Each-right IsFrame ts (x ∷ z ∷ zs) h.frames.1;
      apart = Distinct-apart (y ∷ ts) (x ∷ z ∷ zs) h.list.distinct;
      top_apart =
          IsAway-Fresh (slot p3_table 1) (x ∷ z ∷ zs)
            (Each-right (IsAway (slot p3_table 1)) (y ∷ ts) (x ∷ z ∷ zs) h.top_apart);
      indexed = subst IsIndexed (sym same) (record { low = i.low; middle = i.middle; top = i.top });
      in_gigabyte = subst (λ (u : Mmu). 2 ^ 18 ≤ page_number u + 1) (sym same) lo;
      room = subst (λ (u : Mmu). page_number u + 1 < page_limit) (sym same) hi;
    }
