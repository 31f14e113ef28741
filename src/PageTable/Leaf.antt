-- ===== src/PageTable/Leaf.antt =====
-- src/c/page_table.c: the lowest entries of the tables, apart from the tables above and the free
-- frames.
use implement_os.Prelude.{
  ℕ, zero, suc, ◌+◌, ◌*◌, ◌/◌, ◌%◌, ◌^◌, ◌≤◌, ◌<◌, ◌≡◌, ◌≢◌, sym, arith, inl, inr, List, [], ◌∷◌,
  length, get_or,
}
use implement_os.Memory.{page_size, write}
use implement_os.Memory.FreeList.{write-ne, Fresh}
use implement_os.Memory.Pages.{Each}
use implement_os.PageTable.{slot}
use implement_os.PageTable.EntryLaws.{IsFrame}
use implement_os.PageTable.Tables.{IsAway, slot-frame, slot-IsAway}
use implement_os.PageTable.Walk.{IsTree, leaf, get_or-Each, IsTree-same}

-- A write that is not to the upper two levels leaves the tables.
pub write-IsTree :
    {p3_table y : ℕ} {ts : List ℕ} {w : ℕ → ℕ} (b v : ℕ)
    → b ≢ slot p3_table 1
    → ((k : ℕ) → k < 512 → b ≢ slot y k)
    → IsTree p3_table y ts w
    → IsTree p3_table y ts (write w b v)
write-IsTree {p3_table} {y} {w = w} b v top low t =
    IsTree-same (write-ne w b (slot p3_table 1) v (λ e. top (sym e)))
      (λ k h. write-ne w b (slot y k) v (λ e. low k h (sym e))) t

-- where the entry of an address stands: in none of the tables above, and in no free frame
pub record IsLeaf (p3_table y : ℕ) (free : List ℕ) (e : ℕ) : Type 0 where
  pub not_top : e ≢ slot p3_table 1
  pub not_upper : (k : ℕ) → k < 512 → e ≢ slot y k
  pub not_free : Fresh e free

IsAway-ne : {a b f : ℕ} → IsAway a f → f ≤ b → b < f + page_size → b ≢ a
IsAway-ne (inl h) lo hi = λ e. omega arith
IsAway-ne (inr h) lo hi = λ e. omega arith

Fresh-slot :
    {t : ℕ} (j : ℕ) (fs : List ℕ)
    → IsFrame t
    → j < 512
    → Each IsFrame fs
    → Fresh t fs
    → Fresh (slot t j) fs
Fresh-slot j [] h lt e f = tt
Fresh-slot {t} j (x ∷ fs) h lt e f =
    ((λ p. f.0 (omega (arith, slot-frame j h lt, e.0.0, h.0))), Fresh-slot j fs h lt e.1 f.1)

Fresh-get_or : (y : ℕ) (ts : List ℕ) (i : ℕ) → Fresh y ts → i < length ts → y ≢ get_or ts i 0
Fresh-get_or y [] i f h = absurd (omega arith)
Fresh-get_or y (t ∷ ts) zero f h = f.0
Fresh-get_or y (t ∷ ts) (suc i) f h = Fresh-get_or y ts i f.1 (omega arith)

pub leaf-IsLeaf :
    {p3_table y : ℕ} {ts : List ℕ} {w : ℕ → ℕ} (free : List ℕ) (add : ℕ)
    → IsTree p3_table y ts w
    → Each IsFrame free
    → Each (λ t. Fresh t free) ts
    → IsLeaf p3_table y free (leaf ts add)
leaf-IsLeaf {p3_table} {y} {ts} free add tree frames taken =
    let i = add / 2 ^ 21 % 512 in
    let j = add / 2 ^ 12 % 512 in
    let small : i < length ts = omega (arith, tree.full) in
    let frame : IsFrame (get_or ts i 0) = get_or-Each IsFrame ts i tree.frames.1 small in
    let at : leaf ts add ≡ get_or ts i 0 + 8 * j = slot-frame j frame (omega arith) in
    record {
      not_top =
          IsAway-ne (get_or-Each (IsAway (slot p3_table 1)) ts i tree.apart.1 small)
            (omega (arith, at)) (omega (arith, at));
      not_upper = λ k h.
          IsAway-ne
            (slot-IsAway k tree.frames.0 frame (Fresh-get_or y ts i tree.distinct.0 small) h)
            (omega (arith, at)) (omega (arith, at));
      not_free =
          Fresh-slot j free frame (omega arith) frames
            (get_or-Each (λ t. Fresh t free) ts i taken small);
    }
