-- ===== src/Memory/Open.antt =====
-- The free list of src/c/memory_manager.c while `PRE_add_address_space` extends it.
use mathlib.Core.Path.{subst}
use implement_os.Prelude.{
  ℕ, ◌+◌, ◌%◌, ◌^◌, ◌≤◌, ◌<◌, ◌≡◌, ◌≢◌, refl, sym, ◌∙◌, List, [], ◌∷◌, ◌++◌, length, length-append,
  arith, ◌==◌, false,
}
use implement_os.Memory.{Memory, page_size, write, link_page, close_list, append_page}
use implement_os.Memory.FreeList.{
  Linked, Fresh, Distinct, last, IsFreeList, Linked-append, Linked-close, Distinct-append,
  last-append,
}

abbrev pub AllBelow : ℕ → List ℕ → Type 0
AllBelow n [] = Unit
AllBelow n (x ∷ xs) = (x < n) × AllBelow n xs

pub AllBelow-append : (n y : ℕ) (xs : List ℕ) → AllBelow n xs → y < n → AllBelow n (xs ++ (y ∷ []))
AllBelow-append n y [] b h = (h, tt)
AllBelow-append n y (x ∷ xs) b h = (b.0, AllBelow-append n y xs b.1 h)

pub AllBelow-le : (n k : ℕ) (xs : List ℕ) → n ≤ k → AllBelow n xs → AllBelow k xs
AllBelow-le n k [] h b = tt
AllBelow-le n k (x ∷ xs) h b = (omega arith, AllBelow-le n k xs h b.1)

pub Fresh-below : (y n : ℕ) (xs : List ℕ) → n ≤ y → AllBelow n xs → Fresh y xs
Fresh-below y n [] h b = tt
Fresh-below y n (x ∷ xs) h b = (omega arith, Fresh-below y n xs h b.1)

-- The pages linked so far, of which the last is `curr`. If it ends the space it is closed.
pub record IsOpen (m : Memory) (max curr x : ℕ) (xs : List ℕ) : Type 0 where
  pub at_last : curr ≡ last x xs
  pub linked : Linked m.words m.free_pages.page_head (x ∷ xs) (m.words curr)
  pub distinct : Distinct (x ∷ xs)
  pub count : m.free_pages.count ≡ length (x ∷ xs)
  pub below : AllBelow (curr + 1) (x ∷ xs)
  pub closed : max < curr + page_size → (m.free_pages.page_tail ≡ curr) × (m.words curr ≡ 0)

pub open-IsFreeList :
    {m : Memory} {max curr : ℕ} (x : ℕ) (xs : List ℕ)
    → IsOpen m max curr x xs
    → max < curr + page_size
    → length (x ∷ xs) < 2 ^ 32
    → IsFreeList m (x ∷ xs)
open-IsFreeList {m} x xs o over h = record {
  linked = subst (Linked m.words m.free_pages.page_head (x ∷ xs)) (o.closed over).1 o.linked;
  ends = (o.closed over).0 ∙ o.at_last;
  distinct = o.distinct;
  count = o.count;
  small = h;
}

pub close_list-IsFreeList :
    {m : Memory} {max curr : ℕ} (x : ℕ) (xs : List ℕ)
    → IsOpen m max curr x xs
    → length (x ∷ xs) < 2 ^ 32
    → IsFreeList (close_list curr m) (x ∷ xs)
close_list-IsFreeList {m} {curr} x xs o h = record {
  linked =
      subst (λ t. Linked (write m.words t 0) m.free_pages.page_head (x ∷ xs) 0) (sym o.at_last)
        (Linked-close m.words 0 m.free_pages.page_head x xs (m.words curr) o.linked o.distinct);
  ends = o.at_last;
  distinct = o.distinct;
  count = o.count;
  small = h;
}

pub link_page-IsOpen :
    {m : Memory} {max curr : ℕ} (x : ℕ) (xs : List ℕ) (next : ℕ)
    → IsOpen m max curr x xs
    → length (x ∷ xs) + 1 < 2 ^ 32
    → curr + page_size ≤ next
    → next + page_size ≤ max
    → IsOpen (link_page curr next m) max next x (xs ++ (next ∷ []))
link_page-IsOpen {m} {curr} x xs next o h far fits = record {
  at_last = sym (last-append x next xs);
  linked =
      subst (Linked (write m.words curr next) m.free_pages.page_head ((x ∷ xs) ++ (next ∷ [])))
        (ground arith)
        (subst
          (λ t.
            Linked (write m.words t next) m.free_pages.page_head ((x ∷ xs) ++ (next ∷ []))
              (m.words next))
          (sym o.at_last)
          (Linked-append m.words next m.free_pages.page_head x xs (m.words curr) o.linked o.distinct
            (omega arith) new));
  distinct = Distinct-append next (x ∷ xs) o.distinct new;
  count = omega (arith, o.count, length-append {0} xs (next ∷ []));
  below =
      AllBelow-append (next + 1) next (x ∷ xs)
        (AllBelow-le (curr + 1) (next + 1) (x ∷ xs) (omega arith) o.below) (omega arith);
  closed = λ over. absurd (omega arith);
}
  where
    new : Fresh next (x ∷ xs)
    new = Fresh-below next (curr + 1) (x ∷ xs) (omega arith) o.below

pub append_page-empty :
    {m : Memory} (max curr : ℕ)
    → IsFreeList m []
    → curr ≢ 0
    → IsOpen (append_page curr m) max curr curr []
unfolding append_page
append_page-empty {m} max curr f ne = record {
  at_last = refl;
  linked = ground (arith, f.linked);
  distinct = (tt, tt);
  count = ground (arith, f.linked, f.count);
  below = (omega arith, tt);
  closed = λ over. ground (arith, f.linked);
}

-- The state of `append_page` where the list is not empty.
abbrev chained : ℕ → Memory → Memory
chained curr m = record m {
  words = write (write m.words m.free_pages.page_tail curr) curr 0;
  free_pages = record (m.free_pages) {
    page_tail = curr;
    count = (m.free_pages.count + 1) % 2 ^ 32;
  };
}

append_page-chained :
    (m : Memory) (curr : ℕ) → m.free_pages.page_head ≢ 0 → append_page curr m ≡ chained curr m
unfolding append_page
append_page-chained m curr h = let e : (m.free_pages.page_head == 0) ≡ false = ground arith in rw e

pub append_page-cons :
    {m : Memory} (max curr x : ℕ) (xs : List ℕ)
    → IsFreeList m (x ∷ xs)
    → curr ≢ 0
    → AllBelow curr (x ∷ xs)
    → length (x ∷ xs) + 1 < 2 ^ 32
    → IsOpen (append_page curr m) max curr x (xs ++ (curr ∷ []))
append_page-cons {m} max curr x xs f ne b h =
    subst (λ k. IsOpen k max curr x (xs ++ (curr ∷ [])))
      (sym (append_page-chained m curr some_head))
      (record {
        at_last = sym end;
        linked =
            subst (Linked (write w curr 0) m.free_pages.page_head ((x ∷ xs) ++ (curr ∷ [])))
              (sym zeroed)
              (subst (λ t. Linked (write w t 0) m.free_pages.page_head ((x ∷ xs) ++ (curr ∷ [])) 0)
                end closed);
        distinct = distinct;
        count = omega (arith, f.count, length-append {0} xs (curr ∷ []));
        below =
            AllBelow-append (curr + 1) curr (x ∷ xs)
              (AllBelow-le curr (curr + 1) (x ∷ xs) (omega arith) b) (omega arith);
        closed = λ over. (refl, zeroed);
      })
  where
    some_head : m.free_pages.page_head ≢ 0
    some_head = ground (arith, f.linked)

    new : Fresh curr (x ∷ xs)
    new = Fresh-below curr curr (x ∷ xs) (omega arith) b

    w : ℕ → ℕ
    w = write m.words m.free_pages.page_tail curr

    end : last x (xs ++ (curr ∷ [])) ≡ curr
    end = last-append x curr xs

    distinct : Distinct ((x ∷ xs) ++ (curr ∷ []))
    distinct = Distinct-append curr (x ∷ xs) f.distinct new

    zeroed : write w curr 0 curr ≡ 0
    zeroed = ground arith

    joined : Linked w m.free_pages.page_head ((x ∷ xs) ++ (curr ∷ [])) (m.words curr)
    joined =
        subst
          (λ t.
            Linked (write m.words t curr) m.free_pages.page_head ((x ∷ xs) ++ (curr ∷ []))
              (m.words curr))
          (sym f.ends)
          (Linked-append m.words curr m.free_pages.page_head x xs 0 f.linked f.distinct ne new)

    closed :
        Linked
          (write w (last x (xs ++ (curr ∷ []))) 0)
          m.free_pages.page_head
          ((x ∷ xs) ++ (curr ∷ []))
          0
    closed =
        Linked-close w 0 m.free_pages.page_head x (xs ++ (curr ∷ [])) (m.words curr) joined distinct
