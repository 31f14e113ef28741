-- ===== src/Memory/Space.antt =====
-- `PRE_add_address_space` of src/c/memory_manager.c: it links the pages of a space behind those
-- that are on the free list.
use mathlib.Core.List.{append_assoc}
use mathlib.Core.Path.{subst}
use implement_os.Prelude.{
  ℕ, ◌+◌, ◌-◌, ◌*◌, ◌^◌, ◌≤◌, ◌<◌, ◌≡◌, ◌≢◌, refl, sym, ap, ◌∙◌, List, [], ◌∷◌, ◌++◌, length,
  length-append, Option, some, arith, ◌==◌, false,
}
use implement_os.Prelude.Words.{add64}
use implement_os.Memory.{
  Memory, page_size, write, add_loop, append_page, add_address_space, find_free_page,
  align_page_size,
}
use implement_os.Memory.FreeList.{IsFreeList, Fresh, Fresh-last, Fresh-left, Fresh-mid, write-ne}
use implement_os.Memory.Search.{IsBounded, Found, find_free_page_lem, align_lem, align-least}
use implement_os.Memory.Pages.{PagesOf}
use implement_os.Memory.Open.{AllBelow, AllBelow-le, IsOpen, append_page-empty, append_page-cons}
use implement_os.Memory.Loop.{add_loop_lem}

-- Where the space begins, the pages on the list, and the limits within which nothing wraps.
pub record IsSpace (m : Memory) (limit start_address space_size fuel : ℕ) (pages : List ℕ)
    : Type 0 where
  pub spans : IsBounded m.structure limit
  pub list : IsFreeList m pages
  pub behind : AllBelow start_address pages
  pub inside : start_address + space_size ≤ limit
  pub nonempty : 0 < limit
  pub room : page_size * (length pages + 2) + space_size < page_size * (2 ^ 32 - 2)
  pub enough : limit + page_size < page_size * fuel

-- what `PRE_add_address_space` is to return: `first` goes on the list wherever it lies
abbrev pub Added : Memory → ℕ → ℕ → ℕ → List ℕ → Option Memory → Type 0
Added m limit start_address space_size pages out =
    (m' : Memory) × (first : ℕ) × (ys : List ℕ) × (out ≡ some m')
    × IsFreeList m' (pages ++ (first ∷ ys))
    × Found m.structure limit start_address first
    × PagesOf m.structure (first + page_size) (start_address + space_size) ys
    × (m'.structure ≡ m.structure)
    × ((a : ℕ) → Fresh a (pages ++ (first ∷ ys)) → m'.words a ≡ m.words a)

IsOpen-first :
    {m : Memory} (max first : ℕ) (pages : List ℕ)
    → IsFreeList m pages
    → first ≢ 0
    → AllBelow first pages
    → length pages + 1 < 2 ^ 32
    → (x : ℕ) × (xs : List ℕ) × (pages ++ (first ∷ []) ≡ x ∷ xs)
      × IsOpen (append_page first m) max first x xs
IsOpen-first max first [] f ne b h = (first, [], refl, append_page-empty max first f ne)
IsOpen-first max first (x ∷ xs) f ne b h =
    (x, xs ++ (first ∷ []), refl, append_page-cons max first x xs f ne b h)

add_address_space-found :
    (fuel start_address space_size first : ℕ) (m : Memory)
    → find_free_page fuel m.structure (align_page_size start_address) ≡ some first
    → start_address + space_size < 2 ^ 64
    → add_address_space fuel start_address space_size m
      ≡ add_loop fuel fuel (start_address + space_size) first (append_page first m)
unfolding add_address_space
add_address_space-found fuel start_address space_size first m e h =
    let max : add64 start_address space_size ≡ start_address + space_size = omega arith in
    rw (e, add_address_space) (rw max)

append_page-structure : (m : Memory) (curr : ℕ) → (append_page curr m).structure ≡ m.structure
unfolding append_page
append_page-structure m curr = ground arith

append_page-kept :
    (ys : List ℕ) (first : ℕ) (pages : List ℕ) (m : Memory)
    → IsFreeList m pages
    → (a : ℕ) → Fresh a (pages ++ (first ∷ ys))
    → (append_page first m).words a ≡ m.words a
unfolding append_page
append_page-kept ys first [] m l a f = ground (arith, l.linked, f.0)
append_page-kept ys first (x ∷ xs) m l a f =
    let some_head : (m.free_pages.page_head == 0) ≡ false = ground (arith, l.linked) in
    let off_first : a ≢ first = Fresh-mid a (x ∷ xs) first ys f in
    let off_tail : a ≢ m.free_pages.page_tail =
      λ p. Fresh-last a x xs (Fresh-left a (x ∷ xs) (first ∷ ys) f) (p ∙ l.ends) in
    rw some_head (
      write-ne (write m.words m.free_pages.page_tail first) first a 0 off_first
      ∙ write-ne m.words m.free_pages.page_tail a first off_tail)

module _ {m : Memory} {limit start_address space_size fuel : ℕ} {pages : List ℕ}
    (sp : IsSpace m limit start_address space_size fuel pages) where
  add_first :
      (first : ℕ)
      → Found m.structure limit start_address first
      → Added m limit start_address space_size pages
          (add_loop fuel fuel (start_address + space_size) first (append_page first m))
  add_first first found =
      let (x, xs, e, o) =
        IsOpen-first max first pages sp.list (omega (arith, found.positive))
          (AllBelow-le start_address first pages found.above sp.behind) (omega (arith, sp.room)) in
      let count : length (x ∷ xs) ≡ length pages + 1 =
        omega (arith, ap length e, length-append {0} pages (first ∷ [])) in
      let (m', ys, runs, list, new, same, others) =
        add_loop_lem fuel fuel max limit first x xs
          (subst (λ s. IsBounded s limit) (sym kept) sp.spans) o
          (omega (arith, sp.room, found.above)) sp.inside found.within sp.enough
          (omega (arith, sp.enough, sp.inside)) (omega (arith, sp.enough)) in
      (
        m',
        first,
        ys,
        runs,
        subst (IsFreeList m') (ap (λ l. l ++ ys) (sym e) ∙ append_assoc pages (first ∷ []) ys) list,
        found,
        subst (λ s. PagesOf s (first + page_size) max ys) kept new,
        same ∙ kept,
        (λ a f.
            others a (
              subst (λ l. Fresh a l)
                (sym (ap (λ l. l ++ ys) (sym e) ∙ append_assoc pages (first ∷ []) ys)) f)
            ∙ append_page-kept ys first pages m sp.list a f),
      )
    where
      max : ℕ
      max = start_address + space_size

      kept : (append_page first m).structure ≡ m.structure
      kept = append_page-structure m first

  -- PRE_add_address_space, with fuel for the pages up to the limit, returns and puts new pages
  -- behind those on the free list. The first of them is the first free page from the space's
  -- start on; the others are page-aligned, ascending, inside the space and free of every
  -- registered span, and no page of the space behind the first in which the code finds no span
  -- is left out. No word but the first ones of these pages and of those on the list changes. It
  -- holds when every registered span ends below, and the space at or below, a positive page-
  -- aligned limit of at most 2^63, no span ends on a page boundary, the pages on the list lie
  -- below the space and the count does not wrap.
  pub add_address_space_lem :
      Added m limit start_address space_size pages
        (add_address_space fuel start_address space_size m)
  add_address_space_lem =
      let aligned = align_lem sp.spans start_address (omega (arith, sp.inside)) in
      let (first, eq, found) =
        find_free_page_lem sp.spans fuel (align_page_size start_address) aligned.2 sp.nonempty
          (omega (arith, sp.enough)) in
      let found' : Found m.structure limit start_address first = record {
        aligned = found.aligned;
        positive = found.positive;
        above = omega (arith, found.above, aligned.1);
        within = found.within;
        clear = found.clear;
        least = λ p al po st le fr.
            found.least p al po (align-least sp.spans start_address p al st le) le fr;
      } in
      subst (Added m limit start_address space_size pages)
        (sym (
          add_address_space-found fuel start_address space_size first m eq
            (omega (arith, sp.inside, sp.spans.small))))
        (add_first first found')
