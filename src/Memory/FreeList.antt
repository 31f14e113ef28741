-- ===== src/Memory/FreeList.antt =====
-- The free list of src/c/memory_manager.c as the list of its pages, and what `MEM_pf_alloc` and
-- `MEM_pf_free` do to it.
use mathlib.Core.Path.{subst}
use implement_os.Prelude.{
  ℕ, ◌+◌, ◌^◌, ◌<◌, ◌≡◌, ◌≢◌, refl, sym, List, [], ◌∷◌, ◌++◌, arith, length, length-append,
}
use implement_os.Memory.{Memory, write, pf_alloc, pf_free}

-- The links from `p` lead through the pages, and the last one holds `e`.
abbrev pub Linked : (ℕ → ℕ) → ℕ → List ℕ → ℕ → Type 0
Linked w p [] e = p ≡ e
Linked w p (x ∷ xs) e = (p ≡ x) × (x ≢ 0) × Linked w (w x) xs e

abbrev pub Fresh : ℕ → List ℕ → Type 0
Fresh y [] = Unit
Fresh y (x ∷ xs) = (y ≢ x) × Fresh y xs

abbrev pub Distinct : List ℕ → Type 0
Distinct [] = Unit
Distinct (x ∷ xs) = Fresh x xs × Distinct xs

abbrev pub last : ℕ → List ℕ → ℕ
last x [] = x
last x (y ∷ ys) = last y ys

-- The tail is the last page; on an empty list it is stale.
abbrev pub EndsAt : List ℕ → ℕ → Type 0
EndsAt [] t = Unit
EndsAt (x ∷ xs) t = t ≡ last x xs

-- The state holds exactly these free pages, in this order.
pub record IsFreeList (m : Memory) (pages : List ℕ) : Type 0 where
  pub linked : Linked m.words m.free_pages.page_head pages 0
  pub ends : EndsAt pages m.free_pages.page_tail
  pub distinct : Distinct pages
  pub count : m.free_pages.count ≡ length pages
  pub small : length pages < 2 ^ 32

-- A write elsewhere leaves the links alone.
pub Linked-write :
    (w : ℕ → ℕ) (y v p : ℕ) (xs : List ℕ) (e : ℕ)
    → Linked w p xs e
    → Fresh y xs
    → Linked (write w y v) p xs e
Linked-write w y v p [] e l f = l
Linked-write w y v p (x ∷ xs) e l f =
    (l.0, l.1, ground (arith, Linked-write w y v (w x) xs e l.2 f.1))

pub last-append : (x y : ℕ) (xs : List ℕ) → last x (xs ++ (y ∷ [])) ≡ y
last-append x y [] = refl
last-append x y (z ∷ xs) = last-append z y xs

pub Fresh-last : (y x : ℕ) (xs : List ℕ) → Fresh y (x ∷ xs) → y ≢ last x xs
Fresh-last y x [] f = f.0
Fresh-last y x (z ∷ xs) f = Fresh-last y z xs f.1

pub Fresh-left : (y : ℕ) (xs ys : List ℕ) → Fresh y (xs ++ ys) → Fresh y xs
Fresh-left y [] ys f = tt
Fresh-left y (x ∷ xs) ys f = (f.0, Fresh-left y xs ys f.1)

pub Fresh-mid : (y : ℕ) (xs : List ℕ) (z : ℕ) (ys : List ℕ) → Fresh y (xs ++ (z ∷ ys)) → y ≢ z
Fresh-mid y [] z ys f = f.0
Fresh-mid y (x ∷ xs) z ys f = Fresh-mid y xs z ys f.1

pub write-ne : (w : ℕ → ℕ) (a b v : ℕ) → b ≢ a → write w a v b ≡ w b
write-ne w a b v ne = ground arith

pub Fresh-append : (y z : ℕ) (xs : List ℕ) → Fresh y xs → y ≢ z → Fresh y (xs ++ (z ∷ []))
Fresh-append y z [] f h = (h, tt)
Fresh-append y z (x ∷ xs) f h = (f.0, Fresh-append y z xs f.1 h)

pub Distinct-append : (y : ℕ) (xs : List ℕ) → Distinct xs → Fresh y xs → Distinct (xs ++ (y ∷ []))
Distinct-append y [] d f = (tt, tt)
Distinct-append y (x ∷ xs) d f =
    (Fresh-append x y xs d.0 (λ e. f.0 (sym e)), Distinct-append y xs d.1 f.1)

-- A page written behind the last one extends the list, which then ends in that page's own word.
pub Linked-append :
    (w : ℕ → ℕ) (y p x : ℕ) (xs : List ℕ) (e : ℕ)
    → Linked w p (x ∷ xs) e
    → Distinct (x ∷ xs)
    → y ≢ 0
    → Fresh y (x ∷ xs)
    → Linked (write w (last x xs) y) p ((x ∷ xs) ++ (y ∷ [])) (w y)
Linked-append w y p x [] e l d ne f = ground arith
Linked-append w y p x (z ∷ xs) e l d ne f =
    let same : write w (last z xs) y x ≡ w x = ground (arith, Fresh-last x z xs d.0) in
    (l.0, l.1, rw same (Linked-append w y (w x) z xs e l.2 d.1 ne f.1))

-- Writing the last page's word ends the list there.
pub Linked-close :
    (w : ℕ → ℕ) (v p x : ℕ) (xs : List ℕ) (e : ℕ)
    → Linked w p (x ∷ xs) e
    → Distinct (x ∷ xs)
    → Linked (write w (last x xs) v) p (x ∷ xs) v
Linked-close w v p x [] e l d = ground arith
Linked-close w v p x (z ∷ xs) e l d =
    let same : write w (last z xs) v x ≡ w x = ground (arith, Fresh-last x z xs d.0) in
    (l.0, l.1, rw same (Linked-close w v (w x) z xs e l.2 d.1))

-- what `MEM_pf_alloc` is to return and leave, given the pages
abbrev pub Taken : Memory → List ℕ → ℕ × Memory → Type 0
Taken m [] (page, m') = (page ≡ 0) × (m' ≡ record m { raised = 13 ∷ m.raised })
Taken m (x ∷ xs) (page, m') = (page ≡ x) × IsFreeList m' xs × (m'.words ≡ m.words)

-- On a well-formed free list MEM_pf_alloc returns the first page and leaves the list of the
-- others and the memory as it was; on an empty list it
-- raises interrupt 13 and returns 0, and nothing else changes.
pub pf_alloc_lem : {m : Memory} (pages : List ℕ) → IsFreeList m pages → Taken m pages (pf_alloc m)
unfolding pf_alloc
pf_alloc_lem [] f = ground (arith, f.linked)
pf_alloc_lem (x ∷ []) f = ground (arith, f.linked, f.count, f.small)
pf_alloc_lem (x ∷ y ∷ xs) f = ground (arith, f.linked, f.count, f.small, f.ends, f.distinct)

-- What a list of pages is after `MEM_pf_free`, but for the last link.
pub pf_free_links :
    {m : Memory} (y x : ℕ) (xs : List ℕ)
    → IsFreeList m (x ∷ xs)
    → y ≢ 0
    → Fresh y (x ∷ xs)
    → Linked
        (pf_free y m).words
        (pf_free y m).free_pages.page_head
        ((x ∷ xs) ++ (y ∷ []))
        (m.words y)
unfolding pf_free
pf_free_links {m} y x xs f ne fr =
    subst
      (λ t. Linked (write m.words t y) m.free_pages.page_head ((x ∷ xs) ++ (y ∷ [])) (m.words y))
      (sym f.ends) (Linked-append m.words y m.free_pages.page_head x xs 0 f.linked f.distinct ne fr)

-- MEM_pf_free on a free list that is not empty leaves a well-formed list with the freed page at
-- its end, if the page is not 0 and not on the list, its first word is 0 and the count does not
-- wrap.
pub pf_free_lem :
    {m : Memory} (y x : ℕ) (xs : List ℕ)
    → IsFreeList m (x ∷ xs)
    → y ≢ 0
    → Fresh y (x ∷ xs)
    → m.words y ≡ 0
    → length (x ∷ xs) + 1 < 2 ^ 32
    → IsFreeList (pf_free y m) ((x ∷ xs) ++ (y ∷ []))
unfolding pf_free
pf_free_lem {m} y x xs f ne fr e h = record {
  linked = rw e at (pf_free_links y x xs f ne fr);
  ends = sym (last-append x y xs);
  distinct = Distinct-append y (x ∷ xs) f.distinct fr;
  count = omega (arith, f.count, length-append {0} xs (y ∷ []));
  small = omega (arith, length-append {0} xs (y ∷ []));
}
