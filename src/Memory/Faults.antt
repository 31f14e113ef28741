-- ===== src/Memory/Faults.antt =====
-- The inputs on which src/c/memory_manager.c does not do what it means to: spans that end on a page
-- boundary, and pages freed with a link in them or onto an empty list.
use mathlib.Core.Path.{subst}
use implement_os.Prelude.{
  ℕ, zero, suc, ◌+◌, ◌%◌, ◌^◌, ◌≤◌, ◌<◌, ◌≡◌, ◌≢◌, refl, ◌∙◌, ap, sym, List, [], ◌∷◌, ◌++◌, length,
  length-append, none, true, false, arith, ◌==◌,
}
use implement_os.Memory.{
  Memory, Structure, page_size, span_count, span_start, span_end, overlaps, ok_loop, ok_address,
  align_page_size, find_free_page, pf_alloc, pf_free, count_free_pages,
}
use implement_os.Memory.Search.{candidate, find-hit}
use implement_os.Memory.FreeList.{Linked, Fresh, IsFreeList, pf_free_links}

-- A span whose end is a page boundary, reached at its first entry.
pub record BlocksAt (s : Structure) (e : ℕ) : Type 0 where
  pub some_span : 0 < span_count s
  pub ends : span_end s 0 ≡ e
  pub starts : span_start s 0 ≤ e
  pub boundary : e % page_size ≡ 0
  pub small : e < 2 ^ 63

module _ {s : Structure} {e : ℕ} (b : BlocksAt s e) where
  ok_loop_first : (a n i : ℕ) → 0 < n → overlaps s a i ≡ true → ok_loop s a n i ≡ span_end s i
  unfolding ok_loop
  ok_loop_first a zero i h o = absurd (omega arith)
  ok_loop_first a (suc n) i h o = rw o

  ok_address_at : (a : ℕ) → a ≤ e → span_start s 0 ≤ a + page_size → ok_address s a ≡ e
  unfolding ok_address
  ok_address_at a h l =
      ok_loop_first a (span_count s) 0 b.some_span (ground (arith, b.small, b.ends)) ∙ b.ends

  begins :
      (start : ℕ)
      → 0 < start
      → start ≤ e
      → (candidate start ≤ e)
        × (span_start s 0 ≤ start + page_size → span_start s 0 ≤ candidate start + page_size)
  unfolding align_page_size
  begins start pos h = ground (arith, b.boundary, b.small)

  stays : align_page_size e ≡ e
  unfolding align_page_size
  stays = ground (arith, b.boundary)

  -- When the first registered span ends on a page boundary below 2^63, find_free_page from a
  -- positive address that is at most that boundary and at most a page before the span's start
  -- runs out of every fuel, so it never returns.
  pub find_free_page-diverges :
      (fuel start : ℕ)
      → 0 < start
      → start ≤ e
      → span_start s 0 ≤ start + page_size
      → find_free_page fuel s start ≡ none
  unfolding find_free_page
  find_free_page-diverges zero start pos h l = refl
  find_free_page-diverges (suc fuel) start pos h l =
      find-hit fuel s start e
        (ok_address_at (candidate start) (begins start pos h).0 ((begins start pos h).1 l))
        (ground arith)
      ∙ ap (find_free_page fuel s) stays
      ∙ find_free_page-diverges fuel e (omega arith) (omega arith) (omega (arith, b.starts))

-- The pages that are left after some calls of `MEM_pf_alloc`.
unfoldable pub after_allocs : ℕ → Memory → Memory
after_allocs zero m = m
after_allocs (suc n) m = after_allocs n (pf_alloc m).1

pf_alloc-Linked :
    (m : Memory) (x : ℕ) (xs : List ℕ) (g : ℕ)
    → Linked m.words m.free_pages.page_head (x ∷ xs) g
    → Linked (pf_alloc m).1.words (pf_alloc m).1.free_pages.page_head xs g
unfolding pf_alloc
pf_alloc-Linked m x xs g l =
    let e : (m.free_pages.page_head == 0) ≡ false = ground arith in
    rw e (subst (λ p. Linked m.words (m.words p) xs g) (sym l.0) l.2)

pub after_allocs-head :
    (pages : List ℕ) (m : Memory) (g : ℕ)
    → Linked m.words m.free_pages.page_head pages g
    → (after_allocs (length pages) m).free_pages.page_head ≡ g
unfolding after_allocs
after_allocs-head [] m g l = l
after_allocs-head (x ∷ xs) m g l =
    after_allocs-head xs (pf_alloc m).1 g (pf_alloc-Linked m x xs g l)

pub alloc_of_head : (m : Memory) → (pf_alloc m).0 ≡ m.free_pages.page_head
unfolding pf_alloc
alloc_of_head m = ground arith

-- After MEM_pf_free of a page that is not 0 and not on a free list that is not empty, one call
-- of MEM_pf_alloc for each page of the list and one for the freed page are followed by a call
-- that returns what the first word of the freed page was.
pub pf_free-dangling :
    {m : Memory} (y x : ℕ) (xs : List ℕ)
    → IsFreeList m (x ∷ xs)
    → y ≢ 0
    → Fresh y (x ∷ xs)
    → (pf_alloc (after_allocs (length (x ∷ xs) + 1) (pf_free y m))).0 ≡ m.words y
pf_free-dangling {m} y x xs f ne fr =
    let n : length ((x ∷ xs) ++ (y ∷ [])) ≡ length (x ∷ xs) + 1 =
      length-append {0} (x ∷ xs) (y ∷ []) in
    alloc_of_head (after_allocs (length (x ∷ xs) + 1) (pf_free y m))
    ∙ subst (λ k. (after_allocs k (pf_free y m)).free_pages.page_head ≡ m.words y) n
        (after_allocs-head ((x ∷ xs) ++ (y ∷ [])) (pf_free y m) (m.words y)
          (pf_free_links y x xs f ne fr))

-- MEM_pf_free on an empty free list counts the page and writes its address to the stale tail,
-- but MEM_pf_alloc then still finds no page: it raises interrupt 13 and, if that returns,
-- returns 0 with nothing else changed.
pub pf_free-lost :
    {m : Memory} (y : ℕ)
    → IsFreeList m []
    → (count_free_pages (pf_free y m) ≡ 1)
      × ((pf_free y m).words m.free_pages.page_tail ≡ y)
      × (pf_alloc (pf_free y m) ≡ (0, record (pf_free y m) { raised = 13 ∷ m.raised }))
unfolding pf_free pf_alloc
pf_free-lost y f = ground (arith, f.linked, f.count)
