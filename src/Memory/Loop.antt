-- ===== src/Memory/Loop.antt =====
-- `PRE_add_address_space` of src/c/memory_manager.c: the loop that links the pages behind the first.
use mathlib.Core.List.{append-nil, append_assoc}
use mathlib.Core.Path.{subst}
use implement_os.Prelude.{
  ℕ, zero, suc, ◌+◌, ◌-◌, ◌*◌, ◌^◌, ◌≤◌, ◌<◌, ◌≡◌, ◌≢◌, inl, inr, refl, sym, ◌∙◌, List, [], ◌∷◌,
  ◌++◌, length, length-append, Option, some, arith, leb, ltb, true, false, Bool-cases,
}
use implement_os.Prelude.Words.{add64}
use implement_os.Memory.{Memory, page_size, link_page, close_list, add_loop, find_free_page}
use implement_os.Memory.FreeList.{IsFreeList, Fresh, last, Fresh-last, Fresh-left, write-ne}
use implement_os.Memory.Search.{IsBounded, Found, find_free_page_lem}
use implement_os.Memory.Pages.{PagesOf}
use implement_os.Memory.Open.{IsOpen, open-IsFreeList, close_list-IsFreeList, link_page-IsOpen}

-- What the loop returns: the list with new pages behind it, none of which is in a span.
abbrev pub Extends : Memory → ℕ → ℕ → List ℕ → Option Memory → Type 0
Extends m curr max pages out =
    (m' : Memory) × (ys : List ℕ) × (out ≡ some m')
    × IsFreeList m' (pages ++ ys)
    × PagesOf m.structure (curr + page_size) max ys
    × (m'.structure ≡ m.structure)
    × ((a : ℕ) → Fresh a (pages ++ ys) → m'.words a ≡ m.words a)

Extends-link :
    (m : Memory) {limit start max : ℕ} (curr : ℕ) {out out' : Option Memory} (x : ℕ) (xs : List ℕ)
    (next : ℕ)
    → Found m.structure limit start next
    → start ≡ curr + page_size
    → curr + page_size ≤ next
    → next + page_size ≤ max
    → curr ≡ last x xs
    → out ≡ out'
    → Extends (link_page curr next m) next max (x ∷ (xs ++ (next ∷ []))) out'
    → Extends m curr max (x ∷ xs) out
Extends-link m curr x xs next is at far room end e (m', ys, runs, list, new, same, kept) = (
  m',
  next ∷ ys,
  e ∙ runs,
  subst (λ l. IsFreeList m' (x ∷ l)) (append_assoc xs (next ∷ []) ys) list,
  (
    is.aligned,
    far,
    room,
    is.clear,
    (λ p al po lo hi fr.
        absurd (omega (arith, is.least p al po (omega arith) (omega (arith, is.within)) fr))),
    new,
  ),
  same,
  λ a f.
      let f' : Fresh a ((x ∷ (xs ++ (next ∷ []))) ++ ys) =
        subst (λ l. Fresh a (x ∷ l)) (sym (append_assoc xs (next ∷ []) ys)) f in
      let apart : a ≢ curr =
        λ p. Fresh-last a x xs (Fresh-left a (x ∷ xs) (next ∷ ys) f) (p ∙ end) in
      kept a f' ∙ write-ne m.words curr a next apart,
)

-- The room that the count of pages has, so that it does not wrap.
abbrev pub HasRoom : ℕ → ℕ → ℕ → Type 0
HasRoom n max curr = (n < 2 ^ 32) × (page_size * n + max < page_size * (2 ^ 32 - 2) + curr)

add_loop-none_left :
    (fuel search max curr : ℕ) (m : Memory)
    → leb (add64 curr page_size) max ≡ false
    → add_loop (suc fuel) search max curr m ≡ some m
unfolding add_loop
add_loop-none_left fuel search max curr m e = rw e

add_loop-closes :
    (fuel search max curr next : ℕ) (m : Memory)
    → leb (add64 curr page_size) max ≡ true
    → find_free_page search m.structure (add64 curr page_size) ≡ some next
    → ltb max (add64 next page_size) ≡ true
    → add_loop (suc fuel) search max curr m ≡ some (close_list curr m)
unfolding add_loop
add_loop-closes fuel search max curr next m e f o = rw (e, f, o)

add_loop-links :
    (fuel search max curr next : ℕ) (m : Memory)
    → leb (add64 curr page_size) max ≡ true
    → find_free_page search m.structure (add64 curr page_size) ≡ some next
    → ltb max (add64 next page_size) ≡ false
    → add_loop (suc fuel) search max curr m ≡ add_loop fuel search max next (link_page curr next m)
unfolding add_loop
add_loop-links fuel search max curr next m e f o = rw (e, f, o)

pub add_loop_lem :
    (fuel search max limit curr : ℕ) {m : Memory} (x : ℕ) (xs : List ℕ)
    → IsBounded m.structure limit
    → IsOpen m max curr x xs
    → HasRoom (length (x ∷ xs)) max curr
    → max ≤ limit
    → curr ≤ limit
    → limit + page_size < page_size * search
    → max < curr + page_size * fuel
    → 0 < fuel
    → Extends m curr max (x ∷ xs) (add_loop fuel search max curr m)
add_loop_lem zero search max limit curr x xs b o r hm hl hs hf pos = absurd (omega arith)
add_loop_lem (suc fuel) search max limit curr {m} x xs b o r hm hl hs hf pos =
    elim (Bool-cases (leb (add64 curr page_size) max)) [
      | inr out ↦ (
        m,
        [],
        add_loop-none_left fuel search max curr m out,
        subst (IsFreeList m) (sym (append-nil (x ∷ xs)))
            (open-IsFreeList x xs o (ground (arith, b.small)) r.0),
        (λ p al po lo hi fr. absurd (ground (arith, b.small))),
        refl,
        (λ a f. refl),
      )
      | inl fits ↦
          let after : add64 curr page_size ≡ curr + page_size = omega (arith, b.small) in
          let inside : curr + page_size ≤ max = ground arith in
          let (next, found, is) =
            find_free_page_lem b search (add64 curr page_size) (omega arith) (omega arith)
              (omega arith) in
          elim (Bool-cases (ltb max (add64 next page_size))) [
            | inl over ↦ (
              close_list curr m,
              [],
              add_loop-closes fuel search max curr next m fits found over,
              subst (IsFreeList (close_list curr m)) (sym (append-nil (x ∷ xs)))
                  (close_list-IsFreeList x xs o r.0),
              (λ p al po lo hi fr. absurd (
                  ground
                    (arith, is.least p al po (omega arith) (omega arith) fr, b.small, is.within))),
              refl,
              (λ a f.
                  write-ne m.words curr a 0
                    (λ p. Fresh-last a x xs (Fresh-left a (x ∷ xs) [] f) (p ∙ o.at_last))),
            )
            | inr goes ↦
                let far : curr + page_size ≤ next = omega (arith, is.above) in
                let room : next + page_size ≤ max = ground (arith, is.within, b.small) in
                Extends-link m curr x xs next is after far room o.at_last
                  (add_loop-links fuel search max curr next m fits found goes)
                  (add_loop_lem fuel search max limit next x (xs ++ (next ∷ [])) b
                    (link_page-IsOpen x xs next o (omega arith) far room)
                    (omega (arith, length-append {0} xs (next ∷ []))) hm is.within hs (omega arith)
                    (omega arith))
          ]
    ]
