-- ===== src/Heap/Blocks.antt =====
-- src/c/allocator.c: the list of blocks that `allocate_for_pool` cuts a page into.
use mathlib.Core.List.{append-nil, append_assoc}
use mathlib.Core.Path.{subst}
use implement_os.Prelude.{
  ℕ, zero, suc, ◌+◌, ◌*◌, ◌%◌, ◌≤◌, ◌<◌, ◌≡◌, ◌≢◌, refl, sym, ap, ◌∙◌, List, [], ◌∷◌, ◌++◌, Option,
  some, arith, ltb, ◌==◌, true, false,
}
use implement_os.Memory.{page_size, write}
use implement_os.Memory.FreeList.{
  Linked, Fresh, Distinct, last, last-append, Fresh-last, Distinct-append, Linked-append,
}
use implement_os.Memory.Open.{AllBelow, AllBelow-le, AllBelow-append, Fresh-below}
use implement_os.Heap.{fill}

-- `n` blocks of size `b` from `a` on
abbrev pub blocks : (b a n : ℕ) → List ℕ
blocks b a zero = []
blocks b a (suc n) = a ∷ blocks b (a + b) n

-- what the loop is to leave from a list `x ∷ xs` on: the list with the page's other blocks behind
-- it, which ends in what the last one held
abbrev Filled : (ℕ → ℕ) → ℕ → List ℕ → ℕ → List ℕ → Option (ℕ × (ℕ → ℕ)) → Type 0
Filled w x xs head ys out =
    (w' : ℕ → ℕ) × (out ≡ some (head, w'))
    × Linked w' head ((x ∷ xs) ++ ys) (w (last x (xs ++ ys)))
    × Distinct ((x ∷ xs) ++ ys)
    × ((a : ℕ) → Fresh a ((x ∷ xs) ++ ys) → w' a ≡ w a)

fill_stops :
    (fuel b new_pf i prev head : ℕ) (w : ℕ → ℕ)
    → page_size ≤ i
    → fill (suc fuel) b new_pf i prev head w ≡ some (head, w)
unfolding fill
fill_stops fuel b new_pf i prev head w h = ground arith

fill_goes :
    (fuel b new_pf i prev head : ℕ) (w : ℕ → ℕ)
    → i < page_size
    → prev ≢ 0
    → fill (suc fuel) b new_pf i prev head w
      ≡ fill fuel b new_pf (i + b) (new_pf + i) head (write w prev (new_pf + i))
unfolding fill
fill_goes fuel b new_pf i prev head w h ne =
    let in_page : ltb i page_size ≡ true = ground arith in
    let some_prev : (prev == 0) ≡ false = ground arith in rw (in_page, some_prev)

last-ne-last :
    (x y : ℕ) (xs ys : List ℕ)
    → Distinct ((x ∷ xs) ++ (y ∷ ys))
    → last x xs ≢ last x (xs ++ (y ∷ ys))
last-ne-last x y [] ys d = Fresh-last x y ys d.0
last-ne-last x y (z ∷ xs) ys d = last-ne-last z y xs ys d.1

Fresh-last_front : (a x : ℕ) (xs ys : List ℕ) → Fresh a ((x ∷ xs) ++ ys) → a ≢ last x xs
Fresh-last_front a x [] ys f = f.0
Fresh-last_front a x (z ∷ xs) ys f = Fresh-last_front a z xs ys f.1

-- One more block goes behind the last.
Filled-next :
    (w : ℕ → ℕ) (x y : ℕ) (xs : List ℕ) (head : ℕ) (ys : List ℕ) {out out' : Option (ℕ × (ℕ → ℕ))}
    → out ≡ out'
    → Filled (write w (last x xs) y) x (xs ++ (y ∷ [])) head ys out'
    → Filled w x xs head (y ∷ ys) out
Filled-next w x y xs head ys e (w', runs, l, d, same) =
    let eq : (xs ++ (y ∷ [])) ++ ys ≡ xs ++ (y ∷ ys) = append_assoc xs (y ∷ []) ys in
    let d' : Distinct ((x ∷ xs) ++ (y ∷ ys)) = subst (λ t. Distinct (x ∷ t)) eq d in
    let l' : Linked w' head ((x ∷ xs) ++ (y ∷ ys))
        (write w (last x xs) y (last x (xs ++ (y ∷ ys)))) =
      subst (λ t. Linked w' head (x ∷ t) (write w (last x xs) y (last x t))) eq l in
    let kept : write w (last x xs) y (last x (xs ++ (y ∷ ys))) ≡ w (last x (xs ++ (y ∷ ys))) =
      ground (arith, last-ne-last x y xs ys d') in
    (
      w',
      e ∙ runs,
      subst (Linked w' head ((x ∷ xs) ++ (y ∷ ys))) kept l',
      d',
      λ a fr.
          same a (subst (λ t. Fresh a (x ∷ t)) (sym eq) fr)
          ∙ ground (arith, Fresh-last_front a x xs (y ∷ ys) fr),
    )

pub fill_lem :
    (fuel b new_pf n i prev a head x : ℕ) (xs : List ℕ) (w : ℕ → ℕ)
    → n < fuel
    → i + b * n ≡ page_size
    → 0 < b
    → 0 < new_pf
    → prev ≢ 0
    → prev ≡ last x xs
    → a ≡ new_pf + i
    → AllBelow a (x ∷ xs)
    → Distinct (x ∷ xs)
    → Linked w head (x ∷ xs) (w (last x xs))
    → Filled w x xs head (blocks b a n) (fill fuel b new_pf i prev head w)
fill_lem zero b new_pf n i prev a head x xs w lt e pos page ne at_last at below d l =
    absurd (omega arith)
fill_lem (suc fuel) b new_pf zero i prev a head x xs w lt e pos page ne at_last at below d l = (
  w,
  fill_stops fuel b new_pf i prev head w (omega arith),
  subst (λ t. Linked w head (x ∷ t) (w (last x t))) (sym (append-nil xs)) l,
  subst (λ t. Distinct (x ∷ t)) (sym (append-nil xs)) d,
  λ a fr. refl,
)
fill_lem (suc fuel) b new_pf (suc n) i prev a head x xs w lt e pos page ne at_last at below d l =
    let fresh : Fresh a (x ∷ xs) = Fresh-below a a (x ∷ xs) (omega arith) below in
    let some_block : a ≢ 0 = λ z. omega arith in
    let grown : Linked (write w (last x xs) a) head ((x ∷ xs) ++ (a ∷ [])) (w a) =
      Linked-append w a head x xs (w (last x xs)) l d some_block fresh in
    let kept : write w (last x xs) a (last x (xs ++ (a ∷ []))) ≡ w a =
      ap (write w (last x xs) a) (last-append x a xs) ∙ ground (arith, Fresh-last a x xs fresh) in
    let more =
      fill_lem fuel b new_pf n (i + b) a (a + b) head x (xs ++ (a ∷ [])) (write w (last x xs) a)
        (omega arith) (grind arith) pos page some_block (sym (last-append x a xs)) (omega arith)
        (
          omega (arith, below.0),
          AllBelow-append (a + b) a xs (AllBelow-le a (a + b) xs (omega arith) below.1)
              (omega arith),
        )
        (Distinct-append a (x ∷ xs) d fresh)
        (subst (Linked (write w (last x xs) a) head ((x ∷ xs) ++ (a ∷ []))) (sym kept) grown) in
    Filled-next w x a xs head (blocks b (a + b) n) (started a at at_last) more
  where
    started :
        (a : ℕ)
        → a ≡ new_pf + i
        → prev ≡ last x xs
        → fill (suc fuel) b new_pf i prev head w
          ≡ fill fuel b new_pf (i + b) a head (write w (last x xs) a)
    started a at at_last =
        fill_goes fuel b new_pf i prev head w (grind arith) ne
        ∙ subst
            (λ p.
              fill fuel b new_pf (i + b) (new_pf + i) head (write w prev (new_pf + i))
              ≡ fill fuel b new_pf (i + b) (new_pf + i) head (write w p (new_pf + i)))
            at_last refl
        ∙ subst
            (λ p.
              fill fuel b new_pf (i + b) (new_pf + i) head (write w (last x xs) (new_pf + i))
              ≡ fill fuel b new_pf (i + b) p head (write w (last x xs) p))
            (sym at) refl

-- The page that an empty pool gets.
pub fill_page_lem :
    (fuel b page k : ℕ) (w : ℕ → ℕ)
    → k + 1 < fuel
    → b * suc k ≡ page_size
    → 0 < b
    → 0 < page
    → Filled (write w page 0) page [] page (blocks b (page + b) k) (fill fuel b page 0 0 0 w)
unfolding fill
fill_page_lem zero b page k w lt e pos ne = absurd (omega arith)
fill_page_lem (suc fuel) b page k w lt e pos ne =
    let (w', runs, l, d, same) =
      fill_lem fuel b page k b page (page + b) page page [] (write w page 0) (omega arith)
        (grind arith) pos ne (λ z. omega arith) refl refl (omega arith, tt) (tt, tt)
        (refl, λ z. omega arith, refl) in
    (w', begins ∙ runs, l, d, same)
  where
    begins : fill (suc fuel) b page 0 0 0 w ≡ fill fuel b page b page page (write w page 0)
    begins =
        let at : page + 0 ≡ page = omega arith in
        let step : 0 + b ≡ b = omega arith in rw (fill, at, step)

-- Blocks are multiples of 64, so that the size in a header is never a block's first word.
abbrev pub AreBlocks : List ℕ → Type 0
AreBlocks [] = Unit
AreBlocks (x ∷ xs) = (x % 64 ≡ 0) × (x ≢ 0) × AreBlocks xs

pub blocks-AreBlocks : (b a n : ℕ) → b % 64 ≡ 0 → a % 64 ≡ 0 → 0 < a → AreBlocks (blocks b a n)
blocks-AreBlocks b a zero hb ha pos = tt
blocks-AreBlocks b a (suc n) hb ha pos =
    (ha, (λ z. omega arith), blocks-AreBlocks b (a + b) n hb (omega arith) (omega arith))

pub Fresh-AreBlocks : (x : ℕ) (xs : List ℕ) → x % 64 ≢ 0 → AreBlocks xs → Fresh x xs
Fresh-AreBlocks x [] h b = tt
Fresh-AreBlocks x (y ∷ ys) h b = ((λ e. h (ap (λ t. t % 64) e ∙ b.0)), Fresh-AreBlocks x ys h b.2)
