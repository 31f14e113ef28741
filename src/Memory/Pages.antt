-- ===== src/Memory/Pages.antt =====
-- src/c/memory_manager.c: the pages of a space of addresses that no region to avoid meets.
use implement_os.Prelude.{ℕ, ◌+◌, ◌*◌, ◌%◌, ◌≤◌, ◌<◌, ◌≡◌, List, [], ◌∷◌, ◌++◌, length, arith}
use implement_os.Memory.{Structure, page_size}
use implement_os.Memory.Search.{IsClear, IsFree}
use implement_os.Memory.Span.{Covered}
use implement_os.Memory.Open.{AllBelow}

-- The code finds no page free from `lo` up to `hi`.
abbrev pub NoneFree : Structure → (lo hi : ℕ) → Type 0
NoneFree s lo hi = (p : ℕ) → p % page_size ≡ 0 → 0 < p → lo ≤ p → p + page_size ≤ hi → ¬ IsFree s p

-- The pages from `lo` up to `max`, ascending: clear of every span, and none that is free is left
-- out.
abbrev pub PagesOf : Structure → (lo max : ℕ) → List ℕ → Type 0
PagesOf s lo max [] = NoneFree s lo max
PagesOf s lo max (y ∷ ys) =
    (y % page_size ≡ 0)
    × (lo ≤ y)
    × (y + page_size ≤ max)
    × IsClear s y
    × NoneFree s lo y
    × PagesOf s (y + page_size) max ys

-- every page of the list
abbrev pub Each : (ℕ → Type 0) → List ℕ → Type 0
Each P [] = Unit
Each P (y ∷ ys) = P y × Each P ys

pub Each-append : (P : ℕ → Type 0) (xs ys : List ℕ) → Each P xs → Each P ys → Each P (xs ++ ys)
Each-append P [] ys b c = c
Each-append P (x ∷ xs) ys b c = (b.0, Each-append P xs ys b.1 c)

pub AllBelow-both : (n : ℕ) (xs ys : List ℕ) → AllBelow n xs → AllBelow n ys → AllBelow n (xs ++ ys)
AllBelow-both n [] ys b c = c
AllBelow-both n (x ∷ xs) ys b c = (b.0, AllBelow-both n xs ys b.1 c)

-- no byte of the page at `y` is covered
abbrev pub IsUncovered : Structure → ℕ → Type 0
IsUncovered s y = (x : ℕ) → y ≤ x → x < y + page_size → ¬ Covered s x

module _ (s : Structure) (max : ℕ) where
  pub PagesOf-AllBelow : (lo : ℕ) (ys : List ℕ) → PagesOf s lo max ys → AllBelow max ys
  PagesOf-AllBelow lo [] p = tt
  PagesOf-AllBelow lo (y ∷ ys) p = (omega (arith, p.2), PagesOf-AllBelow (y + page_size) ys p.5)

  pub PagesOf-length :
      (lo : ℕ) (ys : List ℕ) → lo ≤ max → PagesOf s lo max ys → lo + page_size * length ys ≤ max
  PagesOf-length lo [] h p = omega arith
  PagesOf-length lo (y ∷ ys) h p = omega (arith, p.1, PagesOf-length (y + page_size) ys p.2 p.5)

  pub PagesOf-IsUncovered : (lo : ℕ) (ys : List ℕ) → PagesOf s lo max ys → Each (IsUncovered s) ys
  PagesOf-IsUncovered lo [] p = tt
  PagesOf-IsUncovered lo (y ∷ ys) p = (
    (λ x ge lt (j, h, from, to). absurd (omega (arith, p.3 j x h ge lt from))),
    PagesOf-IsUncovered (y + page_size) ys p.5,
  )
