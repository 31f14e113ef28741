-- ===== src/Start/Frames.antt =====
-- src/c/main.c: `MEM_init`, `MUL_parse` and `PT_init`, from the loader's information to the page
-- tables.
use implement_os.Prelude.{
  ℕ, zero, suc, ◌+◌, ◌^◌, ◌≤◌, ◌<◌, ◌≡◌, refl, inl, ap, ◌∙◌, arith, List, [], ◌∷◌, ◌++◌, length,
}
use implement_os.Memory.{page_size}
use implement_os.Memory.FreeList.{Linked}
use implement_os.Memory.Pages.{Each}
use implement_os.PageTable.{slot, get_pml1}
use implement_os.PageTable.Entry.{get_add}
use implement_os.PageTable.EntryLaws.{IsFrame}
use implement_os.PageTable.Tables.{IsAway}
use implement_os.Multiboot.Sections.{section_start, section_size}
use implement_os.Multiboot.Boot.{IsOutside}
use implement_os.Multiboot.Count.{Below}

-- The word at `a` lies in one of the sections.
abbrev pub InSection : (info : ℕ → ℕ) (ptr n a : ℕ) → Type 0
InSection info ptr n a =
    (i : ℕ) × (i < n)
    × (section_start info ptr i ≤ a)
    × (a < section_start info ptr i + section_size info ptr i)

pub Each-map : (P Q : ℕ → Type 0) (ys : List ℕ) → ((y : ℕ) → P y → Q y) → Each P ys → Each Q ys
Each-map P Q [] f e = tt
Each-map P Q (y ∷ ys) f e = (f y e.0, Each-map P Q ys f e.1)

pub section-IsAway :
    (info : ℕ → ℕ) (ptr n a : ℕ) (ys : List ℕ)
    → InSection info ptr n a
    → Each (IsOutside info ptr n) ys
    → Each (IsAway a) ys
section-IsAway info ptr n a ys (i, h, lo, hi) e =
    Each-map (IsOutside info ptr n) (IsAway a) ys (λ y out. out i a h lo hi) e

pub Below-IsFrame :
    (limit : ℕ) (ys : List ℕ) → limit ≤ 2 ^ 43 → Each (Below limit) ys → Each IsFrame ys
Below-IsFrame limit ys h e = Each-map (Below limit) IsFrame ys (λ y b. (b.0, omega (arith, b.1))) e

-- The frames of a list are positive, so an address below the first page is away from them.
pub low-IsAway :
    (a : ℕ)
    → a < page_size
    → (w : ℕ → ℕ) (p : ℕ) (ys : List ℕ) → Linked w p ys 0
    → Each IsFrame ys
    → Each (IsAway a) ys
low-IsAway a low w p [] l f = tt
low-IsAway a low w p (y ∷ ys) l f =
    (inl (omega (arith, l.1, f.0.0)), low-IsAway a low w (w y) ys l.2 f.1)

-- The entry of address 0 stands where the words of the tables above it say.
pub null_walk :
    (p3_table : ℕ) (w w' : ℕ → ℕ)
    → w' (slot p3_table 0) ≡ w (slot p3_table 0)
    → w' (slot (get_add (w (slot p3_table 0))) 0) ≡ w (slot (get_add (w (slot p3_table 0))) 0)
    → get_pml1 p3_table w' 0 ≡ get_pml1 p3_table w 0
unfolding get_pml1
null_walk p3_table w w' e f =
    ap (λ v. slot (get_add (w' (slot (get_add v) 0))) 0) e ∙ ap (λ v. slot (get_add v) 0) f

-- A list that is long enough begins with one frame, so many others and two more.
pub split_frames :
    (n : ℕ) (ys : List ℕ)
    → n + 3 ≤ length ys
    → (y : ℕ) × (ts : List ℕ) × (x : ℕ) × (z : ℕ) × (zs : List ℕ) × (ys ≡ y ∷ (ts ++ (x ∷ z ∷ zs)))
      × (length ts ≡ n)
split_frames n [] h = absurd (omega arith)
split_frames zero (y ∷ []) h = absurd (omega arith)
split_frames zero (y ∷ x ∷ []) h = absurd (omega arith)
split_frames zero (y ∷ x ∷ z ∷ zs) h = (y, [], x, z, zs, refl, refl)
split_frames (suc n) (y ∷ ys) h =
    let (t, ts, x, z, zs, e, l) = split_frames n ys (omega arith) in
    (y, t ∷ ts, x, z, zs, ap (λ us. y ∷ us) e, omega (arith, l))
