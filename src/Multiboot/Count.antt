-- ===== src/Multiboot/Count.antt =====
-- src/c/multiboot_parser.c: how many pages the memory map gives at least, and that they are frames.
use implement_os.Prelude.{
  ℕ, zero, suc, ◌+◌, ◌*◌, ◌%◌, ◌≤◌, ◌<◌, ◌≡◌, sym, ap, arith, ◌⊎◌, inl, inr, true, false,
  Bool-cases, List, [], ◌∷◌, length, length-append, leb, ◌==◌,
}
use mathlib.Core.Path.{subst}
use implement_os.Memory.{Structure, page_size}
use implement_os.Memory.Search.{IsFree}
use implement_os.Memory.Pages.{PagesOf, Each, Each-append}
use implement_os.Multiboot.Map.{Region, IsMap, Listed}

-- The `n` pages from `from` on are free.
abbrev pub Run : Structure → (from n : ℕ) → Type 0
Run s from n = (k : ℕ) → k < n → IsFree s (from + page_size * k)

Run-tail : (s : Structure) (from n : ℕ) → Run s from (suc n) → Run s (from + page_size) n
Run-tail s from n r k h = subst (IsFree s) (omega arith) (r (suc k) (omega arith))

Run-head : (s : Structure) (from n : ℕ) → Run s from (suc n) → IsFree s from
Run-head s from n r = subst (IsFree s) (omega arith) (r 0 (omega arith))

PagesOf-many :
    (s : Structure) (max lo from n : ℕ) (ys : List ℕ)
    → PagesOf s lo max ys
    → from % page_size ≡ 0
    → 0 < from
    → lo ≤ from
    → from + page_size * n ≤ max
    → Run s from n
    → n ≤ length ys
PagesOf-many s max lo from zero ys p al po h room run = omega arith
PagesOf-many s max lo from (suc n) [] p al po h room run =
    elim (p from al po h (omega arith) (Run-head s from n run)) [ ]
PagesOf-many s max lo from (suc n) (y ∷ ys) p al po h room run = elim (Bool-cases (leb y from)) [
  | inr after ↦ elim (p.4 from al po h (ground (arith, p.0)) (Run-head s from n run)) [ ]
  | inl upto ↦ elim (Bool-cases (leb (y + page_size) from)) [
    | inl before ↦
        let more =
          PagesOf-many s max (y + page_size) from (suc n) ys p.5 al po (ground arith) room run in
        omega arith
    | inr at ↦
        let same : y ≡ from = ground (arith, p.0) in
        let more =
          PagesOf-many s max (y + page_size) (from + page_size) n ys p.5 (omega arith) (omega arith)
            (omega arith) (omega arith) (Run-tail s from n run) in
        omega arith
  ]
]

-- One of the available regions has `n` free pages in a row.
abbrev pub HasRun : Structure → ℕ → List Region → Type 0
HasRun s n [] = ⊥
HasRun s n (r ∷ rs) =
    ((r.region_type ≡ 1)
      × ((from : ℕ) × (from % page_size ≡ 0)
          × (0 < from)
          × (r.start ≤ from)
          × (from + page_size * n ≤ r.start + r.size)
          × Run s from n))
    ⊎ HasRun s n rs

pub Listed-many :
    (s : Structure) (n : ℕ) (rs : List Region) (ys : List ℕ)
    → Listed s rs ys
    → HasRun s n rs
    → n ≤ length ys
Listed-many s n [] ys l h = elim h [ ]
Listed-many s n (r ∷ rs) ys (new, later, e, here, rest) (inr h) =
    omega (arith, ap length e, length-append {0} new later, Listed-many s n rs later rest h)
Listed-many s n (r ∷ rs) ys (new, later, e, here, rest) (inl (one, (from, al, po, lo, room, run))) =
    let is : (r.region_type == 1) ≡ true = ground arith in
    let many =
      PagesOf-many s (r.start + r.size) r.start from n new (rw is at here) al po lo room run in
    omega (arith, ap length e, length-append {0} new later, many)

-- aligned and below the limit
abbrev pub Below : (limit y : ℕ) → Type 0
Below limit y = (y % page_size ≡ 0) × (y + page_size ≤ limit)

PagesOf-Below :
    (s : Structure) (max limit lo : ℕ) (ys : List ℕ)
    → max ≤ limit
    → PagesOf s lo max ys
    → Each (Below limit) ys
PagesOf-Below s max limit lo [] h p = tt
PagesOf-Below s max limit lo (y ∷ ys) h p =
    ((p.0, omega (arith, p.2)), PagesOf-Below s max limit (y + page_size) ys h p.5)

pub Listed-Below :
    (s : Structure) (limit low : ℕ) (rs : List Region) (ys : List ℕ)
    → IsMap s limit low rs
    → Listed s rs ys
    → Each (Below limit) ys
Listed-Below s limit low [] ys is e = subst (Each (Below limit)) (sym e) tt
Listed-Below s limit low (r ∷ rs) ys (inl (other, is)) (new, later, e, here, rest) =
    let skip : (r.region_type == 1) ≡ false = ground arith in
    let none_new : new ≡ [] = rw skip at here in
    subst (Each (Below limit)) (sym e) (
      Each-append (Below limit) new later (subst (Each (Below limit)) (sym none_new) tt)
        (Listed-Below s limit low rs later is rest))
Listed-Below s limit low (r ∷ rs) ys (inr (one, above, inside, p, is)) (new, later, e, here, rest) =
    let add : (r.region_type == 1) ≡ true = ground arith in
    subst (Each (Below limit)) (sym e) (
      Each-append (Below limit) new later
        (PagesOf-Below s (r.start + r.size) limit r.start new inside (rw add at here))
        (Listed-Below s limit (r.start + r.size) rs later is rest))
