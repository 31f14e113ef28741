-- ===== src/Multiboot/Map.antt =====
-- src/c/multiboot_parser.c: the memory map's regions, and a region whose pages go on the free list.
use mathlib.Core.Path.{subst}
use implement_os.Prelude.{
  ℕ, ◌+◌, ◌*◌, ◌%◌, ◌^◌, ◌≤◌, ◌<◌, ◌≡◌, ◌≢◌, sym, arith, ◌⊎◌, inl, inr, Bool-cases, some, Option,
  List, [], ◌∷◌, ◌++◌, length, length-append, ◌==◌, if◌then◌else◌,
}
use implement_os.Memory.{Memory, Structure, page_size, add_address_space}
use implement_os.Memory.FreeList.{Fresh, IsFreeList}
use implement_os.Memory.Search.{IsBounded, IsFree, IsClear}
use implement_os.Memory.Open.{AllBelow, AllBelow-le}
use implement_os.Memory.Pages.{
  PagesOf, Each, Each-append, AllBelow-both, IsUncovered, PagesOf-AllBelow, PagesOf-length,
  PagesOf-IsUncovered,
}
use implement_os.Memory.Space.{IsSpace, add_address_space_lem}

-- an entry of the memory map
pub record Region : Type 0 where
  pub start : ℕ
  pub size : ℕ
  pub region_type : ℕ

-- The page at `p` is one that the search can find in the space.
abbrev pub FreePage : Structure → (start max p : ℕ) → Type 0
FreePage s start max p =
    (p % page_size ≡ 0) × (0 < p) × (start ≤ p) × (p + page_size ≤ max) × IsFree s p

-- What holds before each space is added, with every page on the list below `low`.
pub record IsBefore (m : Memory) (limit low fuel : ℕ) (pages : List ℕ) : Type 0 where
  pub spans : IsBounded m.structure limit
  pub list : IsFreeList m pages
  pub below : AllBelow low pages
  pub count : page_size * length pages ≤ low
  pub inside : low ≤ limit
  pub small : limit ≤ 2 ^ 43
  pub enough : limit + page_size < page_size * fuel

-- What adding a space is to leave: the pages of the space behind the others.
abbrev pub Grown : Memory → (limit start max fuel : ℕ) → List ℕ → Option Memory → Type 0
Grown m limit start max fuel pages out =
    (m' : Memory) × (new : List ℕ) × (out ≡ some m')
    × IsBefore m' limit max fuel (pages ++ new)
    × PagesOf m.structure start max new
    × (m'.structure ≡ m.structure)
    × ((a : ℕ) → Fresh a (pages ++ new) → m'.words a ≡ m.words a)

pub add_region :
    {m : Memory} {limit low fuel : ℕ} {pages : List ℕ} (start size p : ℕ)
    → IsBefore m limit low fuel pages
    → low ≤ start
    → start + size ≤ limit
    → FreePage m.structure start (start + size) p
    → Grown m limit start (start + size) fuel pages (add_address_space fuel start size m)
add_region {m} {limit} {low} {fuel} {pages} start size p b above inside is =
    let sp : IsSpace m limit start size fuel pages = record {
      spans = b.spans;
      list = b.list;
      behind = AllBelow-le low start pages above b.below;
      inside = inside;
      nonempty = omega arith;
      room = omega (arith, b.count, b.small);
      enough = b.enough;
    } in
    let (m', first, ys, runs, list, found, rest, same, kept) = add_address_space_lem sp in
    let early : first ≤ p = found.least p is.0 is.1 is.2 (omega arith) is.4 in
    let pages' : PagesOf m.structure start (start + size) (first ∷ ys) = (
      found.aligned,
      found.above,
      omega (arith, is.3),
      found.clear,
      (λ q al po lo hi fr. absurd (omega (arith, found.least q al po lo (omega arith) fr))),
      rest,
    ) in
    let in_space = PagesOf-AllBelow m.structure (start + size) start (first ∷ ys) pages' in
    (
      m',
      first ∷ ys,
      runs,
      record {
        spans = subst (λ s. IsBounded s limit) (sym same) b.spans;
        list = list;
        below =
            AllBelow-both (start + size) pages (first ∷ ys)
              (AllBelow-le low (start + size) pages (omega arith) b.below) in_space;
        count = omega (
          arith,
          b.count,
          length-append {0} pages (first ∷ ys),
          PagesOf-length m.structure (start + size) start (first ∷ ys) (omega arith) pages',
        );
        inside = inside;
        small = b.small;
        enough = b.enough;
      },
      pages',
      same,
      kept,
    )

-- The available regions ascend from `low` on, end at the limit and each have a page that the
-- search can find.
abbrev pub IsMap : Structure → (limit low : ℕ) → List Region → Type 0
IsMap s limit low [] = Unit
IsMap s limit low (r ∷ rs) =
    ((r.region_type ≢ 1) × IsMap s limit low rs)
    ⊎ ((r.region_type ≡ 1)
        × (low ≤ r.start)
        × (r.start + r.size ≤ limit)
        × ((p : ℕ) × FreePage s r.start (r.start + r.size) p)
        × IsMap s limit (r.start + r.size) rs)

-- The first word of the page at `p` lies outside the addresses from `lo` up to `hi`.
abbrev pub IsOff : (lo hi p : ℕ) → Type 0
IsOff lo hi p = (p + 8 ≤ lo) ⊎ (hi ≤ p)

-- So does that of each page of an available region that is clear of every span.
abbrev pub IsSpared : Structure → (lo hi : ℕ) → List Region → Type 0
IsSpared s lo hi [] = Unit
IsSpared s lo hi (r ∷ rs) =
    (r.region_type ≡ 1
      → (p : ℕ) → p % page_size ≡ 0
      → r.start ≤ p
      → p + page_size ≤ r.start + r.size
      → IsClear s p
      → IsOff lo hi p)
    × IsSpared s lo hi rs

pub PagesOf-IsOff :
    (s : Structure) (lo hi start max from : ℕ) (ys : List ℕ)
    → ((p : ℕ) → p % page_size ≡ 0 → start ≤ p → p + page_size ≤ max → IsClear s p → IsOff lo hi p)
    → start ≤ from
    → PagesOf s from max ys
    → Each (IsOff lo hi) ys
PagesOf-IsOff s lo hi start max from [] off h p = tt
PagesOf-IsOff s lo hi start max from (y ∷ ys) off h p = (
  off y p.0 (omega (arith, p.1)) p.2 p.3,
  PagesOf-IsOff s lo hi start max (y + page_size) ys off (omega (arith, p.1)) p.5,
)

-- The pages of the regions: of an available one all that are free, of another none.
abbrev pub Listed : Structure → List Region → List ℕ → Type 0
Listed s [] ys = ys ≡ []
Listed s (r ∷ rs) ys =
    (new : List ℕ) × (later : List ℕ) × (ys ≡ new ++ later)
    × (if r.region_type == 1 then PagesOf s r.start (r.start + r.size) new else (new ≡ []))
    × Listed s rs later

pub Listed-IsUncovered :
    (s : Structure) (rs : List Region) (ys : List ℕ) → Listed s rs ys → Each (IsUncovered s) ys
Listed-IsUncovered s [] ys e = subst (Each (IsUncovered s)) (sym e) tt
Listed-IsUncovered s (r ∷ rs) ys (new, later, e, here, rest) =
    subst (Each (IsUncovered s)) (sym e) (
      Each-append (IsUncovered s) new later
        (elim (Bool-cases (r.region_type == 1)) [
          | inl one ↦ PagesOf-IsUncovered s (r.start + r.size) r.start new (rw one at here)
          | inr other ↦
              let none_new : new ≡ [] = rw other at here in
              subst (Each (IsUncovered s)) (sym none_new) tt
        ])
        (Listed-IsUncovered s rs later rest))

pub Listed-IsOff :
    (s : Structure) (lo hi : ℕ) (rs : List Region) (ys : List ℕ)
    → IsSpared s lo hi rs
    → Listed s rs ys
    → Each (IsOff lo hi) ys
Listed-IsOff s lo hi [] ys sp e = subst (Each (IsOff lo hi)) (sym e) tt
Listed-IsOff s lo hi (r ∷ rs) ys sp (new, later, e, here, rest) =
    subst (Each (IsOff lo hi)) (sym e) (
      Each-append (IsOff lo hi) new later
        (elim (Bool-cases (r.region_type == 1)) [
          | inl one ↦
              PagesOf-IsOff s lo hi r.start (r.start + r.size) r.start new (sp.0 (ground arith))
                (omega arith) (rw one at here)
          | inr other ↦
              let none_new : new ≡ [] = rw other at here in
              subst (Each (IsOff lo hi)) (sym none_new) tt
        ])
        (Listed-IsOff s lo hi rs later sp.1 rest))
