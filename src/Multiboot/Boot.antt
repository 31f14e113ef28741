-- ===== src/Multiboot/Boot.antt =====
-- src/c/multiboot_parser.c: `MUL_parse`, the kernel's sections first and then the memory map.
use mathlib.Core.Option.{some-injective}
use mathlib.Core.Path.{subst}
use implement_os.Prelude.{
  ℕ, ◌+◌, ◌-◌, ◌*◌, ◌%◌, ◌^◌, ◌≤◌, ◌<◌, ◌≡◌, ◌≢◌, refl, sym, ap, ◌∙◌, arith, ◌⊎◌, inl, inr, true,
  false, Bool-cases, some, List, [], ◌∷◌, length, leb, ◌==◌,
}
use implement_os.Memory.{Memory, Structure, page_size}
use implement_os.Memory.FreeList.{Fresh, Linked, EndsAt, IsFreeList}
use implement_os.Memory.Search.{IsBounded}
use implement_os.Memory.Span.{IsTable, Covered}
use implement_os.Memory.Pages.{Each, IsUncovered}
use implement_os.Multiboot.{
  Registers, Parser, magic, padd_8, word32, seen, parse_elf, parse_mem_map, parse_tag, parse,
}
use implement_os.Multiboot.Tags.{Tag, TagsAt, Reads, Keeps, visit, padd_8_bounds, parse_tag_reads}
use implement_os.Multiboot.Sections.{section_start, section_size, HasRoom, Avoids, parse_elf-Avoids}
use implement_os.Multiboot.Map.{
  Region, IsMap, IsOff, IsSpared, Listed, Listed-IsUncovered, Listed-IsOff,
}
use implement_os.Multiboot.MapLoop.{RegionsAt, Reads-kept, parse_mem_map-Filled}

-- no tag of the type
abbrev pub Lacks : (tag_type : ℕ) → List Tag → Type 0
Lacks tag_type [] = Unit
Lacks tag_type (t ∷ ts) = (t.tag_type ≢ tag_type) × Lacks tag_type ts

-- Among the tags from `at` on the only one of the type stands at `pos` and has this size.
abbrev pub IsOnly : (tag_type pos size at : ℕ) → List Tag → Type 0
IsOnly tag_type pos size at [] = ⊥
IsOnly tag_type pos size at (t ∷ ts) =
    ((t.tag_type ≡ tag_type) × (at ≡ pos) × (t.tag_size ≡ size) × Lacks tag_type ts)
    ⊎ ((t.tag_type ≢ tag_type) × IsOnly tag_type pos size (at + padd_8 t.tag_size) ts)

module _ (tag_type : ℕ) (parser : Parser) (start : ℕ) where
  visit-Lacks :
      (at : ℕ) (ts : List Tag) (m : Memory)
      → Lacks tag_type ts
      → visit tag_type parser start at ts m ≡ some m
  unfolding visit
  visit-Lacks at [] m l = refl
  visit-Lacks at (t ∷ ts) m (ne, l) =
      let other : (t.tag_type == tag_type) ≡ false = ground arith in
      rw (visit, other) (visit-Lacks (at + padd_8 t.tag_size) ts m l)

  -- The parser is called on the only tag of its type.
  visit-IsOnly :
      (pos size at : ℕ) (ts : List Tag) (m m' : Memory)
      → IsOnly tag_type pos size at ts
      → parser (size - 8) (start + pos + 8) m ≡ some m'
      → visit tag_type parser start at ts m ≡ some m'
  unfolding visit
  visit-IsOnly pos size at [] m m' is runs = elim is [ ]
  visit-IsOnly pos size at (t ∷ ts) m m' (inl (e, p, s, l)) runs =
      let here : (t.tag_type == tag_type) ≡ true = ground arith in
      rw (visit, here, s, p, runs) (visit-Lacks (at + padd_8 t.tag_size) ts m' l)
  visit-IsOnly pos size at (t ∷ ts) m m' (inr (ne, o)) runs =
      let other : (t.tag_type == tag_type) ≡ false = ground arith in
      rw (visit, other) (visit-IsOnly pos size (at + padd_8 t.tag_size) ts m m' o runs)

-- Without a tag of the type, or with only one, what is read is kept when it is kept by the parser on
-- that tag.
module _ (info : ℕ → ℕ) (tag_type : ℕ) (parser : Parser) (start end : ℕ) where
  Keeps-Lacks :
      (at : ℕ) (ts : List Tag) (m : Memory)
      → Lacks tag_type ts
      → Reads info start (start + end) m
      → Keeps info tag_type parser start end at ts m
  Keeps-Lacks at [] m l r = tt
  Keeps-Lacks at (t ∷ ts) m (ne, l) r = λ m' runs.
      let other : (t.tag_type == tag_type) ≡ false = ground arith in
      let same : m ≡ m' = some-injective _ _ (rw other at runs) in
      let r' : Reads info start (start + end) m' = subst (Reads info start (start + end)) same r in
      (r', Keeps-Lacks (at + padd_8 t.tag_size) ts m' l r')

  Keeps-IsOnly :
      (pos size at : ℕ) (ts : List Tag) (m : Memory)
      → IsOnly tag_type pos size at ts
      → Reads info start (start + end) m
      → ((m' : Memory)
          → parser (size - 8) (start + pos + 8) m ≡ some m'
          → Reads info start (start + end) m')
      → Keeps info tag_type parser start end at ts m
  Keeps-IsOnly pos size at [] m is r keeps = elim is [ ]
  Keeps-IsOnly pos size at (t ∷ ts) m (inl (e, p, s, l)) r keeps = λ m' runs.
      let here : (t.tag_type == tag_type) ≡ true = ground arith in
      let r' = keeps m' (rw (here, p, s) at runs) in
      (r', Keeps-Lacks (at + padd_8 t.tag_size) ts m' l r')
  Keeps-IsOnly pos size at (t ∷ ts) m (inr (ne, o)) r keeps = λ m' runs.
      let other : (t.tag_type == tag_type) ≡ false = ground arith in
      let same : m ≡ m' = some-injective _ _ (rw other at runs) in
      let r' : Reads info start (start + end) m' = subst (Reads info start (start + end)) same r in
      (
        r',
        Keeps-IsOnly pos size (at + padd_8 t.tag_size) ts m' o r' (λ m2 runs2.
            keeps m2
              (subst (λ k. parser (size - 8) (start + pos + 8) k ≡ some m2) (sym same) runs2)),
      )

-- A tag's contents end with the tags.
IsOnly-within :
    (info : ℕ → ℕ) (start tag_type pos size at end : ℕ) (ts : List Tag)
    → IsOnly tag_type pos size at ts
    → TagsAt info start at end ts
    → (pos + size ≤ end)
IsOnly-within info start tag_type pos size at end [] is l = elim is [ ]
IsOnly-within info start tag_type pos size at end (t ∷ ts) (inl (e, p, s, _)) l =
    let (_, big, _) = padd_8_bounds t.tag_size l.3 in omega (arith, l.4)
IsOnly-within info start tag_type pos size at end (t ∷ ts) (inr (ne, o)) l =
    IsOnly-within info start tag_type pos size (at + padd_8 t.tag_size) end ts o l.6

IsFreeList-kept :
    {m m' : Memory} (pages : List ℕ)
    → m'.free_pages ≡ m.free_pages
    → m'.words ≡ m.words
    → IsFreeList m pages
    → IsFreeList m' pages
IsFreeList-kept {m} {m'} pages f w l = record {
  linked =
      subst (λ g. Linked m'.words g.page_head pages 0) (sym f)
        (subst (λ v. Linked v m.free_pages.page_head pages 0) (sym w) l.linked);
  ends = subst (λ g. EndsAt pages g.page_tail) (sym f) l.ends;
  distinct = l.distinct;
  count = ap (λ g. g.count) f ∙ l.count;
  small = l.small;
}

-- A boot information of these tags, with the sections in the one at `elf` and these regions of
-- memory in the one at `map`, for a kernel with no page on its list.
pub record IsBoot (fuel limit elf elf_size map : ℕ) (exx : Registers) (ts : List Tag)
    (rs : List Region) (m : Memory) : Type 0 where
  pub loaded : exx.eax ≡ magic
  pub aligned : exx.ebx % 8 ≡ 0
  pub tags : TagsAt (seen m) exx.ebx 8 (seen m exx.ebx) ts
  pub rounds : length ts < fuel
  pub sections_tag : IsOnly 9 elf elf_size 8 ts
  pub map_tag : IsOnly 6 map (16 + 24 * length rs) 8 ts
  pub headers : seen m (exx.ebx + elf + 8 + 4) ≡ 64
  pub entries : (seen m (exx.ebx + map + 8) ≡ 24) × (seen m (exx.ebx + map + 8 + 4) ≡ 0)
  pub regions : RegionsAt (seen m) (exx.ebx + map + 8 + 8) rs
  pub few : (length rs < fuel) × (24 * length rs + 32 < 2 ^ 32)
  pub table : IsTable m.structure
  pub no_pages : IsFreeList m []
  pub room : HasRoom (seen m) (seen m (exx.ebx + elf + 8)) (exx.ebx + elf + 8 + 12) m.structure
  pub low_sections :
      (i : ℕ)
      → i < seen m (exx.ebx + elf + 8)
      → section_start (seen m) (exx.ebx + elf + 8 + 12) i
          + section_size (seen m) (exx.ebx + elf + 8 + 12) i
        < 2 ^ 63
  pub small : limit ≤ 2 ^ 43
  pub enough : limit + page_size < page_size * fuel

-- no byte of the `n` sections whose headers are at `ptr` lies in the page at `y`
abbrev pub IsOutside : (info : ℕ → ℕ) (ptr n y : ℕ) → Type 0
IsOutside info ptr n y =
    (i x : ℕ)
    → i < n
    → section_start info ptr i ≤ x
    → x < section_start info ptr i + section_size info ptr i
    → (x < y) ⊎ (y + page_size ≤ x)

Each-IsOutside :
    (info : ℕ → ℕ) (ptr n : ℕ) (s s' : Structure) (ys : List ℕ)
    → Avoids info s s' ptr n
    → Each (IsUncovered s') ys
    → Each (IsOutside info ptr n) ys
Each-IsOutside info ptr n s s' [] a e = tt
Each-IsOutside info ptr n s s' (y ∷ ys) a (here, rest) = (
  (λ i x h lo hi. outside x (a.covers i x h lo hi) here),
  Each-IsOutside info ptr n s s' ys a rest,
)
  where
    outside : (x : ℕ) → Covered s' x → IsUncovered s' y → (x < y) ⊎ (y + page_size ≤ x)
    outside x c un = elim (Bool-cases (leb y x)) [
      | inr below ↦ inl (ground arith)
      | inl from ↦ elim (Bool-cases (leb (y + page_size) x)) [
        | inl beyond ↦ inr (ground arith)
        | inr within ↦ elim (un x (ground arith) (ground arith) c) [ ]
      ]
    ]

parse_runs :
    (fuel : ℕ) (exx : Registers) (m m1 m2 : Memory)
    → parse_tag fuel exx 9 parse_elf m ≡ some m1
    → parse_tag fuel exx 6 (parse_mem_map fuel) m1 ≡ some m2
    → parse fuel exx m ≡ some m2
unfolding parse
parse_runs fuel exx m m1 m2 e f = rw (parse, e, f)

-- The same words are read alike.
Reads-words :
    (info : ℕ → ℕ) (lo hi : ℕ) (m m' : Memory)
    → m'.words ≡ m.words
    → Reads info lo hi m
    → Reads info lo hi m'
Reads-words info lo hi m m' e r a from to = ap (λ w. word32 w a) e ∙ r a from to

-- no page that the map gives begins in the boot information, which is read while they are listed
abbrev pub IsSparing : (sections : Memory) → (exx : Registers) → (size : ℕ) → List Region → Type 0
IsSparing sections exx size rs = IsSpared sections.structure exx.ebx (exx.ebx + size) rs

module _ {fuel limit elf elf_size map : ℕ} {exx : Registers} {ts : List Tag} {rs : List Region}
    {m : Memory} (b : IsBoot fuel limit elf elf_size map exx ts rs m) where
  -- MUL_parse with the loader's magic number, a sequence of tags with one of 64-byte section
  -- headers and one memory map of 24-byte entries, no page on the free list, and fuel above the
  -- numbers of tags, of entries and of pages up to the limit, ends. The free list then holds,
  -- for each available region in their order, its page-aligned pages in ascending order that
  -- are clear of the spans that parse_elf registered, with no page left out in which the code
  -- finds no span; no byte of any section lies in a listed page, and no word outside the listed
  -- pages' first ones changes. The boot information is read from the same memory that the links
  -- are written to; it holds when it stands at an address that 8 divides and no page of an
  -- available region that is clear of every span begins in it, each section is empty, finds an
  -- entry left in the table of regions or begins within a page of the last span, each section
  -- ends below 2^63, the spans end below a page-aligned limit of at most 2^43 and off page
  -- boundaries, and the available regions ascend, end at or below the limit and each have a
  -- page in which the code finds no span.
  pub parse_lem :
      (sections : Memory)
      → parse_elf (elf_size - 8) (exx.ebx + elf + 8) m ≡ some sections
      → IsBounded sections.structure limit
      → IsMap sections.structure limit 0 rs
      → IsSparing sections exx (seen m exx.ebx) rs
      → (m' : Memory) × (ys : List ℕ) × (parse fuel exx m ≡ some m')
        × IsFreeList m' ys
        × Listed sections.structure rs ys
        × (m'.structure ≡ sections.structure)
        × Each (IsOutside (seen m) (exx.ebx + elf + 8 + 12) (seen m (exx.ebx + elf + 8))) ys
        × ((a : ℕ) → Fresh a ys → m'.words a ≡ m.words a)
  parse_lem sections same_runs bounds fits sparing =
      let info = seen m in
      let end = info exx.ebx in
      let (m1, elf_runs, avoids, pages, words) =
        parse_elf-Avoids (elf_size - 8) (exx.ebx + elf + 8) m b.headers b.table b.room
          b.low_sections in
      let one : sections ≡ m1 = some-injective _ _ (sym same_runs ∙ elf_runs) in
      let here : Reads info exx.ebx (exx.ebx + end) m = λ a from to. refl in
      let here1 : Reads info exx.ebx (exx.ebx + end) m1 =
        Reads-words info exx.ebx (exx.ebx + end) m m1 words here in
      let within =
        IsOnly-within info exx.ebx 6 map (16 + 24 * length rs) 8 end ts b.map_tag b.tags in
      let (m2, ys, map_runs, list, listed, same, kept) =
        parse_mem_map-Filled info fuel limit 0 (exx.ebx + map + 8) exx.ebx (exx.ebx + end) rs m1 []
          (record { aligned = b.aligned; reads = here1; off = tt }) (omega arith)
          (omega (arith, within))
          (subst (λ k. IsSpared k.structure exx.ebx (exx.ebx + end) rs) one sparing) b.entries.0
          b.entries.1 b.regions b.few.0 b.few.1
          (record {
            spans = subst (λ k. IsBounded k.structure limit) one bounds;
            list = IsFreeList-kept [] pages words b.no_pages;
            below = tt;
            count = omega arith;
            inside = omega arith;
            small = b.small;
            enough = b.enough;
          })
          (subst (λ k. IsMap k.structure limit 0 rs) one fits) in
      let runs6 : parse_mem_map fuel (16 + 24 * length rs - 8) (exx.ebx + map + 8) m1 ≡ some m2 =
        ap (λ k. parse_mem_map fuel k (exx.ebx + map + 8) m1) (omega arith) ∙ map_runs in
      let off : Each (IsOff exx.ebx (exx.ebx + end)) ys =
        Listed-IsOff m1.structure exx.ebx (exx.ebx + end) rs ys
          (subst (λ k. IsSpared k.structure exx.ebx (exx.ebx + end) rs) one sparing) listed in
      let here2 : Reads info exx.ebx (exx.ebx + end) m2 =
        Reads-kept info exx.ebx (exx.ebx + end) ys m1 m2 b.aligned off kept here1 in
      (
        m2,
        ys,
        parse_runs fuel exx m m1 m2
            (parse_tag_reads fuel 9 parse_elf exx ts info m b.loaded here b.tags
                (Keeps-IsOnly info 9 parse_elf exx.ebx end elf elf_size 8 ts m b.sections_tag here
                  (λ m' runs.
                    subst (Reads info exx.ebx (exx.ebx + end))
                      (some-injective _ _ (sym elf_runs ∙ runs)) here1))
                b.rounds
              ∙ visit-IsOnly 9 parse_elf exx.ebx elf elf_size 8 ts m m1 b.sections_tag elf_runs)
            (parse_tag_reads fuel 6 (parse_mem_map fuel) exx ts info m1 b.loaded here1 b.tags
                (Keeps-IsOnly info 6 (parse_mem_map fuel) exx.ebx end map (16 + 24 * length rs) 8 ts
                  m1 b.map_tag here1
                  (λ m' runs.
                    subst (Reads info exx.ebx (exx.ebx + end))
                      (some-injective _ _ (sym runs6 ∙ runs)) here2))
                b.rounds
              ∙ visit-IsOnly 6 (parse_mem_map fuel) exx.ebx map (16 + 24 * length rs) 8 ts m1 m2
                  b.map_tag runs6),
        list,
        subst (λ (k : Memory). Listed k.structure rs ys) (sym one) listed,
        same ∙ ap (λ (k : Memory). k.structure) (sym one),
        Each-IsOutside info (exx.ebx + elf + 8 + 12) (info (exx.ebx + elf + 8)) m.structure
            m1.structure ys avoids (Listed-IsUncovered m1.structure rs ys listed),
        (λ a f. kept a f ∙ ap (λ w. w a) words),
      )
