-- ===== src/Multiboot/MapLoop.antt =====
-- src/c/multiboot_parser.c: the loop of `parse_mem_map` over the entries of the map.
use mathlib.Core.Path.{subst}
use mathlib.Core.List.{append_assoc, append-nil}
use implement_os.Prelude.{
  ℕ, zero, suc, ◌+◌, ◌*◌, ◌%◌, ◌^◌, ◌-◌, ◌≤◌, ◌<◌, ◌≡◌, refl, sym, ap, ◌∙◌, arith, inl, inr, true,
  false, some, Option, List, [], ◌∷◌, ◌++◌, length, ltb, ◌==◌,
}
use implement_os.Memory.{Memory, add_address_space}
use implement_os.Memory.FreeList.{Fresh, Fresh-left, IsFreeList}
use implement_os.Memory.Pages.{Each, Each-append}
use implement_os.Multiboot.{word32, word64, seen, map_loop, parse_mem_map}
use implement_os.Multiboot.Tags.{Reads}
use implement_os.Multiboot.Map.{
  Region, IsBefore, IsMap, IsOff, IsSpared, PagesOf-IsOff, Listed, add_region,
}

-- what the loop is to leave
abbrev pub Filled : Memory → List Region → List ℕ → Option Memory → Type 0
Filled m rs pages out =
    (m' : Memory) × (ys : List ℕ) × (out ≡ some m')
    × IsFreeList m' (pages ++ ys)
    × Listed m.structure rs ys
    × (m'.structure ≡ m.structure)
    × ((a : ℕ) → Fresh a (pages ++ ys) → m'.words a ≡ m.words a)

-- Words elsewhere leave what is read between the bounds.
pub Reads-kept :
    (info : ℕ → ℕ) (lo hi : ℕ) (pages : List ℕ) (m m' : Memory)
    → lo % 8 ≡ 0
    → Each (IsOff lo hi) pages
    → ((a : ℕ) → Fresh a pages → m'.words a ≡ m.words a)
    → Reads info lo hi m
    → Reads info lo hi m'
unfolding word32
Reads-kept info lo hi pages m m' al off kept r a ge lt =
    let whole : m'.words a ≡ m.words a = kept a (Fresh-off a pages off ge lt) in
    let half : m'.words (a - a % 8) ≡ m.words (a - a % 8) =
      kept (a - a % 8) (Fresh-off (a - a % 8) pages off (omega arith) (omega arith)) in
    rw (whole, half) (r a ge lt)
  where
    Fresh-off : (b : ℕ) (ys : List ℕ) → Each (IsOff lo hi) ys → lo ≤ b → b < hi → Fresh b ys
    Fresh-off b [] o h k = tt
    Fresh-off b (y ∷ ys) o h k = ((λ e. ground (arith, o.0)), Fresh-off b ys o.1 h k)

module _ (info : ℕ → ℕ) where
  -- At `ptr` stand the entries of these regions.
  abbrev pub RegionsAt : ℕ → List Region → Type 0
  RegionsAt ptr [] = Unit
  RegionsAt ptr (r ∷ rs) =
      (word64 info ptr ≡ r.start)
      × (word64 info (ptr + 8) ≡ r.size)
      × (info (ptr + 16) ≡ r.region_type)
      × RegionsAt (ptr + 24) rs

  -- what the entries' addresses are read from: a part of the memory that is spared
  pub record IsReadable (lo hi : ℕ) (m : Memory) (pages : List ℕ) : Type 0 where
    pub aligned : lo % 8 ≡ 0
    pub reads : Reads info lo hi m
    pub off : Each (IsOff lo hi) pages

  map_loop-done :
      (fuel search size consumed_bytes ptr : ℕ) (m : Memory)
      → ltb consumed_bytes size ≡ false
      → map_loop (suc fuel) search size consumed_bytes ptr m ≡ some m
  unfolding map_loop
  map_loop-done fuel search size consumed_bytes ptr m e = rw e

  map_loop-skips :
      (fuel search size consumed_bytes ptr : ℕ) (m : Memory)
      → ltb consumed_bytes size ≡ true
      → (seen m (ptr + 16) == 1) ≡ false
      → consumed_bytes + 24 < 2 ^ 32
      → map_loop (suc fuel) search size consumed_bytes ptr m
        ≡ map_loop fuel search size (consumed_bytes + 24) (ptr + 24) m
  unfolding map_loop
  map_loop-skips fuel search size consumed_bytes ptr m e f h =
      rw (e, f) (ap (λ c. map_loop fuel search size c (ptr + 24) m) (omega arith))

  map_loop-adds :
      (fuel search size consumed_bytes ptr : ℕ) (r : Region) (m m' : Memory)
      → ltb consumed_bytes size ≡ true
      → (word64 (seen m) ptr ≡ r.start)
        × (word64 (seen m) (ptr + 8) ≡ r.size)
        × (seen m (ptr + 16) ≡ r.region_type)
      → (r.region_type == 1) ≡ true
      → consumed_bytes + 24 < 2 ^ 32
      → add_address_space search r.start r.size m ≡ some m'
      → map_loop (suc fuel) search size consumed_bytes ptr m
        ≡ map_loop fuel search size (consumed_bytes + 24) (ptr + 24) m'
  unfolding map_loop
  map_loop-adds fuel search size consumed_bytes ptr r m m' e at one h runs =
      let wide : (consumed_bytes + 24) % 2 ^ 32 ≡ consumed_bytes + 24 = omega arith in
      rw (e, at.0, at.1, at.2, one, runs, wide)

  -- an entry as the memory has it
  entry_at :
      {lo hi ptr : ℕ} {r : Region} (rs : List Region) (m : Memory)
      → Reads info lo hi m
      → RegionsAt ptr (r ∷ rs)
      → lo ≤ ptr
      → ptr + 24 ≤ hi
      → (word64 (seen m) ptr ≡ r.start)
        × (word64 (seen m) (ptr + 8) ≡ r.size)
        × (seen m (ptr + 16) ≡ r.region_type)
  entry_at {ptr = ptr} rs m reads at from to = (
    omega (arith, reads ptr from (omega arith), reads (ptr + 4) (omega arith) (omega arith), at.0),
    omega (
      arith,
      reads (ptr + 8) (omega arith) (omega arith),
      reads (ptr + 8 + 4) (omega arith) (omega arith),
      at.1,
    ),
    reads (ptr + 16) (omega arith) (omega arith) ∙ at.2,
  )

  map_loop_lem :
      (fuel search size consumed_bytes ptr limit low lo hi : ℕ) (rs : List Region) (m : Memory)
      (pages : List ℕ)
      → IsReadable lo hi m pages
      → lo ≤ ptr
      → ptr + 24 * length rs ≤ hi
      → IsSpared m.structure lo hi rs
      → RegionsAt ptr rs
      → size ≡ consumed_bytes + 24 * length rs
      → size + 24 < 2 ^ 32
      → length rs < fuel
      → IsBefore m limit low search pages
      → IsMap m.structure limit low rs
      → Filled m rs pages (map_loop fuel search size consumed_bytes ptr m)
  map_loop_lem zero search size consumed_bytes ptr limit low lo hi rs m pages rd from to spared at e
        h f b is =
      absurd (omega arith)
  map_loop_lem (suc fuel) search size consumed_bytes ptr limit low lo hi [] m pages rd from to
        spared at e h f b is =
      (
        m,
        [],
        map_loop-done fuel search size consumed_bytes ptr m (ground arith),
        subst (IsFreeList m) (sym (append-nil pages)) b.list,
        refl,
        refl,
        (λ a f. refl),
      )
  map_loop_lem (suc fuel) search size consumed_bytes ptr limit low lo hi (r ∷ rs) m pages rd from to
        spared at e h f b (inl (other, is)) =
      let skip : (r.region_type == 1) ≡ false = ground arith in
      let kind : seen m (ptr + 16) ≡ r.region_type =
        rd.reads (ptr + 16) (omega arith) (omega arith) ∙ at.2 in
      let (m', ys, runs, list, listed, same, kept') =
        map_loop_lem fuel search size (consumed_bytes + 24) (ptr + 24) limit low lo hi rs m pages rd
          (omega arith) (omega arith) spared.1 at.3 (omega arith) h (omega arith) b is in
      (
        m',
        ys,
        map_loop-skips fuel search size consumed_bytes ptr m (ground arith) (rw kind skip)
              (omega arith)
            ∙ runs,
        list,
        ([], ys, refl, rw skip, listed),
        same,
        kept',
      )
  map_loop_lem (suc fuel) search size consumed_bytes ptr limit low lo hi (r ∷ rs) m pages rd from to
        spared at e h f b (inr (one, above, inside, (p, free), is)) =
      let add : (r.region_type == 1) ≡ true = ground arith in
      let (m1, new, adds, b', pages', kept, before) =
        add_region r.start r.size p b above inside free in
      let off : Each (IsOff lo hi) (pages ++ new) = Each-append (IsOff lo hi) pages new rd.off (
        PagesOf-IsOff m.structure lo hi r.start (r.start + r.size) r.start new (spared.0 one)
          (omega arith) pages') in
      let (m', ys, runs, list, listed, same, kept') =
        map_loop_lem fuel search size (consumed_bytes + 24) (ptr + 24) limit (r.start + r.size) lo
          hi rs m1 (pages ++ new)
          (record {
            aligned = rd.aligned;
            reads = Reads-kept info lo hi (pages ++ new) m m1 rd.aligned off before rd.reads;
            off = off;
          })
          (omega arith) (omega arith) (subst (λ s. IsSpared s lo hi rs) (sym kept) spared.1) at.3
          (omega arith) h (omega arith) b'
          (subst (λ s. IsMap s limit (r.start + r.size) rs) (sym kept) is) in
      (
        m',
        new ++ ys,
        map_loop-adds fuel search size consumed_bytes ptr r m m1 (ground arith)
              (entry_at rs m rd.reads at from (omega arith)) add (omega arith) adds
            ∙ runs,
        subst (IsFreeList m') (append_assoc pages new ys) list,
        (new, ys, refl, rw add pages', subst (λ s. Listed s rs ys) kept listed),
        same ∙ kept,
        (λ a f.
            let f' : Fresh a ((pages ++ new) ++ ys) =
              subst (Fresh a) (sym (append_assoc pages new ys)) f in
            kept' a f' ∙ before a (Fresh-left a (pages ++ new) ys f')),
      )

  -- parse_mem_map of a map of 24-byte entries, off which the pages lie that it lists, lists the pages
  -- of its available regions.
  pub parse_mem_map-Filled :
      (fuel limit low ptr lo hi : ℕ) (rs : List Region) (m : Memory) (pages : List ℕ)
      → IsReadable lo hi m pages
      → lo ≤ ptr
      → ptr + 8 + 24 * length rs ≤ hi
      → IsSpared m.structure lo hi rs
      → info ptr ≡ 24
      → info (ptr + 4) ≡ 0
      → RegionsAt (ptr + 8) rs
      → length rs < fuel
      → 24 * length rs + 32 < 2 ^ 32
      → IsBefore m limit low fuel pages
      → IsMap m.structure limit low rs
      → Filled m rs pages (parse_mem_map fuel (8 + 24 * length rs) ptr m)
  unfolding parse_mem_map
  parse_mem_map-Filled fuel limit low ptr lo hi rs m pages rd from to spared e v at f h b is =
      let size : seen m ptr ≡ 24 = rd.reads ptr from (omega arith) ∙ e in
      let version : seen m (ptr + 4) ≡ 0 = rd.reads (ptr + 4) (omega arith) (omega arith) ∙ v in
      rw (size, version)
        (map_loop_lem fuel fuel (8 + 24 * length rs) 8 (ptr + 8) limit low lo hi rs m pages rd
          (omega arith) to spared at refl (omega arith) f b is)
