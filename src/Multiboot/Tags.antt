-- ===== src/Multiboot/Tags.antt =====
-- src/c/multiboot_parser.c: the walk over the tags of the boot information.
use implement_os.Prelude.{
  ℕ, zero, suc, ◌+◌, ◌-◌, ◌%◌, ◌^◌, ◌≤◌, ◌<◌, ◌≡◌, ◌≢◌, refl, ap, ◌∙◌, List, [], ◌∷◌, length,
  Option, some, none, arith, ltb, ◌==◌, if◌then◌else◌, true, false,
}
use implement_os.Memory.{Memory}
use implement_os.Multiboot.{Registers, Parser, magic, padd_8, seen, tag_loop, parse_tag}

-- A tag, as the loader lays them out: its size counts its own eight bytes.
pub record Tag : Type 0 where
  pub tag_type : ℕ
  pub tag_size : ℕ

-- padd_8 of a number below 2^31 is a multiple of 8, at least the number and less than 8 above
-- it.
pub padd_8_bounds :
    (val : ℕ) → val < 2 ^ 31 → (padd_8 val % 8 ≡ 0) × (val ≤ padd_8 val) × (padd_8 val < val + 8)
unfolding padd_8
padd_8_bounds val h = ground arith

bind_same :
    {f g : Memory → Option Memory} (o : Option Memory)
    → ((m : Memory) → o ≡ some m → f m ≡ g m)
    → (elim o as (λ _. Option Memory) [ none ↦ none | some m ↦ f m ])
      ≡ (elim o as (λ _. Option Memory) [ none ↦ none | some m ↦ g m ])
bind_same none h = refl
bind_same (some m) h = h m refl

-- what the parser does with a tag: nothing when it is of another type
abbrev pub parsed : ℕ → Parser → (start at : ℕ) → Tag → Memory → Option Memory
parsed tag_type parser start at t m =
    if t.tag_type == tag_type then parser (t.tag_size - 8) (start + at + 8) m else some m

-- The parser is called on the contents of each tag of its type, in their order.
unfoldable pub visit : ℕ → Parser → (start at : ℕ) → List Tag → Memory → Option Memory
visit tag_type parser start at [] m = some m
visit tag_type parser start at (t ∷ ts) m = elim (parsed tag_type parser start at t m) [
  | none ↦ none
  | some m' ↦ visit tag_type parser start (at + padd_8 t.tag_size) ts m'
]

-- From `lo` up to `hi` the memory reads as `info` says.
abbrev pub Reads : (info : ℕ → ℕ) → (lo hi : ℕ) → Memory → Type 0
Reads info lo hi m = (a : ℕ) → lo ≤ a → a < hi → seen m a ≡ info a

-- No call of the parser, on these tags one after the other, changes what is read there.
abbrev pub Keeps :
    (info : ℕ → ℕ) (tag_type : ℕ) → Parser → (start end at : ℕ) → List Tag → Memory → Type 0
Keeps info tag_type parser start end at [] m = Unit
Keeps info tag_type parser start end at (t ∷ ts) m =
    (m' : Memory)
    → parsed tag_type parser start at t m ≡ some m'
    → Reads info start (start + end) m'
      × Keeps info tag_type parser start end (at + padd_8 t.tag_size) ts m'

module _ (info : ℕ → ℕ) where
  -- From `at` to `end` stand these tags, each padded to a multiple of 8, in less than 2 GiB.
  abbrev pub TagsAt : ℕ → (at end : ℕ) → List Tag → Type 0
  TagsAt start at end [] = at ≡ end
  TagsAt start at end (t ∷ ts) =
      (info (start + at) ≡ t.tag_type)
      × (info (start + at + 4) ≡ t.tag_size)
      × (8 ≤ t.tag_size)
      × (t.tag_size < 2 ^ 31)
      × (at + padd_8 t.tag_size ≤ end)
      × (end < 2 ^ 31)
      × TagsAt start (at + padd_8 t.tag_size) end ts

  tag_loop-visit :
      (fuel tag_type : ℕ) (parser : Parser) (start at end : ℕ) (ts : List Tag) (m : Memory)
      → info start ≡ end
      → 0 < at
      → Reads info start (start + end) m
      → Keeps info tag_type parser start end at ts m
      → TagsAt start at end ts
      → length ts < fuel
      → tag_loop fuel tag_type parser start at m ≡ visit tag_type parser start at ts m
  unfolding tag_loop visit
  tag_loop-visit zero tag_type parser start at end ts m total pos r keeps l h = absurd (omega arith)
  tag_loop-visit (suc fuel) tag_type parser start at end [] m total pos r keeps l h =
      let stops : ltb at (seen m start) ≡ false =
        ground (arith, r start (omega arith) (omega arith), total) in
      rw (tag_loop, stops)
  tag_loop-visit (suc fuel) tag_type parser start at end (t ∷ ts) m total pos r keeps l h =
      let (pads, big, _) = padd_8_bounds t.tag_size (omega arith) in
      let more : ltb at (seen m start) ≡ true =
        ground (arith, r start (omega arith) (omega arith), total) in
      let kind : seen m (start + at) ≡ t.tag_type =
        r (start + at) (omega arith) (omega arith) ∙ l.0 in
      let long : seen m (start + at + 4) ≡ t.tag_size =
        r (start + at + 4) (omega arith) (omega arith) ∙ l.1 in
      let size : (seen m (start + at + 4) + 2 ^ 32 - 8) % 2 ^ 32 ≡ t.tag_size - 8 =
        omega (arith, long) in
      rw (tag_loop, more, kind, size)
        (bind_same (parsed tag_type parser start at t m) (λ m' runs.
          let (r', keeps') = keeps m' runs in
          let long' : seen m' (start + at + 4) ≡ t.tag_size =
            r' (start + at + 4) (omega arith) (omega arith) ∙ l.1 in
          let next : (at + padd_8 (seen m' (start + at + 4))) % 2 ^ 32 ≡ at + padd_8 t.tag_size =
            omega (arith, ap padd_8 long') in
          ap (λ c. tag_loop fuel tag_type parser start c m') next
          ∙ tag_loop-visit fuel tag_type parser start (at + padd_8 t.tag_size) end ts m' total
              (omega arith) r' keeps' l.6 (omega arith)))

-- the same for a memory that reads as `info` says
pub parse_tag_reads :
    (fuel tag_type : ℕ) (parser : Parser) (exx : Registers) (ts : List Tag) (info : ℕ → ℕ)
    (m : Memory)
    → exx.eax ≡ magic
    → Reads info exx.ebx (exx.ebx + info exx.ebx) m
    → TagsAt info exx.ebx 8 (info exx.ebx) ts
    → Keeps info tag_type parser exx.ebx (info exx.ebx) 8 ts m
    → length ts < fuel
    → parse_tag fuel exx tag_type parser m ≡ visit tag_type parser exx.ebx 8 ts m
unfolding parse_tag
parse_tag_reads fuel tag_type parser exx ts info m e r l keeps h =
    let loaded : (exx.eax == magic) ≡ true = ground arith in
    rw loaded (
      tag_loop-visit info fuel tag_type parser exx.ebx 8 (info exx.ebx) ts m refl (omega arith) r
        keeps l h)

-- With the loader's magic number and a boot information that is a sequence of tags, each of a
-- size of at least 8 padded to a multiple of 8 and together below 2 GiB, and a parser that, on
-- these tags one after the other, leaves the boot information as it reads, parse_tag, with fuel
-- above the number of tags, calls the parser on the size without the tag's eight bytes and the
-- address of the contents of every tag of the type, in their order, and on nothing else.
pub parse_tag-visit :
    (fuel tag_type : ℕ) (parser : Parser) (exx : Registers) (ts : List Tag) (m : Memory)
    → exx.eax ≡ magic
    → TagsAt (seen m) exx.ebx 8 (seen m exx.ebx) ts
    → Keeps (seen m) tag_type parser exx.ebx (seen m exx.ebx) 8 ts m
    → length ts < fuel
    → parse_tag fuel exx tag_type parser m ≡ visit tag_type parser exx.ebx 8 ts m
parse_tag-visit fuel tag_type parser exx ts m e l keeps h =
    parse_tag_reads fuel tag_type parser exx ts (seen m) m e (λ a lo hi. refl) l keeps h

tag_loop_stays :
    (fuel tag_type : ℕ) (parser : Parser) (start at : ℕ) (m : Memory)
    → at < seen m start
    → at ≡ 8
    → seen m (start + at) ≢ tag_type
    → seen m (start + at + 4) ≡ 0
    → tag_loop fuel tag_type parser start at m ≡ none
unfolding tag_loop padd_8
tag_loop_stays zero tag_type parser start at m h small other empty = refl
tag_loop_stays (suc fuel) tag_type parser start at m h small other empty =
    let more : ltb at (seen m start) ≡ true = ground arith in
    let skipped : (seen m (start + at) == tag_type) ≡ false = ground arith in
    let pad : (at + padd_8 (seen m (start + at + 4))) % 2 ^ 32 ≡ at = ground arith in
    rw (more, skipped, pad) (tag_loop_stays fuel tag_type parser start at m h small other empty)

-- With the loader's magic number, when the first tag is of another type than the one that
-- parse_tag looks for and of size 0, parse_tag runs out of every fuel, so it never returns.
pub parse_tag-diverges :
    (fuel tag_type : ℕ) (parser : Parser) (exx : Registers) (m : Memory)
    → exx.eax ≡ magic
    → 8 < seen m exx.ebx
    → seen m (exx.ebx + 8) ≢ tag_type
    → seen m (exx.ebx + 8 + 4) ≡ 0
    → parse_tag fuel exx tag_type parser m ≡ none
unfolding parse_tag
parse_tag-diverges fuel tag_type parser exx m e some_tag other empty =
    let loaded : (exx.eax == magic) ≡ true = ground arith in
    rw loaded (tag_loop_stays fuel tag_type parser exx.ebx 8 m some_tag refl other empty)
