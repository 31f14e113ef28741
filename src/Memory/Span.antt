-- ===== src/Memory/Span.antt =====
-- `PRE_add_allocated_span` of src/c/memory_manager.c: what the table of regions to avoid covers.
use mathlib.Core.Path.{subst}
use implement_os.Prelude.{
  ℕ, ◌+◌, ◌^◌, ◌≤◌, ◌<◌, ◌≡◌, ◌≢◌, refl, sym, ◌∙◌, inl, inr, none, some, true, false, Bool-cases,
  arith, length, length-set, get_or, set, get_or-set_self, get_or-set_ne, leb, ◌==◌, Option,
}
use implement_os.Prelude.Words.{add64, sub64}
use implement_os.Memory.{
  Structure, avoid_region_count, page_size, span_count, span_start, span_end, take_entry,
  add_next_span, add_allocated_span,
}

-- The two arrays have their size, and no span reaches `2 ^ 63`.
pub record IsTable (s : Structure) : Type 0 where
  pub addresses : length s.allocated_addresses ≡ avoid_region_count
  pub sizes : length s.allocated_sizes ≡ avoid_region_count
  pub in_use : span_count s ≤ avoid_region_count
  pub small :
      (j : ℕ)
      → j < span_count s
      → get_or s.allocated_addresses j 0 + get_or s.allocated_sizes j 0 < 2 ^ 63

-- The byte at `x` lies in a registered span.
abbrev pub Covered : Structure → ℕ → Type 0
Covered s x = (j : ℕ) × (j < span_count s) × (span_start s j ≤ x) × (x < span_end s j)

-- what a registration is to do
pub record Registers (s s' : Structure) (address size : ℕ) : Type 0 where
  pub table : IsTable s'
  pub keeps : (x : ℕ) → Covered s x → Covered s' x
  pub covers : (x : ℕ) → address ≤ x → x < address + size → Covered s' x

-- A registration writes one entry, which grows or is new, and covers the bytes.
record Writes (s s' : Structure) (k address size : ℕ) : Type 0 where
  addresses : length s'.allocated_addresses ≡ avoid_region_count
  sizes : length s'.allocated_sizes ≡ avoid_region_count
  in_use : span_count s' ≤ avoid_region_count
  grows : span_count s ≤ span_count s'
  written : k < span_count s'
  rest : (j : ℕ) → j < span_count s' → j ≢ k → j < span_count s
  same_start : (j : ℕ) → j ≢ k → span_start s' j ≡ span_start s j
  same_size : (j : ℕ) → j ≢ k → get_or s'.allocated_sizes j 0 ≡ get_or s.allocated_sizes j 0
  small : span_start s' k + get_or s'.allocated_sizes k 0 < 2 ^ 63
  holds :
      (span_start s' k ≤ address)
      × (address + size ≤ span_start s' k + get_or s'.allocated_sizes k 0)
  extends :
      k < span_count s
      → (span_start s' k ≤ span_start s k)
        × (span_end s k ≤ span_start s' k + get_or s'.allocated_sizes k 0)

module _ {s s' : Structure} {k address size : ℕ} (t : IsTable s)
    (w : Writes s s' k address size) where
  keeps_Covered : (x : ℕ) → Covered s x → Covered s' x
  keeps_Covered x (j, h, lo, hi) = elim (Bool-cases (j == k)) [
    | inl e ↦
        let p : j ≡ k = ground arith in
        let here = w.extends (rw p at h) in
        (
          k,
          w.written,
          omega (arith, here.0, rw p at lo),
          omega (arith, here.1, rw p at hi, w.small),
        )
    | inr e ↦
        let ne : j ≢ k = ground arith in
        (
          j,
          omega (arith, w.grows),
          rw (w.same_start j ne) lo,
          rw (w.same_start j ne, w.same_size j ne) hi,
        )
  ]

  small_entries :
      (j : ℕ)
      → j < span_count s'
      → get_or s'.allocated_addresses j 0 + get_or s'.allocated_sizes j 0 < 2 ^ 63
  small_entries j h = elim (Bool-cases (j == k)) [
    | inl e ↦ let p : j ≡ k = ground arith in rw p w.small
    | inr e ↦
        let ne : j ≢ k = ground arith in
        rw (w.same_start j ne, w.same_size j ne) (t.small j (w.rest j h ne))
  ]

  Writes-Registers : Registers s s' address size
  Writes-Registers = record {
    table = record {
      addresses = w.addresses;
      sizes = w.sizes;
      in_use = w.in_use;
      small = small_entries;
    };
    keeps = keeps_Covered;
    covers = λ x lo hi. (k, w.written, omega (arith, w.holds.0), omega (arith, w.holds.1, w.small));
  }

-- Writing entry `k` of both arrays.
module _ {s : Structure} (t : IsTable s) (k a z : ℕ) (h : k < avoid_region_count) where
  entry :
      (get_or (set s.allocated_addresses k a) k 0 ≡ a)
      × (get_or (set s.allocated_sizes k z) k 0 ≡ z)
  entry = (
    get_or-set_self s.allocated_addresses k a 0 (omega (arith, t.addresses)),
    get_or-set_self s.allocated_sizes k z 0 (omega (arith, t.sizes)),
  )

  others :
      (j : ℕ)
      → j ≢ k
      → (get_or (set s.allocated_addresses k a) j 0 ≡ get_or s.allocated_addresses j 0)
        × (get_or (set s.allocated_sizes k z) j 0 ≡ get_or s.allocated_sizes j 0)
  others j ne = (
    get_or-set_ne s.allocated_addresses a 0 (λ e. ne (sym e)),
    get_or-set_ne s.allocated_sizes z 0 (λ e. ne (sym e)),
  )

registers-none :
    (s : Structure) (address size : ℕ)
    → s.current_allocated_index ≡ none
    → 0 < size
    → add_allocated_span s address size ≡ take_entry s 0 address size
unfolding add_allocated_span
registers-none s address size e pos = ground arith

registers-some :
    (s : Structure) (address size k : ℕ)
    → s.current_allocated_index ≡ some k
    → 0 < size
    → add_allocated_span s address size ≡ add_next_span s k address size
unfolding add_allocated_span
registers-some s address size k e pos = ground arith

module _ {s : Structure} (t : IsTable s) (address size : ℕ) (fits : address + size < 2 ^ 63) where
  take_entry-Writes :
      (k : ℕ)
      → span_count s ≡ k
      → k < avoid_region_count
      → Writes s (take_entry s k address size) k address size
  take_entry-Writes k e h =
      let at_k = entry t k address size h in
      record {
        addresses = length-set s.allocated_addresses k address ∙ t.addresses;
        sizes = length-set s.allocated_sizes k size ∙ t.sizes;
        in_use = omega arith;
        grows = omega arith;
        written = omega arith;
        rest = λ j hj ne. omega arith;
        same_start = λ j ne. (others t k address size h j ne).0;
        same_size = λ j ne. (others t k address size h j ne).1;
        small = omega (arith, at_k.0, at_k.1);
        holds = omega (arith, at_k.0, at_k.1);
        extends = λ old. absurd (omega arith);
      }

  -- The last span grows up to the end of the new one.
  grow-Writes :
      (k z : ℕ)
      → k < span_count s
      → span_start s k + z ≡ address + size
      → span_end s k ≤ address
      → Writes s (record s { allocated_sizes = set s.allocated_sizes k z }) k address size
  grow-Writes k z h e near =
      let inside : k < avoid_region_count = omega (arith, t.in_use) in
      let at_k = entry t k (span_start s k) z inside in
      record {
        addresses = t.addresses;
        sizes = length-set s.allocated_sizes k z ∙ t.sizes;
        in_use = t.in_use;
        grows = omega arith;
        written = h;
        rest = λ j hj ne. hj;
        same_start = λ j ne. refl;
        same_size = λ j ne. (others t k 0 z inside j ne).1;
        small = omega (arith, at_k.1);
        holds = omega (arith, at_k.1, t.small k h);
        extends = λ old. omega (arith, at_k.1, t.small k h);
      }

  -- A span that begins within a page of the last one's end needs no entry.
  near-Registers :
      (k : ℕ)
      → s.current_allocated_index ≡ some k
      → leb (sub64 address (span_end s k)) page_size ≡ true
      → Registers s (add_next_span s k address size) address size
  unfolding add_next_span
  near-Registers k e near =
      let count : span_count s ≡ k + 1 = rw e in
      let small : span_start s k + get_or s.allocated_sizes k 0 < 2 ^ 63 =
        t.small k (omega arith) in
      rw near (
        Writes-Registers t (
          grow-Writes k
            (add64 (get_or s.allocated_sizes k 0) (add64 size (sub64 address (span_end s k))))
            (omega arith) (ground arith) (ground arith)))

  next-Registers :
      (k : ℕ)
      → s.current_allocated_index ≡ some k
      → k + 1 < avoid_region_count
      → Registers s (add_next_span s k address size) address size
  unfolding add_next_span
  next-Registers k e h =
      let count : span_count s ≡ k + 1 = rw e in
      elim (Bool-cases (leb (sub64 address (span_end s k)) page_size)) [
        | inl near ↦ near-Registers k e near
        | inr far ↦
            let more : leb avoid_region_count (k + 1) ≡ false = ground arith in
            rw (far, more) (Writes-Registers t (take_entry-Writes (k + 1) count h))
      ]

  -- `add_allocated_span` of such a span
  pub add_near-Registers :
      (k : ℕ)
      → s.current_allocated_index ≡ some k
      → leb (sub64 address (span_end s k)) page_size ≡ true
      → 0 < size
      → Registers s (add_allocated_span s address size) address size
  add_near-Registers k e near pos =
      subst (λ n. Registers s n address size) (sym (registers-some s address size k e pos))
        (near-Registers k e near)

  by_index :
      (i : Option ℕ)
      → s.current_allocated_index ≡ i
      → span_count s < avoid_region_count
      → 0 < size
      → Registers s (add_allocated_span s address size) address size
  by_index none e room pos =
      subst (λ k. Registers s k address size) (sym (registers-none s address size e pos))
        (Writes-Registers t (take_entry-Writes 0 (rw e) (omega arith)))
  by_index (some k) e room pos =
      let count : span_count s ≡ k + 1 = rw e in
      subst (λ n. Registers s n address size) (sym (registers-some s address size k e pos))
        (next-Registers k e (omega arith))

  -- PRE_add_allocated_span of a span of positive size that ends below 2^63, with an entry left
  -- in the table, keeps the table's sizes and bounds, keeps every byte that was covered by a
  -- registered span covered, and covers every byte of the new span.
  pub add_allocated_span-Registers :
      span_count s < avoid_region_count
      → 0 < size
      → Registers s (add_allocated_span s address size) address size
  add_allocated_span-Registers = by_index s.current_allocated_index refl

-- A call takes one entry of the table at most, and none for a span of no bytes.
pub span_count-add :
    (s : Structure) (address size : ℕ)
    → span_count (add_allocated_span s address size) ≤ span_count s + 1
unfolding add_allocated_span add_next_span
span_count-add s address size = ground arith

pub add_allocated_span-zero : (s : Structure) (address : ℕ) → add_allocated_span s address 0 ≡ s
unfolding add_allocated_span
add_allocated_span-zero s address = refl
