-- ===== src/Memory/Search.antt =====
-- `find_free_page` of src/c/memory_manager.c: the page that it finds, that it finds one, and the
-- spans on which it never returns.
use implement_os.Prelude.{
  ℕ, zero, suc, ◌+◌, ◌*◌, ◌%◌, ◌^◌, ◌≤◌, ◌<◌, ◌≡◌, ◌≢◌, ◌⊎◌, inl, inr, refl, ◌∙◌, true, false, some,
  arith, ◌==◌, if◌then◌else◌, Bool-cases,
}
use implement_os.Memory.{
  Structure, page_size, span_count, span_start, span_end, overlaps, ok_loop, ok_address,
  align_page_size, find_free_page,
}

-- Every span ends below the limit, and none ends on a page boundary.
pub record IsBounded (s : Structure) (limit : ℕ) : Type 0 where
  pub aligned : limit % page_size ≡ 0
  pub small : limit ≤ 2 ^ 63
  pub ends : (j : ℕ) → j < span_count s → span_end s j < limit
  pub loose : (j : ℕ) → j < span_count s → span_end s j % page_size ≢ 0

-- No byte of the page at `a` lies in a span.
abbrev pub IsClear : Structure → ℕ → Type 0
IsClear s a =
    (j x : ℕ) → j < span_count s → a ≤ x → x < a + page_size → span_start s j ≤ x → span_end s j ≤ x

-- The code finds that no span meets the page at `a`, which it does for a clear page but those
-- that a span ends or begins right beside.
abbrev pub IsFree : Structure → ℕ → Type 0
IsFree s a = (j : ℕ) → j < span_count s → overlaps s a j ≡ false

-- what the search is to find from `start` on
pub record Found (s : Structure) (limit start r : ℕ) : Type 0 where
  pub aligned : r % page_size ≡ 0
  pub positive : 0 < r
  pub above : start ≤ r
  pub within : r ≤ limit
  pub clear : IsClear s r
  pub least : (p : ℕ) → p % page_size ≡ 0 → 0 < p → start ≤ p → p ≤ limit → IsFree s p → r ≤ p

-- the first entry that the loop meets, if it meets one
Hit : Structure → ℕ → ℕ → ℕ → Type 0
Hit s a n i = (j : ℕ) × (j < i + n) × (overlaps s a j ≡ true) × (ok_loop s a n i ≡ span_end s j)

Miss : Structure → ℕ → ℕ → ℕ → Type 0
Miss s a n i = (ok_loop s a n i ≡ 0) × ((j : ℕ) → i ≤ j → j < i + n → overlaps s a j ≡ false)

ok_loop_cases : (s : Structure) (a n i : ℕ) → Hit s a n i ⊎ Miss s a n i
unfolding ok_loop Hit Miss
ok_loop_cases s a zero i = inr (refl, λ j lo hi. absurd (omega arith))
ok_loop_cases s a (suc n) i = elim (Bool-cases (overlaps s a i)) [
  | inl e ↦ inl (i, omega arith, e, rw e)
  | inr e ↦ elim (ok_loop_cases s a n (i + 1)) [
    | inl (j, hi, o, eq) ↦ inl (j, omega arith, o, rw e eq)
    | inr (z, no_hit) ↦ inr (
      rw e z,
      λ j lo hi. elim (Bool-cases (i == j)) [
        | inl same ↦ let p : i ≡ j = ground arith in rw p at e
        | inr other ↦ no_hit j (ground arith) (omega arith)
      ],
    )
  ]
]

pub ok_address_cases :
    (s : Structure) (a : ℕ)
    → ((j : ℕ) × (j < span_count s) × (overlaps s a j ≡ true) × (ok_address s a ≡ span_end s j))
      ⊎ ((ok_address s a ≡ 0) × ((j : ℕ) → j < span_count s → overlaps s a j ≡ false))
unfolding ok_address Hit Miss
ok_address_cases s a = elim (ok_loop_cases s a (span_count s) 0) [
  | inl (j, hi, o, e) ↦ inl (j, omega arith, o, e)
  | inr (z, none_hit) ↦ inr (z, λ j hi. none_hit j (omega arith) (omega arith))
]

abbrev pub candidate : ℕ → ℕ
candidate start = align_page_size (if start == 0 then start + 1 else start)

pub find-hit :
    (fuel : ℕ) (s : Structure) (start e : ℕ)
    → ok_address s (candidate start) ≡ e
    → e ≢ 0
    → find_free_page (suc fuel) s start ≡ find_free_page fuel s (align_page_size e)
unfolding find_free_page
find-hit fuel s start e h ne = let again : (e == 0) ≡ false = ground arith in rw (h, again)

find-miss :
    (fuel : ℕ) (s : Structure) (start : ℕ)
    → ok_address s (candidate start) ≡ 0
    → find_free_page (suc fuel) s start ≡ some (candidate start)
unfolding find_free_page
find-miss fuel s start h = rw h

module _ {s : Structure} {limit : ℕ} (b : IsBounded s limit) where
  clear_of_miss :
      (a : ℕ) → a ≤ limit → ((j : ℕ) → j < span_count s → overlaps s a j ≡ false) → IsClear s a
  clear_of_miss a h miss j x hj lo hi st = ground (arith, miss j hj, b.small)

  pub align_lem :
      (v : ℕ)
      → v ≤ limit
      → (align_page_size v % page_size ≡ 0)
        × (v ≤ align_page_size v)
        × (align_page_size v ≤ limit)
        × (v % page_size ≡ 0 → align_page_size v ≡ v)
  unfolding align_page_size
  align_lem v h = ground (arith, b.aligned, b.small)

  -- the page that is tried first
  candidate_lem :
      (start : ℕ)
      → start ≤ limit
      → 0 < limit
      → let a = candidate start in (a % page_size ≡ 0) × (0 < a) × (start ≤ a) × (a ≤ limit)
  candidate_lem start h pos = ground (arith, align_lem (if start == 0 then start + 1 else start))

  candidate-least :
      (start p : ℕ)
      → start ≤ limit
      → p % page_size ≡ 0
      → 0 < p
      → start ≤ p
      → p ≤ limit
      → candidate start ≤ p
  unfolding align_page_size
  candidate-least start p hs al po st le = ground (arith, b.aligned, b.small)

  pub align-least : (e p : ℕ) → p % page_size ≡ 0 → e ≤ p → p ≤ limit → align_page_size e ≤ p
  unfolding align_page_size
  align-least e p al lt le = ground (arith, b.small)

  overlaps-behind :
      (a p j : ℕ)
      → a ≤ p
      → p ≤ limit
      → overlaps s a j ≡ true
      → overlaps s p j ≡ false
      → span_end s j < p
  overlaps-behind a p j h le o apart = ground (arith, b.small)

  -- A span that meets the page that is tried ends before every free page behind.
  passed :
      (start p j : ℕ)
      → start ≤ limit
      → p % page_size ≡ 0
      → 0 < p
      → start ≤ p
      → p ≤ limit
      → overlaps s (candidate start) j ≡ true
      → j < span_count s
      → IsFree s p
      → align_page_size (span_end s j) ≤ p
  passed start p j hs al po st le o hj fr =
      let first = candidate-least start p hs al po st le in
      let behind = overlaps-behind (candidate start) p j first le o (fr j hj) in
      align-least (span_end s j) p al (omega arith) le

  -- With fuel for the pages from start up to the limit, find_free_page returns a page-aligned,
  -- positive address from start on and up to the limit, and no byte of the page there lies in a
  -- registered span; no page before it from start on is one in which the code finds no span. It
  -- holds when the limit is positive, page-aligned and at most 2^63, start is at most the
  -- limit, every span ends below it and none ends on a page boundary.
  pub find_free_page_lem :
      (fuel start : ℕ)
      → start ≤ limit
      → 0 < limit
      → limit + page_size < page_size * fuel + start
      → (r : ℕ) × (find_free_page fuel s start ≡ some r) × Found s limit start r
  unfolding find_free_page
  find_free_page_lem zero start h pos f = absurd (omega arith)
  find_free_page_lem (suc fuel) start h pos f =
      let c = candidate_lem start h pos in
      elim (ok_address_cases s (candidate start)) [
        | inl (j, hj, o, e) ↦
            let end : ℕ = span_end s j in
            let below : end < limit = b.ends j hj in
            let next = align_lem end (omega arith) in
            let beyond : candidate start ≤ end = ground arith in
            let progress : limit + page_size < page_size * fuel + align_page_size end =
              omega (arith, b.loose j hj) in
            let (r, eq, found) =
              find_free_page_lem fuel (align_page_size end) (omega arith) pos progress in
            let past : (p : ℕ)
                → p % page_size ≡ 0
                → 0 < p
                → start ≤ p
                → p ≤ limit
                → IsFree s p
                → align_page_size end ≤ p =
              λ p al po st le fr. passed start p j (omega arith) al po st le o hj fr in
            (
              r,
              find-hit fuel s start end e (omega arith) ∙ eq,
              record {
                aligned = found.aligned;
                positive = found.positive;
                above = omega (arith, found.above);
                within = found.within;
                clear = found.clear;
                least = λ p al po st le fr. found.least p al po (past p al po st le fr) le fr;
              },
            )
        | inr (z, miss) ↦ (
          candidate start,
          find-miss fuel s start z,
          record {
            aligned = c.0;
            positive = c.1;
            above = c.2;
            within = c.3;
            clear = clear_of_miss (candidate start) c.3 miss;
            least = λ p al po st le fr. candidate-least start p (omega arith) al po st le;
          },
        )
      ]
