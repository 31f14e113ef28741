-- ===== src/Strings/Digits.antt =====
-- src/c/lib.c: the text that `to_string` writes stands for its number.
use native.Mathlib.Nat.{div-add-mod, add-zero, div-lt_iff_lt-mul, pow-zero, pow-suc}
use implement_os.Prelude.{
  ℕ, zero, suc, ◌+◌, ◌-◌, ◌*◌, ◌/◌, ◌%◌, ◌^◌, ◌≤◌, ◌<◌, ◌≡◌, ◌≢◌, inl, inr, refl, ap, ◌∙◌, some,
  arith, if◌then◌else◌, ◌==◌, ◌&&◌, leb, false, true, Bool-cases,
}
use implement_os.Strings.{Bytes, poke, digit_char, digits_loop}

-- the digit that a character stands for: 0 to 9 and a to z are digits, and what is none stands for 36,
-- which is below no base
abbrev pub char_value : ℕ → ℕ
char_value c =
    if leb b'0' c && leb c b'9'
    then c - b'0'
    else if leb b'a' c && leb c b'z'
    then c - b'a' + 10
    else 36

-- The number that `n` characters from `a` on stand for: highest digit first.
abbrev pub number : ℕ → Bytes → ℕ → ℕ → ℕ
number base m a zero = 0
number base m a (suc n) = number base m a n * base + char_value (m (a + n))

-- the same with the lowest digit first
unfoldable pub low_number : ℕ → Bytes → ℕ → ℕ → ℕ
low_number base m a zero = 0
low_number base m a (suc n) = char_value (m a) + base * low_number base m (a + 1) n

char_value-digit_char : (r : ℕ) → r < 36 → (char_value (digit_char r) ≡ r) × (digit_char r ≢ 0)
unfolding digit_char
char_value-digit_char r h = ground arith

-- what the first loop leaves
pub record Wrote (base i a : ℕ) (m m' : Bytes) (n : ℕ) : Type 0 where
  pub stands : low_number base m' a n ≡ i
  pub short : n ≤ i
  pub some_digit : i ≢ 0 → 0 < n
  pub shown : (j : ℕ) → j < n → (m' (a + j) ≢ 0) × (char_value (m' (a + j)) < base)
  pub fits : (r : ℕ) → i < base ^ r → n ≤ r
  pub before : (b : ℕ) → b < a → m' b ≡ m b
  pub behind : (b : ℕ) → a + n ≤ b → m' b ≡ m b

done :
    (fuel i base s index : ℕ) (m : Bytes)
    → (i == 0) ≡ true
    → digits_loop (suc fuel) i base s index m ≡ some (index + 0, m)
unfolding digits_loop
done fuel i base s index m z = rw z (ap (λ k. some (k, m)) (omega arith))

goes :
    (fuel i base s index : ℕ) (m : Bytes)
    → (i == 0) ≡ false
    → digits_loop (suc fuel) i base s index m
      ≡ digits_loop fuel (i / base) base s (index + 1) (poke m (s + index) (digit_char (i % base)))
unfolding digits_loop
goes fuel i base s index m z = rw z

pub halves : (base i : ℕ) → 2 ≤ base → 2 * (i / base) ≤ i
halves base i lo = grind (arith, div-add-mod i base)

quotient_small : (i base p : ℕ) → 0 < base → i < p * base → i / base < p
quotient_small i base p pos h = (div-lt_iff_lt-mul pos).1 h

module _ (base s : ℕ) (lo : 2 ≤ base) (hi : base ≤ 36) where
  Wrote-cons :
      (i index n : ℕ) (m m' : Bytes)
      → i ≢ 0
      → Wrote base (i / base) (s + (index + 1)) (poke m (s + index) (digit_char (i % base))) m' n
      → Wrote base i (s + index) m m' (suc n)
  unfolding low_number
  Wrote-cons i index n m m' ne w = record {
    stands =
        omega
          (arith, ap char_value here, value.0, ap (λ (t : ℕ). base * t) tail, div-add-mod i base);
    short = omega (arith, w.short, halves base i lo);
    some_digit = λ e. omega arith;
    shown = λ j h. shown j h;
    fits = λ r h. fits r h;
    before = λ b h. w.before b (omega arith) ∙ ground arith;
    behind = λ b h. w.behind b (omega arith) ∙ ground arith;
  }
    where
      value : (char_value (digit_char (i % base)) ≡ i % base) × (digit_char (i % base) ≢ 0)
      value = char_value-digit_char (i % base) (omega arith)

      here : m' (s + index) ≡ digit_char (i % base)
      here = w.before (s + index) (omega arith) ∙ ground arith

      tail : low_number base m' (s + index + 1) n ≡ i / base
      tail = ap (λ a. low_number base m' a n) (omega arith) ∙ w.stands

      fits : (r : ℕ) → i < base ^ r → suc n ≤ r
      fits zero h = absurd (omega (arith, pow-zero base))
      fits (suc r) h = omega (
        arith,
        w.fits r (quotient_small i base (base ^ r) (omega arith) (rw (pow-suc base r) at h)),
      )

      shown :
          (j : ℕ) → j < suc n → (m' (s + index + j) ≢ 0) × (char_value (m' (s + index + j)) < base)
      shown zero h = rw (add-zero, here) (value.1, omega (arith, value.0))
      shown (suc j) h =
          let e : s + index + suc j ≡ s + (index + 1) + j = omega arith in
          rw e (w.shown j (omega arith))

  pub digits_loop_lem :
      (fuel i index : ℕ) (m : Bytes)
      → i < fuel
      → (n : ℕ) × (m' : Bytes) × (digits_loop fuel i base s index m ≡ some (index + n, m'))
        × Wrote base i (s + index) m m' n
  unfolding low_number
  digits_loop_lem zero i index m h = absurd (omega arith)
  digits_loop_lem (suc fuel) i index m h = elim (Bool-cases (i == 0)) [
    | inl z ↦ (
      0,
      m,
      done fuel i base s index m z,
      record {
        stands = ground arith;
        short = omega arith;
        some_digit = λ e. absurd (ground arith);
        shown = λ j lt. absurd (omega arith);
        fits = λ r h. omega arith;
        before = λ b lt. refl;
        behind = λ b le. refl;
      },
    )
    | inr z ↦
        let (n, m', runs, w) =
          digits_loop_lem fuel (i / base) (index + 1) (poke m (s + index) (digit_char (i % base)))
            (omega (arith, halves base i lo, nonzero i z)) in
        (
          suc n,
          m',
          goes fuel i base s index m z ∙ runs ∙ ap (λ k. some (k, m')) (omega arith),
          Wrote-cons i index n m m' (nonzero i z) w,
        )
  ]
    where
      nonzero : (i : ℕ) → (i == 0) ≡ false → i ≢ 0
      nonzero i e = ground arith
