-- ===== src/Strings/Render.antt =====
-- src/c/lib.c: the reversal in place of `to_string`, and the whole routine.
use mathlib.Core.Path.{subst}
use implement_os.Prelude.{
  ℕ, zero, suc, ◌+◌, ◌-◌, ◌*◌, ◌^◌, ◌≤◌, ◌<◌, ◌≡◌, ◌≢◌, inl, inr, refl, ap, ◌∙◌, Option, some,
  arith, if◌then◌else◌, ◌==◌, ◌&&◌, ltb, leb, false, true, Bool-cases,
}
use implement_os.Strings.{Bytes, poke, digits_loop, reverse_loop, render, to_string}
use implement_os.Strings.Digits.{char_value, number, low_number, Wrote, digits_loop_lem}

-- where the byte at `a` comes from when the bytes from `start` to `end` are turned round
abbrev pub mirror : ℕ → ℕ → ℕ → ℕ → ℕ
mirror s start end a = if leb (s + start) a && leb a (s + end) then s + start + (s + end) - a else a

swapped : Bytes → ℕ → ℕ → Bytes
swapped m a b = poke (poke m a (m b)) b (m a)

reverse_stops :
    (fuel s start end : ℕ) (m : Bytes)
    → ltb start end ≡ false
    → reverse_loop (suc fuel) s start end m ≡ some m
unfolding reverse_loop
reverse_stops fuel s start end m e = rw e

reverse_swaps :
    (fuel s start end : ℕ) (m : Bytes)
    → ltb start end ≡ true
    → reverse_loop (suc fuel) s start end m
      ≡ reverse_loop fuel s (start + 1) (end - 1) (swapped m (s + start) (s + end))
unfolding reverse_loop swapped
reverse_swaps fuel s start end m e = rw e

mirror-swapped :
    (s start end a : ℕ) (m : Bytes)
    → start < end
    → swapped m (s + start) (s + end) (mirror s (start + 1) (end - 1) a) ≡ m (mirror s start end a)
unfolding swapped
mirror-swapped s start end a m h = ground arith

pub reverse_loop_lem :
    (fuel s start end : ℕ) (m : Bytes)
    → end + 1 < start + 2 * fuel
    → 0 < fuel
    → (m' : Bytes) × (reverse_loop fuel s start end m ≡ some m')
      × ((a : ℕ) → m' a ≡ m (mirror s start end a))
reverse_loop_lem zero s start end m h pos = absurd (omega arith)
reverse_loop_lem (suc fuel) s start end m h pos = elim (Bool-cases (ltb start end)) [
  | inr e ↦ (m, reverse_stops fuel s start end m e, λ a. ap m (ground arith))
  | inl e ↦
      let lt : start < end = ground arith in
      let (m', runs, is) =
        reverse_loop_lem fuel s (start + 1) (end - 1) (swapped m (s + start) (s + end))
          (omega arith) (omega arith) in
      (m', reverse_swaps fuel s start end m e ∙ runs, λ a. is a ∙ mirror-swapped s start end a m lt)
]

-- Read from its highest digit, a text says what its mirror image says from the lowest.
pub number-mirror :
    (base n s t : ℕ) (m m' : Bytes)
    → ((j : ℕ) → j < n → m' (s + j) ≡ m (t + (n - 1 - j)))
    → number base m' s n ≡ low_number base m t n
unfolding low_number
number-mirror base zero s t m m' h = refl
number-mirror base (suc n) s t m m' h =
    let rest : number base m' s n ≡ low_number base m (t + 1) n =
      number-mirror base n s (t + 1) m m' (λ j lt. h j (omega arith) ∙ ap m (omega arith)) in
    let top : m' (s + n) ≡ m t = h n (omega arith) ∙ ap m (omega arith) in
    omega (arith, ap (λ (k : ℕ). k * base) rest, ap char_value top)

-- The text of `n` characters that stands at `s` for the number `i`, and what is around it.
pub record Shows (base i s : ℕ) (m m' : Bytes) (n : ℕ) : Type 0 where
  pub stands : number base m' s n ≡ i
  pub short : n ≤ i
  pub some_digit : 0 < n
  pub shown : (j : ℕ) → j < n → (m' (s + j) ≢ 0) × (char_value (m' (s + j)) < base)
  pub fits : (r : ℕ) → i < base ^ r → n ≤ r
  pub ends : m' (s + n) ≡ 0
  pub before : (b : ℕ) → b < s → m' b ≡ m b
  pub behind : (b : ℕ) → s + n < b → m' b ≡ m b

abbrev pub Renders : (base i s : ℕ) → Bytes → Option Bytes → Type 0
Renders base i s m out = (m' : Bytes) × (n : ℕ) × (out ≡ some m') × Shows base i s m m' n

-- `to_string` of a positive number is the reversal of its digits
render_runs :
    (fuel i s base n : ℕ) (m m1 : Bytes)
    → digits_loop fuel i base s 0 m ≡ some (n, m1)
    → render fuel i false base s m ≡ reverse_loop fuel s 0 (n - 1) (poke m1 (s + n) 0)
unfolding render
render_runs fuel i s base n m m1 runs = rw (render, runs)

to_string-render :
    (fuel i s base : ℕ) (m : Bytes)
    → (base == 0) ≡ false
    → (i == 0) ≡ false
    → (base == 10 && leb (2 ^ 63) i) ≡ false
    → to_string fuel i s base m ≡ render fuel i false base s m
unfolding to_string
to_string-render fuel i s base m b z pos = rw (b, z, pos)

module _ (base s : ℕ) (lo : 2 ≤ base) (hi : base ≤ 36) where
  mirror-Shows :
      (i n : ℕ) (m m1 m' : Bytes)
      → i ≢ 0
      → Wrote base i s m m1 n
      → ((a : ℕ) → m' a ≡ poke m1 (s + n) 0 (mirror s 0 (n - 1) a))
      → Shows base i s m m' n
  mirror-Shows i n m m1 m' ne w is = record {
    stands = number-mirror base n s s m1 m' turned ∙ w.stands;
    short = w.short;
    some_digit = w.some_digit ne;
    shown = λ j h. rw (turned j h) (w.shown (n - 1 - j) (omega arith));
    fits = w.fits;
    ends = is (s + n) ∙ ground (arith, w.some_digit ne);
    before = λ b h. is b ∙ ground arith ∙ w.before b h;
    behind = λ b h. is b ∙ ground arith ∙ w.behind b (omega arith);
  }
    where
      turned : (j : ℕ) → j < n → m' (s + j) ≡ m1 (s + (n - 1 - j))
      turned j h = is (s + j) ∙ ground arith

  -- to_string of a number that is not 0, in a base from 2 to 36, and in base 10 only below
  -- 2^63, with fuel above the number, ends and leaves at s a text of at least one character,
  -- each a digit of the base, 0 to 9 and then a to z, that reads as the number in that base,
  -- highest digit first, a zero byte behind it, and every other address as it was.
  pub to_string_lem :
      (fuel i : ℕ) (m : Bytes)
      → i ≢ 0
      → i < fuel
      → (base == 10 && leb (2 ^ 63) i) ≡ false
      → Renders base i s m (to_string fuel i s base m)
  to_string_lem fuel i m ne h pos =
      let (n, m1, runs, w0) = digits_loop_lem base s lo hi fuel i 0 m h in
      let w : Wrote base i s m m1 n = subst (λ a. Wrote base i a m m1 n) (omega arith) w0 in
      let (m', turns, is) =
        reverse_loop_lem fuel s 0 (n - 1) (poke m1 (s + n) 0) (omega (arith, w.short))
          (omega arith) in
      (
        m',
        n,
        to_string-render fuel i s base m (ground arith) (ground arith) pos
            ∙ render_runs fuel i s base n m m1 (runs ∙ ap (λ k. some (k, m1)) (omega arith))
            ∙ turns,
        mirror-Shows i n m m1 m' ne w is,
      )
