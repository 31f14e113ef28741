-- ===== src/Strings/Signed.antt =====
-- src/c/lib.c: `to_string` of a negative number, in base 10.
use mathlib.Core.Path.{subst}
use implement_os.Prelude.{
  ℕ, ◌+◌, ◌-◌, ◌^◌, ◌≤◌, ◌<◌, ◌≡◌, ◌≢◌, ap, ◌∙◌, some, arith, true, false, leb, ◌==◌,
}
use implement_os.Strings.{Bytes, poke, digits_loop, reverse_loop, render, to_string}
use implement_os.Strings.Digits.{char_value, number, Wrote, digits_loop_lem}
use implement_os.Strings.Render.{mirror, reverse_loop_lem, number-mirror}

-- The text at `s` of the negative of `i`: a minus sign and `n` digits.
pub record ShowsNegative (i s : ℕ) (m m' : Bytes) (n : ℕ) : Type 0 where
  pub minus : m' s ≡ b'-'
  pub stands : number 10 m' (s + 1) n ≡ i
  pub short : n ≤ i
  pub some_digit : 0 < n
  pub shown : (j : ℕ) → j < n → (m' (s + 1 + j) ≢ 0) × (char_value (m' (s + 1 + j)) < 10)
  pub fits : (r : ℕ) → i < 10 ^ r → n ≤ r
  pub ends : m' (s + 1 + n) ≡ 0
  pub before : (b : ℕ) → b < s → m' b ≡ m b
  pub behind : (b : ℕ) → s + 1 + n < b → m' b ≡ m b

render_runs_negative :
    (fuel i s n : ℕ) (m m1 : Bytes)
    → digits_loop fuel i 10 s 0 m ≡ some (n, m1)
    → render fuel i true 10 s m
      ≡ reverse_loop fuel s 0 (n + 1 - 1) (poke (poke m1 (s + n) b'-') (s + (n + 1)) 0)
unfolding render
render_runs_negative fuel i s n m m1 runs = rw (render, runs)

to_string-negative :
    (fuel i s : ℕ) (m : Bytes)
    → 2 ^ 63 ≤ i
    → to_string fuel i s 10 m ≡ render fuel (2 ^ 64 - i) true 10 s m
unfolding to_string
to_string-negative fuel i s m h =
    let z : (i == 0) ≡ false = ground arith in
    let g : leb (2 ^ 63) i ≡ true = ground arith in rw (z, g)

mirror-ShowsNegative :
    (s i n : ℕ) (m m1 m' : Bytes)
    → i ≢ 0
    → Wrote 10 i s m m1 n
    → ((a : ℕ) → m' a ≡ poke (poke m1 (s + n) b'-') (s + (n + 1)) 0 (mirror s 0 (n + 1 - 1) a))
    → ShowsNegative i s m m' n
mirror-ShowsNegative s i n m m1 m' ne w is = record {
  minus = is s ∙ ground arith;
  stands = number-mirror 10 n (s + 1) s m1 m' turned ∙ w.stands;
  short = w.short;
  some_digit = w.some_digit ne;
  shown = λ j h. rw (turned j h) (w.shown (n - 1 - j) (omega arith));
  fits = w.fits;
  ends = is (s + 1 + n) ∙ ground arith;
  before = λ b h. is b ∙ ground arith ∙ w.before b h;
  behind = λ b h. is b ∙ ground arith ∙ w.behind b (omega arith);
}
  where
    turned : (j : ℕ) → j < n → m' (s + 1 + j) ≡ m1 (s + (n - 1 - j))
    turned j h = is (s + 1 + j) ∙ ground arith

pub to_string-ShowsNegative :
    (fuel i s : ℕ) (m : Bytes)
    → 2 ^ 63 ≤ i
    → i < 2 ^ 64
    → 2 ^ 64 - i < fuel
    → (m' : Bytes) × (n : ℕ) × (to_string fuel i s 10 m ≡ some m')
      × ShowsNegative (2 ^ 64 - i) s m m' n
to_string-ShowsNegative fuel i s m lo hi h =
    let (n, m1, runs, w0) =
      digits_loop_lem 10 s (omega arith) (omega arith) fuel (2 ^ 64 - i) 0 m h in
    let w : Wrote 10 (2 ^ 64 - i) s m m1 n =
      subst (λ a. Wrote 10 (2 ^ 64 - i) a m m1 n) (omega arith) w0 in
    let (m', turns, is) =
      reverse_loop_lem fuel s 0 (n + 1 - 1) (poke (poke m1 (s + n) b'-') (s + (n + 1)) 0)
        (omega (arith, w.short)) (omega arith) in
    (
      m',
      n,
      to_string-negative fuel i s m lo
          ∙ render_runs_negative fuel (2 ^ 64 - i) s n m m1
              (runs ∙ ap (λ k. some (k, m1)) (omega arith))
          ∙ turns,
      mirror-ShowsNegative s (2 ^ 64 - i) n m m1 m' (λ e. omega arith) w is,
    )
