-- ===== src/Printk/Number.antt =====
-- src/c/vga_api.c and src/c/lib.c: the text of a number, as a list of characters.
use mathlib.Core.Path.{subst}
use implement_os.Prelude.{
  ℕ, zero, suc, ◌+◌, ◌-◌, ◌*◌, ◌^◌, ◌<◌, ◌≤◌, ◌≡◌, ◌≢◌, refl, sym, ap, Bool, ◌∙◌, inl, inr, arith,
  true, false, if◌then◌else◌, Bool-cases, some, List, [], ◌∷◌, length, leb, ◌==◌, ◌&&◌,
}
use implement_os.Strings.{Bytes, poke, to_string}
use implement_os.Strings.Text.{IsText}
use implement_os.Strings.Digits.{char_value, number}
use implement_os.Strings.Render.{to_string_lem}
use implement_os.Strings.Signed.{to_string-ShowsNegative}

-- what a text says in a base, highest digit first, behind digits that say `n`
abbrev pub reads_on : (base n : ℕ) → List ℕ → ℕ
reads_on base n [] = n
reads_on base n (c ∷ cs) = reads_on base (n * base + char_value c) cs

abbrev pub reads : ℕ → List ℕ → ℕ
reads base cs = reads_on base 0 cs

abbrev bytes : Bytes → (s n : ℕ) → List ℕ
bytes m s zero = []
bytes m s (suc n) = m s ∷ bytes m (s + 1) n

length-bytes : (m : Bytes) (s n : ℕ) → length (bytes m s n) ≡ n
length-bytes m s zero = refl
length-bytes m s (suc n) = ap suc (length-bytes m (s + 1) n)

reads_on-bytes :
    (base : ℕ) (m : Bytes) (s n k : ℕ)
    → reads_on base (number base m s n) (bytes m (s + n) k) ≡ number base m s (n + k)
reads_on-bytes base m s n zero = ap (number base m s) (omega arith)
reads_on-bytes base m s n (suc k) =
    let at : s + n + 1 ≡ s + suc n = omega arith in
    ap (λ a. reads_on base (number base m s (suc n)) (bytes m a k)) at
    ∙ reads_on-bytes base m s (suc n) k
    ∙ ap (number base m s) (omega arith)

bytes-IsText :
    (m : Bytes) (s n : ℕ)
    → ((j : ℕ) → j < n → m (s + j) ≢ 0)
    → m (s + n) ≡ 0
    → IsText m s (bytes m s n)
bytes-IsText m s zero shown ends = ap m (omega arith) ∙ ends
bytes-IsText m s (suc n) shown ends = (
  refl,
  (λ z. shown 0 (omega arith) (ap m (omega arith) ∙ z)),
  bytes-IsText m (s + 1) n (λ j h z. shown (suc j) (omega arith) (ap m (omega arith) ∙ z))
      (ap m (omega arith) ∙ ends),
)

abbrev pub is_negative : (base v : ℕ) → Bool
is_negative base v = base == 10 && leb (2 ^ 63) v

-- `v` without its sign, which it has in base 10 alone
abbrev pub magnitude : (base v : ℕ) → ℕ
magnitude base v = if is_negative base v then 2 ^ 64 - v else v

-- Every character is a digit of the base.
abbrev pub AreDigits : ℕ → List ℕ → Type 0
AreDigits base [] = Unit
AreDigits base (c ∷ cs) = (char_value c < base) × AreDigits base cs

abbrev pub sign_length : (base v : ℕ) → ℕ
sign_length base v = if is_negative base v then 1 else 0

-- The text of `v` and its zero byte fit into `room` characters.
abbrev pub Fits : (room base v : ℕ) → Type 0
Fits room base v =
    (1 + sign_length base v < room) × (magnitude base v < base ^ (room - 1 - sign_length base v))

-- A text of `v`: digits of the base that read as it, and behind a minus sign when it is negative in
-- base 10.
abbrev pub Denotes : (base v : ℕ) → List ℕ → Type 0
Denotes base v ds =
    (digits : List ℕ) × (ds ≡ (if is_negative base v then b'-' ∷ digits else digits))
    × (reads base digits ≡ magnitude base v)
    × AreDigits base digits
    × (0 < length digits)

-- A text `ds` of `v` at `s`, and nothing below `s` changed
pub record Spells (base v s : ℕ) (m m' : Bytes) (ds : List ℕ) : Type 0 where
  pub text : IsText m' s ds
  pub denotes : Denotes base v ds
  pub short : length ds ≤ magnitude base v + 1
  pub fits : (room : ℕ) → Fits room base v → length ds < room
  pub below : (b : ℕ) → b < s → m' b ≡ m b

bytes-AreDigits :
    (base : ℕ) (m : Bytes) (s n : ℕ)
    → ((j : ℕ) → j < n → (m (s + j) ≢ 0) × (char_value (m (s + j)) < base))
    → AreDigits base (bytes m s n)
bytes-AreDigits base m s zero h = tt
bytes-AreDigits base m s (suc n) h = (
  subst (λ a. char_value (m a) < base) (omega arith) (h 0 (omega arith)).1,
  bytes-AreDigits base m (s + 1) n (λ j lt.
      subst (λ a. (m a ≢ 0) × (char_value (m a) < base)) (omega arith) (h (suc j) (omega arith))),
)

to_string-zero :
    (fuel s base : ℕ) (m : Bytes)
    → (base == 0) ≡ false
    → to_string fuel 0 s base m ≡ some (poke (poke m s b'0') (s + 1) 0)
unfolding to_string
to_string-zero fuel s base m e = rw e

bytes-reads : (base : ℕ) (m : Bytes) (s n : ℕ) → reads base (bytes m s n) ≡ number base m s n
bytes-reads base m s n =
    ap (λ a. reads_on base 0 (bytes m a n)) (omega arith)
    ∙ reads_on-bytes base m s 0 n
    ∙ ap (number base m s) (omega arith)

Spelled : (base v s : ℕ) (fuel : ℕ) (m : Bytes) → Type 0
Spelled base v s fuel m =
    (m' : Bytes) × (ds : List ℕ) × (to_string fuel v s base m ≡ some m') × Spells base v s m m' ds

zero-Spelled : (base s : ℕ) → 2 ≤ base → (fuel : ℕ) (m : Bytes) → Spelled base 0 s fuel m
unfolding Spelled
zero-Spelled base s lo fuel m =
    let positive : is_negative base 0 ≡ false = ground arith in
    (
      poke (poke m s b'0') (s + 1) 0,
      b'0' ∷ [],
      to_string-zero fuel s base m (ground arith),
      record {
        text = (ground arith, λ e. omega arith, ground arith);
        denotes =
            (b'0' ∷ [], rw positive, rw positive (omega arith), (omega arith, tt), omega arith);
        fits = λ room f. omega (arith, f.0);
        short = omega arith;
        below = λ b h. ground arith;
      },
    )

positive-Spelled :
    (base s : ℕ)
    → 2 ≤ base
    → base ≤ 36
    → (fuel v : ℕ) (m : Bytes) → (v == 0) ≡ false
    → is_negative base v ≡ false
    → v < fuel
    → Spelled base v s fuel m
unfolding Spelled
positive-Spelled base s lo hi fuel v m nz positive lt =
    let (m', n, runs, shows) = to_string_lem base s lo hi fuel v m (ground arith) lt positive in
    (
      m',
      bytes m' s n,
      runs,
      record {
        text = bytes-IsText m' s n (λ j h. (shows.shown j h).0) shows.ends;
        denotes = (
          bytes m' s n,
          rw positive,
          rw positive (bytes-reads base m' s n ∙ shows.stands),
          bytes-AreDigits base m' s n shows.shown,
          omega (arith, length-bytes m' s n, shows.some_digit),
        );
        short = rw positive (omega (arith, length-bytes m' s n, shows.short));
        fits = λ room f.
            let g = rw positive at f in
            omega (arith, length-bytes m' s n, g.0, shows.fits (room - 1 - 0) g.1);
        below = shows.before;
      },
    )

negative-Spelled :
    (s fuel v : ℕ) (m : Bytes)
    → is_negative 10 v ≡ true
    → v < 2 ^ 64
    → 2 ^ 64 - v < fuel
    → Spelled 10 v s fuel m
unfolding Spelled
negative-Spelled s fuel v m negative hi lt =
    let (m', n, runs, shows) = to_string-ShowsNegative fuel v s m (ground arith) hi lt in
    (
      m',
      b'-' ∷ bytes m' (s + 1) n,
      runs,
      record {
        text = (
          shows.minus,
          (λ e. omega arith),
          bytes-IsText m' (s + 1) n (λ j h. (shows.shown j h).0) shows.ends,
        );
        denotes = (
          bytes m' (s + 1) n,
          rw negative,
          rw negative (bytes-reads 10 m' (s + 1) n ∙ shows.stands),
          bytes-AreDigits 10 m' (s + 1) n shows.shown,
          omega (arith, length-bytes m' (s + 1) n, shows.some_digit),
        );
        short = rw negative (omega (arith, length-bytes m' (s + 1) n, shows.short));
        fits = λ room f.
            let g = rw negative at f in
            omega (arith, length-bytes m' (s + 1) n, g.0, shows.fits (room - 1 - 1) g.1);
        below = shows.before;
      },
    )

-- The text of a number of 64 bits, in any base that has digits.
pub to_string-Spells :
    (base s : ℕ) (lo : 2 ≤ base) (hi : base ≤ 36) (fuel v : ℕ) (m : Bytes)
    → v < 2 ^ 64
    → magnitude base v < fuel
    → (m' : Bytes) × (ds : List ℕ) × (to_string fuel v s base m ≡ some m') × Spells base v s m m' ds
unfolding Spelled
to_string-Spells base s lo hi fuel v m in64 lt = elim (Bool-cases (v == 0)) [
  | inl e ↦
      let z : v ≡ 0 = ground arith in
      subst (λ k. Spelled base k s fuel m) (sym z) (zero-Spelled base s lo fuel m)
  | inr e ↦ elim (Bool-cases (is_negative base v)) [
    | inr positive ↦
        positive-Spelled base s lo hi fuel v m e positive (subst (λ k. k < fuel) (rw positive) lt)
    | inl negative ↦
        let ten : base ≡ 10 = ground arith in
        let neg : is_negative 10 v ≡ true = ground arith in
        subst (λ k. Spelled k v s fuel m) (sym ten)
          (negative-Spelled s fuel v m neg in64 (ground arith))
  ]
]
