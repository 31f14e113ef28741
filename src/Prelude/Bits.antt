-- ===== src/Prelude/Bits.antt =====
-- `&` and `|` on words of any width: how they act on the lowest binary digit, on the digit at a
-- position, and on operands whose digits do not meet.
use Prim.Native.Nat.{
  ℕ, zero, suc, ◌+◌, ◌-◌, ◌*◌, ◌/◌, ◌%◌, ◌^◌, ◌≤◌, ◌<◌, min, max, digits, bit_and, bit_or,
  bit_and-bitwise, bit_or-bitwise,
}
use mathlib.Core.Path.{◌≡◌, refl, ap, sym, subst, ◌∙◌, ap₂}
use mathlib.Core.Logic.{◌≢◌}
use native.Mathlib.Nat.{pow-succ', one-le-pow, div-div-eq-div-mul}
use native.Mathlib.Omega.{arith}

-- Fuel beyond the first operand changes nothing.
settle :
    (rest : ℕ → ℕ) (op : ℕ → ℕ → ℕ) (fuel a b : ℕ)
    → a ≤ fuel
    → digits rest op (suc fuel) a b ≡ digits rest op fuel a b
settle rest op zero zero b h = refl
settle rest op zero (suc a) b h = absurd (omega arith)
settle rest op (suc fuel) zero b h = refl
settle rest op (suc fuel) (suc a) b h =
    ap (λ (d : ℕ). d * 2 + op (suc a % 2) (b % 2))
      (settle rest op fuel (suc a / 2) (b / 2) (omega arith))

settle_by :
    (rest : ℕ → ℕ) (op : ℕ → ℕ → ℕ) (extra fuel a b : ℕ)
    → a ≤ fuel
    → digits rest op (extra + fuel) a b ≡ digits rest op fuel a b
settle_by rest op zero fuel a b h = ap (λ n. digits rest op n a b) (omega arith)
settle_by rest op (suc extra) fuel a b h =
    let next : suc extra + fuel ≡ suc (extra + fuel) = omega arith in
    rw next (settle rest op (extra + fuel) a b (omega arith) ∙ settle_by rest op extra fuel a b h)

halving :
    (rest : ℕ → ℕ) (op : ℕ → ℕ → ℕ) (a b : ℕ)
    → digits rest op a (suc a / 2) (b / 2) ≡ digits rest op (suc a / 2) (suc a / 2) (b / 2)
halving rest op a b =
    let e : a ≡ (a - suc a / 2) + suc a / 2 = omega arith in
    subst
      (λ n. digits rest op n (suc a / 2) (b / 2) ≡ digits rest op (suc a / 2) (suc a / 2) (b / 2))
      (sym e) (settle_by rest op (a - suc a / 2) (suc a / 2) (suc a / 2) (b / 2) (omega arith))

pub bit_and-halves : (x y : ℕ) → min (x % 2) (y % 2) + 2 * bit_and (x / 2) (y / 2) ≡ bit_and x y
bit_and-halves zero y = omega (arith, bit_and-bitwise zero y, bit_and-bitwise zero (y / 2))
bit_and-halves (suc x) y =
    let here = bit_and-bitwise (suc x) y in
    let half = bit_and-bitwise (suc x / 2) (y / 2) in
    omega (arith, halving (λ _. 0) min x y, here, half)

pub bit_or-halves : (x y : ℕ) → max (x % 2) (y % 2) + 2 * bit_or (x / 2) (y / 2) ≡ bit_or x y
bit_or-halves zero y = omega (arith, bit_or-bitwise zero y, bit_or-bitwise zero (y / 2))
bit_or-halves (suc x) y =
    let here = bit_or-bitwise (suc x) y in
    let half = bit_or-bitwise (suc x / 2) (y / 2) in
    omega (arith, halving (λ t. t) max x y, here, half)

-- the binary digit of `x` at position `k`
abbrev pub digit : ℕ → ℕ → ℕ
digit x k = x / 2 ^ k % 2

digit-suc : (x k : ℕ) → digit x (suc k) ≡ digit (x / 2) k
digit-suc x k =
    ap (λ d. x / d % 2) (pow-succ' 2 k) ∙ ap (λ d. d % 2) (sym (div-div-eq-div-mul x 2 (2 ^ k)))

pub digit-bit_or : (k a b : ℕ) → digit (bit_or a b) k ≡ max (digit a k) (digit b k)
digit-bit_or zero a b = omega (arith, bit_or-halves a b)
digit-bit_or (suc k) a b =
    let half : bit_or a b / 2 ≡ bit_or (a / 2) (b / 2) = omega (arith, bit_or-halves a b) in
    simp (digit-suc, half) (digit-bit_or k (a / 2) (b / 2))

pub digit-bit_and : (k a b : ℕ) → digit (bit_and a b) k ≡ min (digit a k) (digit b k)
digit-bit_and zero a b = omega (arith, bit_and-halves a b)
digit-bit_and (suc k) a b =
    let half : bit_and a b / 2 ≡ bit_and (a / 2) (b / 2) = omega (arith, bit_and-halves a b) in
    simp (digit-suc, half) (digit-bit_and k (a / 2) (b / 2))

-- the word with one bit set, and its complement
pub digit-pow_self : (k : ℕ) → digit (2 ^ k) k ≡ 1
digit-pow_self zero = refl
digit-pow_self (suc k) =
    let half : 2 ^ suc k / 2 ≡ 2 ^ k = omega (arith, pow-succ' 2 k) in
    simp (digit-suc, half) (digit-pow_self k)

digit-zero : (k : ℕ) → digit 0 k ≡ 0
digit-zero zero = refl
digit-zero (suc k) = rw digit-suc (digit-zero k)

pub digit-pow_ne : (j k : ℕ) → j ≢ k → digit (2 ^ j) k ≡ 0
digit-pow_ne zero zero ne = absurd (ne refl)
digit-pow_ne zero (suc k) ne = rw digit-suc (digit-zero k)
digit-pow_ne (suc j) zero ne = omega (arith, pow-succ' 2 j)
digit-pow_ne (suc j) (suc k) ne =
    let half : 2 ^ suc j / 2 ≡ 2 ^ j = omega (arith, pow-succ' 2 j) in
    simp (digit-suc, half) (digit-pow_ne j k (λ e. ne (ap suc e)))

-- the complement within `w` bits
pub digit-complement : (w x k : ℕ) → x < 2 ^ w → k < w → digit (2 ^ w - 1 - x) k ≡ 1 - digit x k
digit-complement zero x k h lt = absurd (omega arith)
digit-complement (suc w) x zero h lt = omega (arith, pow-succ' 2 w)
digit-complement (suc w) x (suc k) h lt =
    let half : (2 ^ suc w - 1 - x) / 2 ≡ 2 ^ w - 1 - x / 2 = omega (arith, pow-succ' 2 w) in
    simp (digit-suc, half)
      (digit-complement w (x / 2) k (omega (arith, pow-succ' 2 w)) (omega arith))

bit_or-zero_upto : (bound x : ℕ) → x ≤ bound → bit_or x 0 ≡ x
bit_or-zero_upto zero x le = let none_left : x ≡ 0 = omega arith in rw none_left refl
bit_or-zero_upto (suc bound) zero le = refl
bit_or-zero_upto (suc bound) (suc x) le =
    omega (arith, bit_or-zero_upto bound (suc x / 2) (omega arith), bit_or-halves (suc x) 0)

pub bit_or-zero : (x : ℕ) → bit_or x 0 ≡ x
bit_or-zero x = bit_or-zero_upto x x (omega arith)

pub zero-bit_or : (a : ℕ) → bit_or 0 a ≡ a
zero-bit_or a = bit_or-bitwise 0 a

twice : (q k : ℕ) → q * 2 ^ suc k ≡ 2 * (q * 2 ^ k)
twice q k = omega (arith, ap (λ (t : ℕ). q * t) (pow-succ' 2 k))

-- A mask with ones in the `k` low digits keeps a word of `k` digits.
pub bit_and_low : (k q x : ℕ) → x < 2 ^ k → bit_and x (q * 2 ^ k + (2 ^ k - 1)) ≡ x
bit_and_low zero q x h =
    let e : x ≡ 0 = omega arith in rw e (bit_and-bitwise 0 (q * 2 ^ 0 + (2 ^ 0 - 1)))
bit_and_low (suc k) q x h =
    let half : (q * 2 ^ suc k + (2 ^ suc k - 1)) / 2 ≡ q * 2 ^ k + (2 ^ k - 1) =
      omega (arith, twice q k, pow-succ' 2 k, one-le-pow k 2) in
    let odd : (q * 2 ^ suc k + (2 ^ suc k - 1)) % 2 ≡ 1 =
      omega (arith, twice q k, pow-succ' 2 k, one-le-pow k 2) in
    rw
      (
        ← bit_and-halves x (q * 2 ^ suc k + (2 ^ suc k - 1)),
        half,
        odd,
        bit_and_low k q (x / 2) (omega (arith, pow-succ' 2 k)),
      )
      (omega arith)

pub ones-bit_and : (k x : ℕ) → x < 2 ^ k → bit_and (2 ^ k - 1) x ≡ x
ones-bit_and zero x h = let e : x ≡ 0 = omega arith in rw e (bit_and-bitwise 0 0)
ones-bit_and (suc k) x h =
    let half : (2 ^ suc k - 1) / 2 ≡ 2 ^ k - 1 = omega (arith, pow-succ' 2 k) in
    let odd : (2 ^ suc k - 1) % 2 ≡ 1 = omega (arith, pow-succ' 2 k, one-le-pow k 2) in
    rw
      (
        ← bit_and-halves (2 ^ suc k - 1) x,
        half,
        odd,
        ones-bit_and k (x / 2) (omega (arith, pow-succ' 2 k)),
      )
      (omega arith)

-- `&` of two words shifted alike
pub bit_and-shift : (k a b : ℕ) → bit_and (a * 2 ^ k) (b * 2 ^ k) ≡ bit_and a b * 2 ^ k
bit_and-shift zero a b = ground arith
bit_and-shift (suc k) a b =
    let ha : a * 2 ^ suc k / 2 ≡ a * 2 ^ k = omega (arith, twice a k) in
    let hb : b * 2 ^ suc k / 2 ≡ b * 2 ^ k = omega (arith, twice b k) in
    omega (
      arith,
      bit_and-halves (a * 2 ^ suc k) (b * 2 ^ suc k),
      ap₂ bit_and ha hb,
      bit_and-shift k a b,
      twice a k,
      twice b k,
      twice (bit_and a b) k,
    )
