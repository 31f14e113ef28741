-- ===== src/Printk/Format.antt =====
-- src/c/vga_api.c: what a format says, apart from how `_printk` goes about it.
use implement_os.Prelude.{
  ℕ, ◌+◌, ◌-◌, ◌%◌, ◌^◌, ◌<◌, ◌≤◌, ◌≡◌, ◌≢◌, ◌⊎◌, refl, ap, arith, true, some, List, [], ◌∷◌, ◌++◌,
  length,
}
use implement_os.Strings.{Bytes}
use implement_os.Strings.Text.{IsText}
use implement_os.Printk.{array_size, plain_number, sized_number, is_size, widen}
use implement_os.Printk.Number.{magnitude, Denotes, Fits}

-- The parts of a format: a character for itself, `%%`, `%c`, a number `%d`, `%u`, `%x`, `%p` or
-- `%b` of this value in this base, one with a length, and `%s` with this text.
pub data Piece : Type 0 where
  plain : ℕ → Piece
  percent : Piece
  character : Piece
  number : (c v base : ℕ) → Piece
  sized : (size c v base : ℕ) → Piece
  text : List ℕ → Piece

-- A number of 64 bits that `to_string` prints within the fuel, in one of the bases, and whose text
-- fits into the array of `room` characters.
abbrev pub IsPrintable : (fuel room v base : ℕ) → Type 0
IsPrintable fuel room v base =
    (magnitude base v + 1 < fuel) × (v < 2 ^ 64) × (1 < base) × (base < 37) × Fits room base v

-- What the conversions stand for: the value and the base of `%d`, `%u`, `%x`, `%p` and `%b`.
pub data IsPlain (i : ℕ) : (c v base : ℕ) → Type 0 where
  signed : IsPlain i b'd' (i % 2 ^ 64) 10
  unsigned : IsPlain i b'u' (i % 2 ^ 64) 10
  hexadecimal : IsPlain i b'x' (i % 2 ^ 64) 16
  pointer : IsPlain i b'p' (i % 2 ^ 64) 16
  binary : IsPlain i b'b' (i % 2 ^ 64) 2

-- the bits of a length
pub data Width : (size w : ℕ) → Type 0 where
  short : Width b'h' 16
  long : Width b'l' 64
  quarter : Width b'q' 8

-- `v` is the 64-bit pattern that has the sign and the value of the lowest `w` bits of `i`.
abbrev pub Extends : (w i v : ℕ) → Type 0
Extends w i v =
    (v % 2 ^ w ≡ i % 2 ^ w) × (v < 2 ^ 64) × ((v < 2 ^ (w - 1)) ⊎ (2 ^ 64 ≤ v + 2 ^ (w - 1)))

-- the same behind a length
pub data IsSized (i size : ℕ) : (c v base : ℕ) → Type 0 where
  signed_short : (w v : ℕ) → Width size w → Extends w i v → IsSized i size b'd' v 10
  unsigned_short : (w : ℕ) → Width size w → IsSized i size b'u' (i % 2 ^ w) 10
  hexadecimal_short : (w : ℕ) → Width size w → IsSized i size b'x' (i % 2 ^ w) 16

pub IsPlain-number : (i c v base : ℕ) → IsPlain i c v base → plain_number c i ≡ some (v, base)
unfolding plain_number
IsPlain-number i c v base signed = refl
IsPlain-number i c v base unsigned = refl
IsPlain-number i c v base hexadecimal = refl
IsPlain-number i c v base pointer = refl
IsPlain-number i c v base binary = refl

widen-Extends : (size w i v : ℕ) → Width size w → Extends w i v → widen w i ≡ v
widen-Extends size w i v short e = ground (arith, e.0, e.1, e.2)
widen-Extends size w i v long e = ground (arith, e.0, e.1, e.2)
widen-Extends size w i v quarter e = ground (arith, e.0, e.1, e.2)

pub IsSized-number :
    (i size c v base : ℕ)
    → IsSized i size c v base
    → (sized_number size c i ≡ some (v, base)) × (is_size size ≡ true)
unfolding sized_number
IsSized-number i size c v base (signed_short w v' short e) =
    (ap (λ n. some (n, 10)) (widen-Extends b'h' 16 i v short e), refl)
IsSized-number i size c v base (signed_short w v' long e) =
    (ap (λ n. some (n, 10)) (widen-Extends b'l' 64 i v long e), refl)
IsSized-number i size c v base (signed_short w v' quarter e) =
    (ap (λ n. some (n, 10)) (widen-Extends b'q' 8 i v quarter e), refl)
IsSized-number i size c v base (unsigned_short w short) = (refl, refl)
IsSized-number i size c v base (unsigned_short w long) = (refl, refl)
IsSized-number i size c v base (unsigned_short w quarter) = (refl, refl)
IsSized-number i size c v base (hexadecimal_short w short) = (refl, refl)
IsSized-number i size c v base (hexadecimal_short w long) = (refl, refl)
IsSized-number i size c v base (hexadecimal_short w quarter) = (refl, refl)

module _ (fuel limit : ℕ) (m : Bytes) (args : ℕ → ℕ) where
  -- At `a` and below `limit` stands the format of these pieces, whose values are the arguments
  -- from number `i` on; the strings stand below `limit` too.
  abbrev pub IsFormat : (i a : ℕ) → List Piece → Type 0
  IsFormat i a [] = (a < limit) × (m a ≡ 0)
  IsFormat i a (plain c ∷ ps) =
      (a < limit) × (m a ≡ c) × (c ≢ 0) × (c ≢ b'%') × IsFormat i (a + 1) ps
  IsFormat i a (percent ∷ ps) =
      (a + 1 < limit) × (m a ≡ b'%') × (m (a + 1) ≡ b'%') × IsFormat i (a + 2) ps
  IsFormat i a (character ∷ ps) =
      (a + 1 < limit) × (m a ≡ b'%') × (m (a + 1) ≡ b'c') × IsFormat (i + 1) (a + 2) ps
  IsFormat i a (number c v base ∷ ps) =
      (a + 1 < limit)
      × (m a ≡ b'%')
      × (m (a + 1) ≡ c)
      × IsPlain (args i) c v base
      × IsPrintable fuel (array_size 0 c) v base
      × IsFormat (i + 1) (a + 2) ps
  IsFormat i a (sized size c v base ∷ ps) =
      (a + 2 < limit)
      × (m a ≡ b'%')
      × (m (a + 1) ≡ size)
      × (m (a + 2) ≡ c)
      × IsSized (args i) size c v base
      × IsPrintable fuel (array_size size c) v base
      × IsFormat (i + 1) (a + 3) ps
  IsFormat i a (text ts ∷ ps) =
      (a + 1 < limit)
      × (m a ≡ b'%')
      × (m (a + 1) ≡ b's')
      × IsText m (args i) ts
      × (length ts < fuel)
      × (args i + length ts < limit)
      × IsFormat (i + 1) (a + 2) ps

module _ (args : ℕ → ℕ) where
  -- what the pieces say with the arguments from number `i` on
  abbrev pub Says : ℕ → List Piece → List ℕ → Type 0
  Says i [] xs = xs ≡ []
  Says i (plain c ∷ ps) xs = (ys : List ℕ) × (xs ≡ c ∷ ys) × Says i ps ys
  Says i (percent ∷ ps) xs = (ys : List ℕ) × (xs ≡ b'%' ∷ ys) × Says i ps ys
  Says i (character ∷ ps) xs = (ys : List ℕ) × (xs ≡ args i % 2 ^ 8 ∷ ys) × Says (i + 1) ps ys
  Says i (number c v base ∷ ps) xs =
      (ds : List ℕ) × (ys : List ℕ) × (xs ≡ ds ++ ys) × Denotes base v ds × Says (i + 1) ps ys
  Says i (sized size c v base ∷ ps) xs =
      (ds : List ℕ) × (ys : List ℕ) × (xs ≡ ds ++ ys) × Denotes base v ds × Says (i + 1) ps ys
  Says i (text ts ∷ ps) xs = (ys : List ℕ) × (xs ≡ ts ++ ys) × Says (i + 1) ps ys
