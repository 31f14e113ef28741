-- ===== src/Strings.antt =====
-- src/c/lib.c: the routines on bytes in memory. A pointer is an address, memory a function from
-- addresses to bytes, and a loop that runs to a zero byte takes fuel (`none`: it has not ended).
pub mod Blocks
pub mod Text
pub mod Compare
pub mod Digits
pub mod Render
pub mod Signed
mod Tests
use implement_os.Prelude.{
  ℕ, zero, suc, ◌+◌, ◌-◌, ◌*◌, ◌/◌, ◌%◌, ◌^◌, Bool, true, false, not, ◌&&◌, Option, none, some, ltb,
  leb, ◌==◌, if◌then◌else◌,
}

abbrev pub Bytes : Type 0
Bytes = ℕ → ℕ

-- `*a = v`
abbrev pub poke : Bytes → ℕ → ℕ → Bytes
poke m a v b = if b == a then v else m b

memset_loop : ℕ → ℕ → ℕ → Bytes → Bytes
memset_loop zero p c m = m
memset_loop (suc n) p c m = memset_loop n (p + 1) c (poke m p c)

-- `memset`: the value is cut to `unsigned char`.
unfoldable pub memset : (dst i n : ℕ) → Bytes → Bytes
unfolding memset_loop
memset dst i n m = memset_loop n dst (i % 2 ^ 8) m

-- `memcpy`, from the first byte on
unfoldable pub memcpy : (dest src n : ℕ) → Bytes → Bytes
memcpy d s zero m = m
memcpy d s (suc n) m = memcpy (d + 1) (s + 1) n (poke m d (m s))

strlen_loop : ℕ → ℕ → ℕ → Bytes → Option ℕ
strlen_loop zero s size m = none
strlen_loop (suc fuel) s size m =
    let rest = strlen_loop fuel (s + 1) (size + 1) m in if m s == 0 then some size else rest

unfoldable pub strlen : ℕ → ℕ → Bytes → Option ℕ
unfolding strlen_loop
strlen fuel s m = strlen_loop fuel s 0 m

-- `strcpy`: the loop ends at the zero byte and does not write it.
strcpy_loop : ℕ → (dest src index : ℕ) → Bytes → Option Bytes
strcpy_loop zero dest src index m = none
strcpy_loop (suc fuel) dest src index m =
    let c = m (src + index) in
    let rest = strcpy_loop fuel dest src (index + 1) (poke m (dest + index) c) in
    if c == 0 then some m else rest

unfoldable pub strcpy : ℕ → (dest src : ℕ) → Bytes → Option Bytes
unfolding strcpy_loop
strcpy fuel dest src m = strcpy_loop fuel dest src 0 m

-- A `char` widened to `int`, as the 32-bit pattern.
abbrev pub sign_extend : ℕ → ℕ
sign_extend c = if ltb c 128 then c else c + (2 ^ 32 - 2 ^ 8)

-- The difference of two `char`s as an `int`, and the same cut to a `char` and widened again.
abbrev pub char_diff : ℕ → ℕ → ℕ
char_diff a b = (sign_extend a + (2 ^ 32 - sign_extend b)) % 2 ^ 32

abbrev pub cut_diff : ℕ → ℕ → ℕ
cut_diff a b = sign_extend (char_diff a b % 2 ^ 8)

strcmp_loop : ℕ → (s1 s2 index : ℕ) → Bytes → Option ℕ
strcmp_loop zero s1 s2 index m = none
strcmp_loop (suc fuel) s1 s2 index m =
    let a = m (s1 + index) in
    let b = m (s2 + index) in
    let rest = strcmp_loop fuel s1 s2 (index + 1) m in
    if not (a == 0) && not (b == 0)
    then (if cut_diff a b == 0 then rest else some (cut_diff a b))
    else some (char_diff a b)

unfoldable pub strcmp : ℕ → (s1 s2 : ℕ) → Bytes → Option ℕ
unfolding strcmp_loop
strcmp fuel s1 s2 m = strcmp_loop fuel s1 s2 0 m

-- `strchr`: `none` inside is NULL.
unfoldable pub strchr : ℕ → (s c : ℕ) → Bytes → Option (Option ℕ)
strchr zero s c m = none
strchr (suc fuel) s c m =
    let rest = strchr fuel (s + 1) c m in
    if not (m s == c % 2 ^ 8) && not (m s == 0)
    then rest
    else some (if m s == c % 2 ^ 8 then some s else none)

-- one character of `to_string`, cut to a `char`
unfoldable pub digit_char : ℕ → ℕ
digit_char remainder =
    (if leb 10 remainder then remainder - 10 + b'a' else remainder + b'0') % 2 ^ 8

-- The digits of `i`, the lowest first, from `index` on; the index after them comes back.
pub digits_loop : ℕ → (i base s index : ℕ) → Bytes → Option (ℕ × Bytes)
digits_loop zero i base s index m = none
digits_loop (suc fuel) i base s index m =
    let rest =
      digits_loop fuel (i / base) base s (index + 1) (poke m (s + index) (digit_char (i % base))) in
    if i == 0 then some (index, m) else rest

-- The bytes from `start` to `end` change places.
pub reverse_loop : ℕ → (s start end : ℕ) → Bytes → Option Bytes
reverse_loop zero s start end m = none
reverse_loop (suc fuel) s start end m =
    let rest =
      reverse_loop fuel s (start + 1) (end - 1)
        (poke (poke m (s + start) (m (s + end))) (s + end) (m (s + start))) in
    if ltb start end then rest else some m

-- The part of `to_string` after its tests: digits, sign, zero byte, reversal.
render : ℕ → (i : ℕ) → (is_negative : Bool) → (base s : ℕ) → Bytes → Option Bytes
render fuel i is_negative base s m = elim (digits_loop fuel i base s 0 m) [
  | none ↦ none
  | some (n, m') ↦
      let index = if is_negative then n + 1 else n in
      let signed = if is_negative then poke m' (s + n) b'-' else m' in
      reverse_loop fuel s 0 (index - 1) (poke signed (s + index) 0)
]

-- `to_string`; `i` is the 64-bit pattern of the `long`. In base 0 it prints and writes nothing.
unfoldable pub to_string : ℕ → (i s base : ℕ) → Bytes → Option Bytes
unfolding digits_loop reverse_loop render
to_string fuel i s base m =
    let is_negative = base == 10 && leb (2 ^ 63) i in
    if base == 0
    then some m
    else if i == 0
    then some (poke (poke m s b'0') (s + 1) 0)
    else render fuel (if is_negative then 2 ^ 64 - i else i) is_negative base s m

unfoldable pub is_alpha : ℕ → Bool
is_alpha c = leb 0x41 c && leb c 0x5a
