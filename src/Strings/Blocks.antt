-- ===== src/Strings/Blocks.antt =====
-- src/c/lib.c: what `memset` and `memcpy` leave at every address.
use implement_os.Prelude.{
  ℕ, zero, suc, ◌+◌, ◌-◌, ◌%◌, ◌^◌, ◌≤◌, ◌≡◌, ◌⊎◌, Bool, ◌&&◌, arith, ltb, leb, if◌then◌else◌,
}
use implement_os.Strings.{Bytes, poke, memset_loop, memset, memcpy}

-- `a` is one of the `n` addresses from `p` on
abbrev pub within : ℕ → ℕ → ℕ → Bool
within p n a = leb p a && ltb a (p + n)

memset_loop_lem :
    (n p c : ℕ) (m : Bytes) (a : ℕ) → memset_loop n p c m a ≡ (if within p n a then c else m a)
unfolding memset_loop
memset_loop_lem zero p c m a = ground arith
memset_loop_lem (suc n) p c m a = ground (arith, memset_loop_lem n (p + 1) c (poke m p c) a)

-- memset leaves the value, cut to a byte, at the n addresses from its destination on, and
-- writes nowhere else.
pub memset_lem :
    (dst i n : ℕ) (m : Bytes) (a : ℕ)
    → memset dst i n m a ≡ (if within dst n a then i % 2 ^ 8 else m a)
unfolding memset
memset_lem dst i n = memset_loop_lem n dst (i % 2 ^ 8)

-- memcpy to a destination that begins at or before the source or not before its end leaves the
-- source's bytes as they were at the destination and writes nowhere else.
pub memcpy_lem :
    (d s n : ℕ) (m : Bytes) (a : ℕ)
    → (d ≤ s) ⊎ (s + n ≤ d)
    → memcpy d s n m a ≡ (if within d n a then m (s + (a - d)) else m a)
unfolding memcpy
memcpy_lem d s zero m a h = ground arith
memcpy_lem d s (suc n) m a h =
    ground (arith, memcpy_lem (d + 1) (s + 1) n (poke m d (m s)) a (ground arith))
