-- ===== src/Prelude/Words.antt =====
-- `uint64_t` arithmetic, and bit fields. `-` on ℕ stops at 0, so the modulus is added first.
use Prim.Native.Nat.{ℕ, ◌+◌, ◌-◌, ◌*◌, ◌/◌, ◌%◌, ◌^◌}

abbrev pub add64 : ℕ → ℕ → ℕ
add64 a b = (a + b) % 2 ^ 64

abbrev pub sub64 : ℕ → ℕ → ℕ
sub64 a b = (a + 2 ^ 64 - b) % 2 ^ 64

-- A write to the bit field of `width` bits from bit `lo` of a word.
unfoldable pub set_field : (lo width value : ℕ) → ℕ → ℕ
set_field lo width value word =
    word / 2 ^ (lo + width) * 2 ^ (lo + width) + value % 2 ^ width * 2 ^ lo + word % 2 ^ lo

unfoldable pub get_field : (lo width : ℕ) → ℕ → ℕ
get_field lo width word = word / 2 ^ lo % 2 ^ width
