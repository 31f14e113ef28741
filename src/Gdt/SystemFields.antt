-- ===== src/Gdt/SystemFields.antt =====
-- src/c/gdt.c: the bit fields of `struct SystemSegmentDescriptor`, in their order, each with its
-- eight-byte word, its first bit in that word and its width.
use implement_os.Prelude.{ℕ}
use implement_os.Prelude.Words.{set_field}

pub data SystemField : Type 0 where
  limit_1 base_1 base_2 : SystemField
  type_bits desc_type dpl present : SystemField
  limit_2 res_1 long_mode size granularity : SystemField
  base_3 : SystemField
  base_4 res_2 : SystemField

abbrev pub system_place : SystemField → ℕ × ℕ × ℕ
system_place limit_1 = (0, 0, 16)
system_place base_1 = (0, 16, 16)
system_place base_2 = (0, 32, 8)
system_place type_bits = (0, 40, 4)
system_place desc_type = (0, 44, 1)
system_place dpl = (0, 45, 2)
system_place present = (0, 47, 1)
system_place limit_2 = (0, 48, 4)
system_place res_1 = (0, 52, 1)
system_place long_mode = (0, 53, 1)
system_place size = (0, 54, 1)
system_place granularity = (0, 55, 1)
system_place base_3 = (0, 56, 8)
system_place base_4 = (1, 0, 32)
system_place res_2 = (1, 32, 32)

-- a write to the field, in its word
abbrev pub set_system : SystemField → (value word : ℕ) → ℕ
set_system f value word = set_field (system_place f).1 (system_place f).2 value word
