-- ===== src/Gdt/Fields.antt =====
-- src/c/gdt.c: the bit fields of `struct SegmentDescriptor`, in their order, each with its first bit
-- and its width.
use implement_os.Prelude.{ℕ}
use implement_os.Prelude.Words.{set_field}

pub data SegmentField : Type 0 where
  limit_1 base_1 base_2 : SegmentField
  access rw_bit direction exec desc_type dpl present : SegmentField
  limit_2 res long_mode size granularity : SegmentField
  base_3 : SegmentField

abbrev pub segment_place : SegmentField → ℕ × ℕ
segment_place limit_1 = (0, 16)
segment_place base_1 = (16, 16)
segment_place base_2 = (32, 8)
segment_place access = (40, 1)
segment_place rw_bit = (41, 1)
segment_place direction = (42, 1)
segment_place exec = (43, 1)
segment_place desc_type = (44, 1)
segment_place dpl = (45, 2)
segment_place present = (47, 1)
segment_place limit_2 = (48, 4)
segment_place res = (52, 1)
segment_place long_mode = (53, 1)
segment_place size = (54, 1)
segment_place granularity = (55, 1)
segment_place base_3 = (56, 8)

abbrev pub set_segment : SegmentField → (value word : ℕ) → ℕ
set_segment f value word = set_field (segment_place f).0 (segment_place f).1 value word
