-- ===== src/Gdt/Descriptors.antt =====
-- src/c/gdt.c: what the processor reads in the tables that `setup_gdt` leaves.
use implement_os.Prelude.{ℕ, ◌+◌, ◌-◌, ◌*◌, ◌/◌, ◌%◌, ◌^◌, ◌≤◌, ◌<◌, ◌≡◌, refl, arith}
use implement_os.Prelude.Words.{set_field, get_field}
use implement_os.Gdt.{
  Layout, Tables, code_segment, task_segment_low, task_segment_high, fill_tss, setup_gdt,
  ist_stack_size, tss_entries,
}

-- the base and the limit that a system descriptor of two words names
abbrev pub base_of : ℕ → ℕ → ℕ
base_of low high =
    get_field 16 16 low
    + get_field 32 8 low * 2 ^ 16
    + get_field 56 8 low * 2 ^ 24
    + get_field 0 32 high * 2 ^ 32

abbrev pub limit_of : ℕ → ℕ
limit_of low = get_field 0 16 low + get_field 48 4 low * 2 ^ 16

-- The low word with the base's three parts in place and the other bits `rest`.
abbrev low_word : (x y z rest : ℕ) → ℕ
low_word x y z rest = rest + x * 2 ^ 16 + y * 2 ^ 32 + z * 2 ^ 56

module _ (x y z : ℕ) (xs : x < 2 ^ 16) (ys : y < 2 ^ 8) (zs : z < 2 ^ 8) where
  based_lem : set_field 56 8 z (set_field 32 8 y (set_field 16 16 x 0)) ≡ low_word x y z 0
  unfolding set_field
  based_lem = omega arith

  limited_lem : set_field 48 4 0 (set_field 0 16 103 (low_word x y z 0)) ≡ low_word x y z 103
  unfolding set_field
  limited_lem = omega arith

  present_lem :
      set_field 45 2 0 (set_field 47 1 1 (low_word x y z 103)) ≡ low_word x y z (103 + 2 ^ 47)
  unfolding set_field
  present_lem = omega arith

  typed_lem :
      set_field 40 4 0x9 (set_field 44 1 0 (low_word x y z (103 + 2 ^ 47)))
      ≡ low_word x y z (103 + 2 ^ 47 + 9 * 2 ^ 40)
  unfolding set_field
  typed_lem = omega arith

  flags_lem :
      set_field 55 1 0 (set_field 52 1 0 (low_word x y z (103 + 2 ^ 47 + 9 * 2 ^ 40)))
      ≡ low_word x y z (103 + 2 ^ 47 + 9 * 2 ^ 40)
  unfolding set_field
  flags_lem = omega arith

  modes_lem :
      set_field 55 1 0 (set_field 53 1 0 (low_word x y z (103 + 2 ^ 47 + 9 * 2 ^ 40)))
      ≡ low_word x y z (103 + 2 ^ 47 + 9 * 2 ^ 40)
  unfolding set_field
  modes_lem = omega arith

-- The low word whole: present, of type 9, and no other flag.
task_segment_low_lem :
    (a : ℕ)
    → task_segment_low a
      ≡ low_word (a % 2 ^ 16) (a / 2 ^ 16 % 2 ^ 8) (a / 2 ^ 24 % 2 ^ 8) (103 + 2 ^ 47 + 9 * 2 ^ 40)
unfolding task_segment_low
task_segment_low_lem a =
    let x = a % 2 ^ 16 in
    let y = a / 2 ^ 16 % 2 ^ 8 in
    let z = a / 2 ^ 24 % 2 ^ 8 in
    let xs : x < 2 ^ 16 = omega arith in
    let ys : y < 2 ^ 8 = omega arith in
    let zs : z < 2 ^ 8 = omega arith in
    rw (
      based_lem x y z xs ys zs,
      limited_lem x y z xs ys zs,
      present_lem x y z xs ys zs,
      typed_lem x y z xs ys zs,
      flags_lem x y z xs ys zs,
      modes_lem x y z xs ys zs,
    )

module _ (x y z : ℕ) (xs : x < 2 ^ 16) (ys : y < 2 ^ 8) (zs : z < 2 ^ 8) where
  word : ℕ
  word = low_word x y z (103 + 2 ^ 47 + 9 * 2 ^ 40)

  first_base : get_field 16 16 word ≡ x
  unfolding get_field word
  first_base = omega arith

  second_base : get_field 32 8 word ≡ y
  unfolding get_field word
  second_base = omega arith

  third_base : get_field 56 8 word ≡ z
  unfolding get_field word
  third_base = omega arith

  limit_low : get_field 0 16 word ≡ 103
  unfolding get_field word
  limit_low = omega arith

  limit_high : get_field 48 4 word ≡ 0
  unfolding get_field word
  limit_high = omega arith

  access : get_field 40 8 word ≡ 0x89
  unfolding get_field word
  access = omega arith

  no_flags : get_field 52 4 word ≡ 0
  unfolding get_field word
  no_flags = omega arith

-- What the processor reads in the two words of the task segment's descriptor.
pub record Describes (low high address : ℕ) : Type 0 where
  pub base : base_of low high ≡ address
  pub limit : limit_of low ≡ 4 * tss_entries - 1
  pub present_and_type : get_field 40 8 low ≡ 0x89
  pub no_flags : get_field 52 4 low ≡ 0
  pub reserved : get_field 32 32 high ≡ 0

high_base : (a w : ℕ) → get_field 0 32 (task_segment_high a w) ≡ a / 2 ^ 32 % 2 ^ 32
unfolding get_field task_segment_high set_field
high_base a w = omega arith

high_reserved : (a w : ℕ) → get_field 32 32 (task_segment_high a w) ≡ 0
unfolding get_field task_segment_high set_field
high_reserved a w = omega arith

parts_lem :
    (a : ℕ)
    → a < 2 ^ 64
    → a % 2 ^ 16
        + a / 2 ^ 16 % 2 ^ 8 * 2 ^ 16
        + a / 2 ^ 24 % 2 ^ 8 * 2 ^ 24
        + a / 2 ^ 32 % 2 ^ 32 * 2 ^ 32
      ≡ a
parts_lem a h = omega arith

task_segment-Describes :
    (a w : ℕ) → a < 2 ^ 64 → Describes (task_segment_low a) (task_segment_high a w) a
unfolding word
task_segment-Describes a w h =
    let x = a % 2 ^ 16 in
    let y = a / 2 ^ 16 % 2 ^ 8 in
    let z = a / 2 ^ 24 % 2 ^ 8 in
    let xs : x < 2 ^ 16 = omega arith in
    let ys : y < 2 ^ 8 = omega arith in
    let zs : z < 2 ^ 8 = omega arith in
    let low : task_segment_low a ≡ word x y z xs ys zs = task_segment_low_lem a in
    record {
      base =
          rw
            (
              low,
              first_base x y z xs ys zs,
              second_base x y z xs ys zs,
              third_base x y z xs ys zs,
              high_base a w,
            )
            (parts_lem a h);
      limit = rw (low, limit_low x y z xs ys zs, limit_high x y z xs ys zs);
      present_and_type = rw (low, access x y z xs ys zs);
      no_flags = rw (low, no_flags x y z xs ys zs);
      reserved = high_reserved a w;
    }

-- the address that the two entries from `i` hold
abbrev stack_at : (ℕ → ℕ) → ℕ → ℕ
stack_at tss i = tss i + tss (i + 1) * 2 ^ 32

pub record StacksSet (l : Layout) (tss : ℕ → ℕ) : Type 0 where
  pub first_stack : stack_at tss 9 ≡ l.ist1_stack + 8 * (ist_stack_size - 1)
  pub second_stack : stack_at tss 11 ≡ l.ist2_stack + 8 * (ist_stack_size - 1)
  pub third_stack : stack_at tss 13 ≡ l.ist3_stack + 8 * (ist_stack_size - 1)
  pub io_map : tss 25 ≡ 104 * 2 ^ 16
  pub zero_before : (j : ℕ) → j < 9 → tss j ≡ 0
  pub zero_after : (j : ℕ) → 15 ≤ j → j < 25 → tss j ≡ 0

halves : (a : ℕ) → a < 2 ^ 64 → a % 2 ^ 32 + a / 2 ^ 32 % 2 ^ 32 * 2 ^ 32 ≡ a
halves a h = omega arith

fill_tss-StacksSet :
    (l : Layout) (tss : ℕ → ℕ)
    → l.ist1_stack + 8 * 511 < 2 ^ 64
    → l.ist2_stack + 8 * 511 < 2 ^ 64
    → l.ist3_stack + 8 * 511 < 2 ^ 64
    → StacksSet l (fill_tss tss_entries l 0 tss)
unfolding fill_tss
fill_tss-StacksSet l tss a b c = record {
  first_stack = halves _ a;
  second_stack = halves _ b;
  third_stack = halves _ c;
  io_map = refl;
  zero_before = λ j h. ground arith;
  zero_after = λ j lo hi. ground arith;
}

pub record IsReady (l : Layout) (t : Tables) : Type 0 where
  pub null_segment : t.gdt 0 ≡ 0
  pub code : t.gdt 1 ≡ 2 ^ 43 + 2 ^ 44 + 2 ^ 47 + 2 ^ 53
  pub task : Describes (t.gdt 2) (t.gdt 3) l.tss_address
  pub stacks : StacksSet l t.tss

-- With the task segment and the three stacks below 2^64, setup_gdt leaves, whatever was in the
-- tables, a null descriptor, a present 64-bit code segment, a descriptor whose two words name
-- the task segment's whole address, the limit 103 and the type of an available task segment,
-- and a task segment whose three interrupt stacks start at their last words, whose entries
-- before and behind them are 0 and whose last entry holds 104 as the offset of the port map.
pub setup_gdt-IsReady :
    (l : Layout) (t : Tables)
    → l.tss_address < 2 ^ 64
    → l.ist1_stack + 8 * 511 < 2 ^ 64
    → l.ist2_stack + 8 * 511 < 2 ^ 64
    → l.ist3_stack + 8 * 511 < 2 ^ 64
    → IsReady l (setup_gdt l t)
unfolding setup_gdt code_segment set_field
setup_gdt-IsReady l t h a b c = record {
  null_segment = refl;
  code = refl;
  task = task_segment-Describes l.tss_address (t.gdt 3) h;
  stacks = fill_tss-StacksSet l t.tss a b c;
}
