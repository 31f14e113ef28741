-- ===== src/Gdt.antt =====
-- src/c/gdt.c: the segment descriptors and the task segment with the interrupt stacks. The addresses
-- that the linker gives the three stacks, the task segment and the table are parameters.
pub mod Fields
pub mod SystemFields
pub mod Descriptors
mod Tests
use implement_os.Prelude.{
  ℕ, zero, suc, ◌+◌, ◌-◌, ◌*◌, ◌/◌, ◌%◌, ◌^◌, Bool, ◌||◌, ltb, ◌==◌, if◌then◌else◌,
}
use implement_os.Prelude.Words.{set_field}
use SystemFields
use SystemFields.{set_system}
use Fields.{set_segment, exec, desc_type, present, long_mode}
use implement_os.Prelude.State.{M, pure, ◌>>=◌, ◌>>◌}
use implement_os.Machine.{Machine, cli, sti}

abbrev pub gdt_entries : ℕ
gdt_entries = 4

abbrev pub tss_entries : ℕ
tss_entries = 26

abbrev pub ist_stack_size : ℕ
ist_stack_size = 512

-- what the linker places
pub record Layout : Type 0 where
  pub ist1_stack : ℕ
  pub ist2_stack : ℕ
  pub ist3_stack : ℕ
  pub tss_address : ℕ
  pub gdt_address : ℕ

-- `gdt`, `tss` and `load_gdt_struct`
pub record Tables : Type 0 where
  pub gdt : ℕ → ℕ
  pub tss : ℕ → ℕ
  pub load_size : ℕ
  pub load_address : ℕ

-- `_setup_gdt_1`, the code segment
unfoldable pub code_segment : ℕ
unfolding set_field
code_segment =
    set_segment long_mode 1 (set_segment present 1 (set_segment desc_type 1 (set_segment exec 1 0)))

-- The first word of `_setup_gdt_2`: the bases and limits, and then the fields in their order.
unfoldable pub task_segment_low : ℕ → ℕ
unfolding set_field
task_segment_low address =
    let limit = 4 * tss_entries - 1 in
    let based = set_system SystemFields.base_3 (address / 2 ^ 24 % 2 ^ 8) (
      set_system SystemFields.base_2 (address / 2 ^ 16 % 2 ^ 8)
        (set_system SystemFields.base_1 (address % 2 ^ 16) 0)) in
    let limited =
      set_system SystemFields.limit_2 (limit / 2 ^ 16)
        (set_system SystemFields.limit_1 (limit % 2 ^ 16) based) in
    let typed = set_system SystemFields.type_bits 0x9 (
      set_system SystemFields.desc_type 0
        (set_system SystemFields.dpl 0 (set_system SystemFields.present 1 limited))) in
    set_system SystemFields.granularity 0 (
      set_system SystemFields.long_mode 0
        (set_system SystemFields.granularity 0 (set_system SystemFields.res_1 0 typed)))

-- The second word: `base_4` and `res_2`.
unfoldable pub task_segment_high : ℕ → ℕ → ℕ
unfolding set_field
task_segment_high address word =
    set_system SystemFields.res_2 0
      (set_system SystemFields.base_4 (address / 2 ^ 32 % 2 ^ 32) word)

-- `tss[i] = …; tss[i+1] = …` with the two halves of the last entry's address of a stack
abbrev pub set_stack : (i stack : ℕ) → (ℕ → ℕ) → ℕ → ℕ
set_stack i stack tss j =
    let addy = stack + 8 * (ist_stack_size - 1) in
    if j == i + 1 then addy / 2 ^ 32 % 2 ^ 32 else if j == i then addy % 2 ^ 32 else tss j

abbrev pub set_entry : (i value : ℕ) → (ℕ → ℕ) → ℕ → ℕ
set_entry i value tss j = if j == i then value else tss j

-- The loop over the task segment, with fuel for its rounds; a stack takes two entries.
unfoldable pub fill_tss : ℕ → Layout → ℕ → (ℕ → ℕ) → ℕ → ℕ
fill_tss zero l i tss = tss
fill_tss (suc rounds) l i tss =
    let step : ℕ = if i == 9 || (i == 11 || i == 13) then 2 else 1 in
    let tss' : ℕ → ℕ =
      if i == 9
      then set_stack i l.ist1_stack tss
      else if i == 11
      then set_stack i l.ist2_stack tss
      else if i == 13
      then set_stack i l.ist3_stack tss
      else if i == tss_entries - 1
      then set_entry i 0x680000 tss
      else set_entry i 0 tss in
    if ltb i tss_entries then fill_tss rounds l (i + step) tss' else tss

-- `setup_gdt`
unfoldable pub setup_gdt : Layout → Tables → Tables
unfolding code_segment task_segment_low task_segment_high fill_tss
setup_gdt l t = record t {
  gdt = set_entry 3 (task_segment_high l.tss_address (t.gdt 3)) (
      set_entry 2 (task_segment_low l.tss_address)
        (set_entry 1 code_segment (set_entry 0 0 t.gdt)));
  tss = fill_tss tss_entries l 0 t.tss;
}

-- `load_gdt`, without the instruction that hands `load_gdt_struct` to the processor
unfoldable pub load_gdt : Layout → Tables → M Machine Tables
unfolding cli sti
load_gdt l t = do
  curr_int ← cli
  let t' = record t { load_size = gdt_entries * 8 - 1; load_address = l.gdt_address }
  sti curr_int
  pure t'
