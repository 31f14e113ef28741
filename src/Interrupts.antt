-- ===== src/Interrupts.antt =====
-- src/c/interrupts.c: the masks of the two interrupt controllers, their set-up and the interrupt
-- descriptor table. The addresses of the stubs that isr.h lists are a parameter.
pub mod Masks
pub mod Table
mod Tests
use Prim.Native.Nat.{bit_and, bit_or}
use implement_os.Prelude.{
  ℕ, zero, suc, ◌+◌, ◌-◌, ◌*◌, ◌/◌, ◌%◌, ◌^◌, Bool, ltb, ◌==◌, if◌then◌else◌,
}
use implement_os.Prelude.State.{M, pure, ◌>>=◌, ◌>>◌}
use implement_os.Machine.{Machine, outb, inb}

abbrev pub pic1 : ℕ
pic1 = 0x20

abbrev pub pic2 : ℕ
pic2 = 0xa0

abbrev pub pic1_data : ℕ
pic1_data = pic1 + 1

abbrev pub pic2_data : ℕ
pic2_data = pic2 + 1

-- `port` and `irq_num` after the first test of the three functions on a mask
unfoldable pub port_of : ℕ → ℕ
port_of irq_num = if ltb irq_num 8 then pic1_data else pic2_data

unfoldable pub line_of : ℕ → ℕ
line_of irq_num = if ltb irq_num 8 then irq_num else irq_num - 8

-- `IRQ_set_mask`, for numbers whose shift an `int` holds
unfoldable pub irq_set_mask : ℕ → M Machine (Unit {0})
unfolding inb outb port_of line_of
irq_set_mask irq_num = do
  curr_val ← inb (port_of irq_num)
  outb (bit_or curr_val (2 ^ line_of irq_num)) (port_of irq_num)

-- `IRQ_clear_mask`; the complement is an `int`'s.
unfoldable pub irq_clear_mask : ℕ → M Machine (Unit {0})
unfolding inb outb port_of line_of
irq_clear_mask irq_num = do
  curr_val ← inb (port_of irq_num)
  outb (bit_and curr_val (2 ^ 32 - 1 - 2 ^ line_of irq_num)) (port_of irq_num)

unfoldable pub irq_get_mask : ℕ → M Machine ℕ
unfolding inb port_of line_of
irq_get_mask irq_num = do
  full_mask ← inb (port_of irq_num)
  pure (full_mask / 2 ^ line_of irq_num % 2)

-- `IRQ_get_full_mask` reads one port twice.
unfoldable pub irq_get_full_mask : M Machine ℕ
unfolding inb
irq_get_full_mask = do
  pic1_mask ← inb pic1_data
  pic2_mask ← inb pic1_data
  pure (bit_or (pic1_mask * 2 ^ 8) pic2_mask)

unfoldable pub irq_end_of_interrupt : ℕ → M Machine (Unit {0})
unfolding outb
irq_end_of_interrupt irq = do outb 0x20 pic1; if ltb 8 irq then outb 0x20 pic2 else pure tt

unfoldable pub map_pic : M Machine (Unit {0})
unfolding inb outb
map_pic = do
  a1 ← inb pic1_data
  a2 ← inb pic2_data
  outb (bit_or 0x10 0x01) pic1
  outb (bit_or 0x10 0x01) pic2
  outb 0x20 pic1_data
  outb 0x28 pic2_data
  outb 4 pic1_data
  outb 2 pic2_data
  outb 0x01 pic1_data
  outb 0x01 pic2_data
  outb a1 pic1_data
  outb a2 pic2_data

-- `struct idt_t`
pub record Gate : Type 0 where
  pub target_offset_1 : ℕ
  pub target_selector : ℕ
  pub ist : ℕ
  pub res_1 : ℕ
  pub gate_type : ℕ
  pub zero_bit : ℕ
  pub dpl : ℕ
  pub present : ℕ
  pub target_offset_2 : ℕ
  pub target_offset_3 : ℕ
  pub res_2 : ℕ

-- `interrupt_desc_table` and `load_idt_struct`
pub record Idt : Type 0 where
  pub interrupt_desc_table : ℕ → Gate
  pub size : ℕ
  pub idt_address : ℕ

-- the body of the loop of `setup_idt`
unfoldable pub set_gate : ℕ → ℕ → Gate → Gate
set_gate ist_address ist_index g = record g {
  target_offset_1 = ist_address % 2 ^ 16;
  target_offset_2 = ist_address / 2 ^ 16 % 2 ^ 16;
  target_offset_3 = ist_address / 2 ^ 32 % 2 ^ 32;
  target_selector = 0b1000;
  ist =
      if ist_index == 14 then 3 else if ist_index == 13 then 2 else if ist_index == 8 then 1 else 0;
  present = 1;
  zero_bit = 0;
  gate_type = 0xe;
  dpl = 0;
}

-- The loop, with the number of rounds that are left.
unfoldable pub set_gates : ℕ → (ℕ → ℕ) → ℕ → (ℕ → Gate) → ℕ → Gate
unfolding set_gate
set_gates zero isr_func_table ist_index table = table
set_gates (suc rounds) isr_func_table ist_index table =
    set_gates rounds isr_func_table (ist_index + 1) (λ i.
      if i == ist_index then set_gate (isr_func_table ist_index) ist_index (table i) else table i)

-- `setup_idt`; `table_address` is where the linker puts the table.
unfoldable pub setup_idt : (isr_func_table : ℕ → ℕ) → (table_address : ℕ) → Idt → M Machine Idt
unfolding map_pic set_gates
setup_idt isr_func_table table_address idt = do
  map_pic
  pure (record idt {
    interrupt_desc_table = set_gates 256 isr_func_table 0 idt.interrupt_desc_table;
    idt_address = table_address;
    size = 256 * 16 - 1;
  })
