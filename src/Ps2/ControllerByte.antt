-- ===== src/Ps2/ControllerByte.antt =====
-- src/c/ps2.c: the bit fields of `struct ControllerByte`, in their order, by their bits.
use implement_os.Prelude.{ℕ}
use implement_os.Prelude.Words.{set_field}

pub data ControllerField : Type 0 where
  port_1_interrupt port_2_interrupt sys_flag zero1 : ControllerField
  port_1_clock port_2_clock port_1_translation zero2 : ControllerField

abbrev pub controller_bit : ControllerField → ℕ
controller_bit port_1_interrupt = 0
controller_bit port_2_interrupt = 1
controller_bit sys_flag = 2
controller_bit zero1 = 3
controller_bit port_1_clock = 4
controller_bit port_2_clock = 5
controller_bit port_1_translation = 6
controller_bit zero2 = 7

abbrev pub set_controller : ControllerField → (value byte : ℕ) → ℕ
set_controller f value byte = set_field (controller_bit f) 1 value byte
