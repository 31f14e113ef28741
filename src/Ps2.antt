-- ===== src/Ps2.antt =====
-- src/c/ps2.c: the keyboard controller, polled through its status register. A wait has no bound but
-- the device's answers, so it takes fuel.
pub mod ControllerByte
pub mod Protocol
pub mod Setup
pub mod Keyboard
mod Tests
use implement_os.Prelude.{
  ℕ, zero, suc, ◌/◌, ◌%◌, ◌^◌, Bool, Option, none, some, ◌==◌, if◌then◌else◌,
}
use ControllerByte.{set_controller, port_1_interrupt, port_2_interrupt, port_1_clock, port_2_clock}
use implement_os.Prelude.Fallible.{Io, pure, ◌>>=◌, ◌>>◌}
use implement_os.Machine.{Machine, inb, outb}
use implement_os.Console.{Console, key_action}

abbrev pub data_port : ℕ
data_port = 0x60

abbrev pub status_reg : ℕ
status_reg = 0x64

abbrev pub command_reg : ℕ
command_reg = 0x64

-- `o_buf_status` and `i_buf_status` of `struct StatusRegister`
abbrev pub o_buf_status : ℕ → ℕ
o_buf_status port_content = port_content % 2

abbrev pub i_buf_status : ℕ → ℕ
i_buf_status port_content = port_content / 2 % 2

unfoldable pub read_status : Machine → ℕ × Machine
unfolding inb
read_status m = inb status_reg m

unfoldable pub wait_for_write : ℕ → Io Machine (Unit {0})
unfolding read_status
wait_for_write zero m = none
wait_for_write (suc fuel) m =
    let (port_content, m') = read_status m in
    let rest = wait_for_write fuel m' in
    if i_buf_status port_content == 1 then rest else some (tt, m')

unfoldable pub wait_for_read : ℕ → Io Machine (Unit {0})
unfolding read_status
wait_for_read zero m = none
wait_for_read (suc fuel) m =
    let (port_content, m') = read_status m in
    let rest = wait_for_read fuel m' in
    if o_buf_status port_content == 1 then some (tt, m') else rest

unfoldable pub read_data : ℕ → Io Machine ℕ
unfolding inb
read_data fuel = do wait_for_read fuel; λ m. some (inb data_port m)

unfoldable pub write_command : ℕ → ℕ → Io Machine (Unit {0})
unfolding outb
write_command fuel command = do wait_for_write fuel; λ m. some (outb command command_reg m)

unfoldable pub write_data : ℕ → ℕ → Io Machine (Unit {0})
unfolding outb
write_data fuel data_byte = do wait_for_write fuel; λ m. some (outb data_byte data_port m)

-- `PS2_keyboard_interrupt`
unfoldable pub keyboard_interrupt : ℕ → (beyond : ℕ → ℕ) → Console → Option Console
keyboard_interrupt fuel beyond s = elim (read_data fuel s.vga.machine) [
  | none ↦ none
  | some (scancode, m) ↦
      some (key_action beyond scancode (record s { vga = record s.vga { machine = m } }))
]

-- what `PS2_setup_keyboard` makes of `struct ControllerByte`
unfoldable pub configured : ℕ → ℕ
configured c_b = set_controller port_2_clock 0 (
    set_controller port_1_clock 1
      (set_controller port_2_interrupt 0 (set_controller port_1_interrupt 1 c_b)))

-- `PS2_setup_keyboard` up to the answer to the test
unfoldable pub test_controller : ℕ → Io Machine ℕ
test_controller fuel = do
  write_command fuel 0xad
  write_command fuel 0xa7
  write_command fuel 0x20
  c_b ← read_data fuel
  write_command fuel 0x60
  write_data fuel (configured c_b)
  write_command fuel 0xaa
  read_data fuel

-- and behind the test
unfoldable pub enable_keyboard : ℕ → Io Machine (Unit {0})
enable_keyboard fuel = do
  write_command fuel 0xae
  write_data fuel 0xf0
  write_data fuel 0x2
  write_data fuel 0xf4
  write_data fuel 0xf0
  write_data fuel 0x0
  pure tt

-- A state that the machine is part of, with the action that prints that the test has failed.
pub record Host (S : Type 0) : Type 0 where
  pub machine_of : S → Machine
  pub put_machine : S → Machine → S
  pub report : S → Option S

-- `PS2_setup_keyboard`
unfoldable pub setup_keyboard : {S : Type 0} → Host S → ℕ → S → Option S
setup_keyboard h fuel s = elim (test_controller fuel (h.machine_of s)) [
  | none ↦ none
  | some (resp, m) ↦
      let tested = h.put_machine s m in
      let told = if resp == 0x55 then some tested else h.report tested in
      elim told [
        | none ↦ none
        | some s' ↦ elim (enable_keyboard fuel (h.machine_of s')) [
          | none ↦ none
          | some (done, m') ↦ some (h.put_machine s' m')
        ]
      ]
]

-- The rounds of `poll_keyboard`, which has no end: the action on each scancode that arrives.
unfoldable pub poll_keyboard :
    {S : Type 0} → ℕ → (key_action_func : ℕ → S → S) → (rounds : ℕ) → S → Io Machine S
unfolding read_data
poll_keyboard fuel key_action_func zero s m = some (s, m)
poll_keyboard fuel key_action_func (suc rounds) s m = elim (read_data fuel m) [
  | none ↦ none
  | some (scancode, m') ↦ poll_keyboard fuel key_action_func rounds (key_action_func scancode s) m'
]
