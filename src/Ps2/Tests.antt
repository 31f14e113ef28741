-- ===== src/Ps2/Tests.antt =====
-- src/c/ps2.c: a controller that is ready at every poll, gives 0x47 for its configuration and 0x55 for
-- everything else, and passes its test.
use implement_os.Prelude.{
  ℕ, zero, suc, ◌≡◌, refl, List, [], ◌∷◌, arith, true, false, some, ◌==◌, if◌then◌else◌,
}
use implement_os.Machine.{Machine, Event, wrote, asked}
use implement_os.Console.{Console}
use implement_os.Ps2.{status_reg, Host, setup_keyboard, keyboard_interrupt}
use implement_os.Ps2.Protocol.{polls}
use implement_os.Ps2.Setup.{IsResponsive, IsHost, IsSetUp, setup_keyboard_lem}
use implement_os.Ps2.Keyboard.{Handled, keyboard_interrupt_lem}

-- what answers the last byte that was written
abbrev reply : List Event → ℕ
reply [] = 0x55
reply (asked port ∷ log) = reply log
reply (wrote value port ∷ log) = if value == 0x20 then 0x47 else 0x55

abbrev machine : Machine
machine = record {
  device = λ log port. if port == 0x64 then 1 else reply log;
  log = [];
  interrupts = true;
}

reply-polls : (k : ℕ) (log : List Event) → reply (polls k log) ≡ reply log
reply-polls zero log = refl
reply-polls (suc k) log = reply-polls k (asked status_reg ∷ log)

machine-IsResponsive : IsResponsive machine.device 2
machine-IsResponsive = record {
  takes = λ log. (0, omega arith, refl);
  answers = λ c before asks. (0, omega arith, refl);
  passes = λ k before. omega (arith, reply-polls k (wrote 0xaa 0x64 ∷ before));
}

abbrev alone : Host Machine
alone = record { machine_of = λ m. m; put_machine = λ s m. m; report = λ s. some s }

alone-IsHost : IsHost alone
alone-IsHost = record { holds = λ s m. refl; replaces = λ s m m'. refl }

setup_keyboard_lem_example :
    (m' : Machine) × (setup_keyboard alone 2 machine ≡ some m') × IsSetUp machine m'
setup_keyboard_lem_example = setup_keyboard_lem alone-IsHost 2 machine machine-IsResponsive

abbrev console : Console
console = record {
  is_capslock = false;
  is_left_shift = false;
  is_right_shift = false;
  vga = record { vga_buff = λ a. 0; current_row = 3; current_col = 9; machine = machine };
}

keyboard_interrupt_lem_example :
    (s' : Console) × (keyboard_interrupt 2 (λ i. 0) console ≡ some s') × Handled (λ i. 0) console s'
keyboard_interrupt_lem_example =
    keyboard_interrupt_lem 2 0 (λ i. 0) console (omega arith) refl (omega arith, omega arith)
