-- ===== src/Ps2/Keyboard.antt =====
-- src/c/ps2.c and src/c/console.c: the interrupt of a key, from the controller to the screen.
use implement_os.Prelude.{ℕ, ◌^◌, ◌<◌, ◌≡◌, refl, ◌∙◌, some, [], ◌∷◌}
use implement_os.Prelude.Fallible.{◌>>=◌}
use implement_os.Machine.{Machine}
use implement_os.Vga.Display.{Inside}
use implement_os.Console.{Console, key_action}
use implement_os.Console.Keys.{IsInRow, key_action-Kept}
use implement_os.Ps2.{o_buf_status, read_data, keyboard_interrupt}
use implement_os.Ps2.Protocol.{
  from_data, polls, status, Exchanged, Exchanged-refl, Exchanged-Read, wait_for_read_lem,
}

abbrev pub with_machine : Console → Machine → Console
with_machine s m = record s { vga = record s.vga { machine = m } }

-- what the interrupt leaves: the keys' action of one scancode that the controller gave
pub record Handled (beyond : ℕ → ℕ) (s s' : Console) : Type 0 where
  pub scancode : ℕ
  pub machine : Machine
  pub byte : scancode < 2 ^ 8
  pub action : s' ≡ key_action beyond scancode (with_machine s machine)
  pub exchanged : Exchanged s.vga.machine (from_data scancode ∷ []) machine
  pub in_row : IsInRow s'.vga
  pub inside : Inside s.vga s'.vga
  pub log_kept : s'.vga.machine.log ≡ machine.log
  pub interrupts_kept : s'.vga.machine.interrupts ≡ s.vga.machine.interrupts

-- When the output buffer is full at one of the polls that the fuel allows and the cursor is in
-- a row of the screen, PS2_keyboard_interrupt reads one byte, right after a poll that found the
-- buffer full, and ends with the action of that byte, the one that the device gave, as the
-- scancode; it writes to no port and nothing outside the screen's memory, and leaves the cursor
-- in a row and the interrupt flag as it was.
pub keyboard_interrupt_lem :
    (fuel k : ℕ) (beyond : ℕ → ℕ) (s : Console)
    → k < fuel
    → o_buf_status (status s.vga.machine.device (polls k s.vga.machine.log)) ≡ 1
    → IsInRow s.vga
    → (s' : Console) × (keyboard_interrupt fuel beyond s ≡ some s') × Handled beyond s s'
unfolding keyboard_interrupt read_data ◌>>=◌
keyboard_interrupt_lem fuel k beyond s lt e row =
    let m = s.vga.machine in
    let (j, runs, last) = wait_for_read_lem fuel k m lt e in
    let read = Exchanged-Read j (Exchanged-refl m) last in
    let (p, in_row) = key_action-Kept beyond _ (with_machine s _) row in
    (
      _,
      rw (keyboard_interrupt, runs),
      record {
        scancode = _;
        machine = _;
        byte = read.byte;
        action = refl;
        exchanged = read.exchanged;
        in_row = in_row;
        inside = p.inside;
        log_kept = p.log_kept;
        interrupts_kept = p.interrupts_kept ∙ read.exchanged.interrupts_kept;
      },
    )
