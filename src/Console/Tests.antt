-- ===== src/Console/Tests.antt =====
-- A key of src/c/console.c with the cursor in the last row.
use implement_os.Prelude.{[], arith, true, false}
use implement_os.Vga.Print.{Printed}
use implement_os.Console.{Console, key_action}
use implement_os.Console.Keys.{IsInRow, key_action-Kept}

abbrev console : Console
console = record {
  is_capslock = false;
  is_left_shift = true;
  is_right_shift = false;
  vga = record {
    vga_buff = λ a. 0;
    current_row = 24;
    current_col = 79;
    machine = record { device = λ log port. 0; log = []; interrupts = true };
  };
}

-- the return key
key_action-Kept_example :
    Printed console.vga (key_action (λ i. 0) 0x1c console).vga
    × IsInRow (key_action (λ i. 0) 0x1c console).vga
key_action-Kept_example = key_action-Kept (λ i. 0) 0x1c console (omega arith, omega arith)
