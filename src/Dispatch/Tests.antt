-- ===== src/Dispatch/Tests.antt =====
-- src/c/interrupts.c: the interrupt of the second controller's fifth line, with the message `A`.
use implement_os.Prelude.{true, false, none, [], replicate, ◌==◌, if◌then◌else◌}
use implement_os.Serial.{send}
use implement_os.Dispatch.{Kernel, Setting}

abbrev setting : Setting
setting = record {
  fuel = 10;
  rounds = 10;
  array = λ size c. 1000;
  beyond = λ i. 0;
  p3_table = 0x1000;
  format = λ isr_code. 100;
  args = λ isr_code i. 0;
}

abbrev kernel : Kernel
kernel = record {
  console = record {
    is_capslock = false;
    is_left_shift = false;
    is_right_shift = false;
    vga = record {
      vga_buff = λ a. 0;
      current_row = 25;
      current_col = 0;
      machine = record { device = λ log port. 0x20; log = []; interrupts = true };
    };
  };
  port = record {
    serial_buffer = record {
      buff = replicate 33 7;
      prod_index = 1;
      cons_index = 32;
      consume_func = send;
    };
    machine = record { device = λ log port. 0; log = []; interrupts = true };
  };
  mmu = record {
    curr_pml1_index = 0;
    curr_pml2_index = 0;
    curr_pml3_index = 1;
    curr_stack_pml1_index = 511;
    curr_stack_pml2_index = 512;
    curr_stack_pml3_index = 1;
    memory = record {
      structure = record {
        allocated_addresses = [];
        allocated_sizes = [];
        current_allocated_index = none;
        start_address = 0;
        address_space_size = 0;
      };
      free_pages = record { page_head = 0; page_tail = 0; count = 0 };
      words = λ a. 0;
      raised = [];
    };
    machine = record { device = λ log port. 0; log = []; interrupts = true };
  };
  memory = λ a. if a == 100 then b'A' else 0;
}
