-- ===== src/Gdt/Tests.antt =====
-- src/c/gdt.c: the tables for stacks and a task segment at concrete addresses.
use implement_os.Prelude.{arith}
use implement_os.Gdt.{Layout, Tables, setup_gdt}
use implement_os.Gdt.Descriptors.{IsReady, setup_gdt-IsReady}

abbrev layout : Layout
layout = record {
  ist1_stack = 0x10b000;
  ist2_stack = 0x10c000;
  ist3_stack = 0x10d000;
  tss_address = 0x10e000;
  gdt_address = 0x10f000;
}

abbrev tables : Tables
tables = record { gdt = λ i. 7; tss = λ i. 7; load_size = 0; load_address = 0 }

setup_gdt-IsReady_example : IsReady layout (setup_gdt layout tables)
setup_gdt-IsReady_example =
    setup_gdt-IsReady layout tables (omega arith) (omega arith) (omega arith) (omega arith)
