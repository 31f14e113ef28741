-- ===== src/Lib.antt =====
-- Implement-OS, a small x86-64 kernel in C under src/c: its memory management, page tables, heap,
-- boot information, segment descriptors, serial driver, keyboard controller, interrupt set-up, text
-- console and C library routines.
--
-- How the parts interact. src/c/memory_manager.c keeps the free physical pages; src/c/page_table.c
-- reserves virtual pages and takes a frame from it when a page is first touched. src/c/serial.c puts
-- bytes into the ring of src/c/buffer.c and sends them through a port. src/c/console.c shows keys on
-- the screen of src/c/vga_api.c, and src/c/ps2.c reads them from their controller.
-- src/c/multiboot_parser.c tells the memory manager what memory there is, and src/c/allocator.c cuts
-- the page tables' pages into blocks. The page tables, the serial driver and the screen turn interrupts
-- off around their work and on again through src/c/lib.c.
--
-- Which file models which part, each with a definition for each C function, by the function's name
-- without its prefix:
--   Machine     the ports and the interrupt flag: outb, inb, cli and sti of src/c/lib.c
--   Buffer      src/c/buffer.c; Buffer/Queue is the queue that it stands for
--   Serial      src/c/serial.c; Serial/Line is the line that it stands for
--   Memory      src/c/memory_manager.c: PRE_add_allocated_span is add_allocated_span, MEM_pf_alloc
--               pf_alloc, and so on
--   PageTable   src/c/page_table.c: PT_can_allocate is can_allocate, MMU_alloc_page alloc_page;
--               PageTable/Entry has the functions on one entry,
--               PageTable/Walk the tables that PT_init makes
--   Strings     src/c/lib.c: memset, memcpy, strlen, strcpy, strcmp, strchr and to_string
--   Interrupts  src/c/interrupts.c: IRQ_set_mask is irq_set_mask, map_PIC map_pic, and setup_idt
--   Dispatch    src/c/interrupts.c: generic_interrupt_handler is handle
--   Vga         src/c/vga_api.c: VGA_display_char is display_char, VGA_erase erase
--   Console     src/c/console.c: CON_key_action is key_action
--   Heap        src/c/allocator.c: kmalloc and kfree; a pointer to a pool is one more than its index
--   Multiboot   src/c/multiboot_parser.c: parse_tag, parse_elf, parse_mem_map; MUL_parse is parse,
--               and Multiboot/Names has parse_cmd and parse_boot_name
--   Gdt         src/c/gdt.c: setup_gdt and load_gdt; Gdt/Fields and Gdt/SystemFields are the bit fields
--   Printk      _printk of src/c/vga_api.c, by the two printing functions that it is given; Printk/Format
--               is what a format says
--   Terminal    printk, printkln and the VGA_print functions of src/c/vga_api.c, on the screen and
--               through the port, and SER_interrupt of src/c/serial.c
--   Ps2         src/c/ps2.c: PS2_setup_keyboard is setup_keyboard; Ps2/Protocol is the protocol that the
--               controller asks for
--   Start       src/c/main.c: kmain up to sti(1) is start, in the parts welcome, start_memory and
--               start_devices
-- Prelude has the shared names, Boolean tests, lists with native indices, bit operations and the
-- state monads. The Tests modules apply the theorems to concrete states.
--
-- How C is written here. Globals are fields of a record that each function takes and returns. A
-- number is a natural number with its wrap-around written out where the source can wrap. Memory is a
-- function from addresses to bytes (Strings) or to eight-byte words at aligned addresses (Memory,
-- PageTable). What a device answers to a read of a port is a parameter, a function of everything
-- read and written before. The addresses of the arrays in which _printk puts numbers, of p3_table, of
-- the stubs, and of the tables and stacks of src/c/gdt.c, and what stands in memory behind the key table
-- are parameters too. The boot information is in the memory of the memory manager.
--
-- Fuel. A loop that the source does not bound takes fuel and gives none when it runs out: the search
-- for a free page, the loop that adds a space, the loops that run to a zero byte, the digits of a
-- number, the walks over a pool's free blocks and over the tags, and the polling of the keyboard
-- controller. The theorems give the fuel that is enough: the pages up to the limit, the text's
-- length, the number itself, the number of blocks or tags, or the polls after which the controller is
-- ready. Loops with a fixed number of rounds recurse on the rounds that are left.
--
-- Not modelled: the assembly (boot, interrupt stubs, loading of tables), the messages that the memory
-- manager, the page tables, the heap and the boot information parser print, the interrupt that
-- MMU_alloc_page raises when its gigabyte is used up, and the trial of the heap at the end of kmain of
-- src/c/main.c, which runs with interrupts on. What follows the interrupt that MEM_pf_alloc raises is
-- what it leaves when the interrupt returns. A number whose text is longer than the array that _printk
-- has for it ends the model's run.
pub mod Prelude
pub mod Machine
pub mod Buffer
pub mod Serial
pub mod Memory
pub mod Multiboot
pub mod PageTable
pub mod Ps2
pub mod Printk
pub mod Start
pub mod Terminal
pub mod Dispatch
pub mod Heap
pub mod Strings
pub mod Vga
pub mod Console
pub mod Gdt
pub mod Interrupts
