-- ===== src/PageTable/Entry.antt =====
-- src/c/page_table.c: one entry of a page table, a 64-bit word, and the functions on its bits.
use Prim.Native.Nat.{bit_and, bit_or}
use implement_os.Prelude.{ℕ, ◌-◌, ◌/◌, ◌%◌, ◌^◌, Bool, if◌then◌else◌}

-- `*pt |= 1 << bit_index` and `*pt &= ~(1 << bit_index)`
unfoldable pub modify_bit : ℕ → ℕ → Bool → ℕ
modify_bit pt bit_index val =
    if val then bit_or pt (2 ^ bit_index) else bit_and pt (2 ^ 64 - 1 - 2 ^ bit_index)

unfoldable pub read_bit : ℕ → ℕ → ℕ
read_bit pt bit_index = pt / 2 ^ bit_index % 2

-- `PML_clear`
abbrev pub clear : ℕ → ℕ
clear pml = 0

unfoldable pub set_present : ℕ → Bool → ℕ
unfolding modify_bit
set_present pml p = modify_bit pml 0 p

unfoldable pub is_present : ℕ → ℕ
unfolding read_bit
is_present pml = read_bit pml 0

unfoldable pub set_rw : ℕ → Bool → ℕ
unfolding modify_bit
set_rw pml rw_bit = modify_bit pml 1 rw_bit

unfoldable pub set_us : ℕ → Bool → ℕ
unfolding modify_bit
set_us pml us = modify_bit pml 2 us

unfoldable pub set_allocatable : ℕ → Bool → ℕ
unfolding modify_bit
set_allocatable pml a = modify_bit pml 52 a

unfoldable pub is_allocatable : ℕ → ℕ
unfolding read_bit
is_allocatable pml = read_bit pml 52

-- bits 12 to 51
abbrev pub address_mask : ℕ
address_mask = 0xffffffffff000

unfoldable pub set_add : ℕ → ℕ → ℕ
set_add pml add = bit_or pml (bit_and add address_mask)

unfoldable pub get_add : ℕ → ℕ
get_add pml = bit_and address_mask pml
