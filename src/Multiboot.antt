-- ===== src/Multiboot.antt =====
-- src/c/multiboot_parser.c: the boot information that the loader leaves in memory, of which the
-- kernel reads its own sections and the map of the memory. It is read from the same memory that
-- `PRE_add_address_space` writes the links of free pages to. Where a loop has no bound but the sizes in that memory, it takes fuel.
pub mod Names
pub mod Boot
pub mod Count
pub mod Map
pub mod MapLoop
pub mod Sections
pub mod Tags
mod Tests
use implement_os.Prelude.{
  ℕ, zero, suc, ◌+◌, ◌-◌, ◌*◌, ◌/◌, ◌%◌, ◌^◌, Bool, not, Option, some, none, ltb, leb, ◌==◌,
  if◌then◌else◌,
}
use implement_os.Memory
use implement_os.Memory.{Memory, add_allocated_span, add_address_space}

-- `struct EXX_Regsiters`, as the boot code saved them
pub record Registers : Type 0 where
  pub eax : ℕ
  pub ebx : ℕ

abbrev pub magic : ℕ
magic = 0x36d76289

-- `padd_8` of the 32-bit pattern of an `int`; the remainder of a negative one is negative.
unfoldable pub padd_8 : ℕ → ℕ
padd_8 val =
    if val % 8 == 0
    then val
    else if ltb val (2 ^ 31)
    then (val + (8 - val % 8)) % 2 ^ 32
    else (val + 8 + (2 ^ 32 - val) % 8) % 2 ^ 32

-- where the tag stands, behind the bytes that are consumed
abbrev pub next_tag : (bytes_consumed start : ℕ) → ℕ
next_tag bytes_consumed start = start + bytes_consumed

-- a parser of a tag's contents, given their size and address
abbrev pub Parser : Type 0
Parser = ℕ → ℕ → Memory → Option Memory

-- the `uint32_t` at an address that 4 divides, from the words at the addresses that 8 divides
unfoldable pub word32 : (ℕ → ℕ) → ℕ → ℕ
word32 w ptr = if ptr % 8 == 0 then w ptr % 2 ^ 32 else w (ptr - ptr % 8) / 2 ^ 32 % 2 ^ 32

abbrev pub seen : Memory → ℕ → ℕ
seen m = word32 m.words

-- `*((uint64_t*) ptr)`
abbrev pub word64 : (ℕ → ℕ) → ℕ → ℕ
word64 info ptr = info ptr + info (ptr + 4) * 2 ^ 32

abbrev pub register_section : ℕ → Memory → Memory
register_section ptr m = record m {
  structure =
      add_allocated_span m.structure (word64 (seen m) (ptr + 16)) (word64 (seen m) (ptr + 32));
}

-- The loop of `parse_elf`, with the entries that are left.
unfoldable pub elf_loop : ℕ → ℕ → Memory → Memory
elf_loop zero ptr m = m
elf_loop (suc entries) ptr m = elf_loop entries (ptr + 64) (register_section ptr m)

unfoldable pub parse_elf : Parser
parse_elf size ptr m =
    some (if seen m (ptr + 4) == 64 then elf_loop (seen m ptr) (ptr + 12) m else m)

-- The loop of `parse_mem_map`; `search` is the fuel of each `PRE_add_address_space`.
unfoldable pub map_loop : ℕ → (search size consumed_bytes ptr : ℕ) → Memory → Option Memory
map_loop zero search size consumed_bytes ptr m = none
map_loop (suc fuel) search size consumed_bytes ptr m =
    let added : Option Memory =
      if seen m (ptr + 16) == 1
      then add_address_space search (word64 (seen m) ptr) (word64 (seen m) (ptr + 8)) m
      else some m in
    let rest : Option Memory = elim added [
      | none ↦ none
      | some m' ↦ map_loop fuel search size ((consumed_bytes + 24) % 2 ^ 32) (ptr + 24) m'
    ] in
    if ltb consumed_bytes size then rest else some m

unfoldable pub parse_mem_map : ℕ → Parser
parse_mem_map fuel size ptr m =
    if not (seen m ptr == 24)
    then some m
    else if not (seen m (ptr + 4) == 0)
    then some m
    else map_loop fuel fuel size 8 (ptr + 8) m

-- the first field of `struct Header`
abbrev pub total_size_of : ℕ → Memory → ℕ
total_size_of header_start m = seen m header_start

-- The loop of `parse_tag`, at the address `start`.
unfoldable pub tag_loop :
    ℕ → (tag_type : ℕ) → Parser → (start consumed_bytes : ℕ) → Memory → Option Memory
tag_loop zero tag_type parser start consumed_bytes m = none
tag_loop (suc fuel) tag_type parser start consumed_bytes m =
    let tag = next_tag consumed_bytes start in
    let parsed : Option Memory =
      if seen m tag == tag_type
      then parser ((seen m (tag + 4) + 2 ^ 32 - 8) % 2 ^ 32) (tag + 8) m
      else some m in
    let rest : Option Memory = elim parsed [
      | none ↦ none
      | some m' ↦
          let tag_size = seen m' (tag + 4) in
          tag_loop fuel tag_type parser start ((consumed_bytes + padd_8 tag_size) % 2 ^ 32) m'
    ] in
    if ltb consumed_bytes (total_size_of start m) then rest else some m

unfoldable pub parse_tag : ℕ → (exx : Registers) → (tag_type : ℕ) → Parser → Memory → Option Memory
parse_tag fuel exx tag_type parser m =
    if exx.eax == magic then tag_loop fuel tag_type parser exx.ebx 8 m else some m

-- `MUL_parse`
unfoldable pub parse : ℕ → Registers → Memory → Option Memory
parse fuel exx m = elim (parse_tag fuel exx 9 parse_elf m) [
  | none ↦ none
  | some m' ↦ parse_tag fuel exx 6 (parse_mem_map fuel) m'
]
