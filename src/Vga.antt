-- ===== src/Vga.antt =====
-- src/c/vga_api.c: the text console, a screen of 25 rows of 80 cells with a cursor. A cell is a
-- `short` of `vga_buff`, so the `memcpy` of 160 bytes in `scroll` moves 80 cells.
pub mod Screen
pub mod Display
pub mod Print
mod Tests
use Prim.Native.Nat.{bit_and, bit_or}
use implement_os.Prelude.{
  ℕ, zero, suc, ◌+◌, ◌-◌, ◌*◌, ◌%◌, ◌^◌, Bool, Option, some, none, ltb, leb, ◌==◌, if◌then◌else◌,
}
use implement_os.Prelude.State.{M, pure, ◌>>=◌, ◌>>◌}
use implement_os.Machine.{Machine, cli, sti}
use implement_os.Strings.{Bytes, poke, memcpy, sign_extend}

abbrev pub max_col : ℕ
max_col = 80

abbrev pub max_row : ℕ
max_row = 25

-- `vga_buff`, `current_row`, `current_col` and the machine around them
pub record Vga : Type 0 where
  pub vga_buff : ℕ → ℕ
  pub current_row : ℕ
  pub current_col : ℕ
  pub machine : Machine

abbrev pub vga_offset : ℕ → ℕ → ℕ
vga_offset col row = row * max_col + col

-- `VGA_write_to`
abbrev pub write_to : (col row s : ℕ) → Vga → Vga
write_to col row s v = record v { vga_buff = poke v.vga_buff (vga_offset col row) s }

-- green on black, unless the sign bit of the `char` spreads over the attribute
unfoldable pub token : ℕ → ℕ
token c = bit_or (0x2 * 2 ^ 8) (sign_extend c) % 2 ^ 16

abbrev pub write_char : (col row c : ℕ) → Vga → Vga
write_char col row c = write_to col row (token c)

-- `VGA_write_str`, from a character on; fuel bounds the characters.
unfoldable pub write_str : ℕ → (col row str col_offset row_offset : ℕ) → Bytes → Vga → Option Vga
write_str zero col row str col_offset row_offset m v = none
write_str (suc fuel) col row str col_offset row_offset m v =
    let v' = write_char ((col + col_offset) % 2 ^ 8) ((row + row_offset) % 2 ^ 8) (m str) v in
    let wraps = col_offset + 1 == max_col in
    let rest =
      write_str fuel col row (str + 1) (if wraps then 0 else col_offset + 1)
        (if wraps then row_offset + 1 else row_offset) m v' in
    if m str == 0 then some v else rest

unfoldable pub char_at : (col row : ℕ) → Vga → ℕ
char_at col row v = v.vga_buff (vga_offset col row) % 2 ^ 8

-- The loop of `clear_row` and of `VGA_clear`, with the number of cells that are left.
unfoldable pub clear_cells : ℕ → ℕ → (ℕ → ℕ) → ℕ → ℕ
clear_cells zero offset cells = cells
clear_cells (suc n) offset cells = clear_cells n (offset + 1) (poke cells offset 0)

unfoldable pub clear_row : ℕ → Vga → Vga
clear_row row v = record v { vga_buff = clear_cells max_col (vga_offset 0 row) v.vga_buff }

abbrev pub clear_at : (col row : ℕ) → Vga → Vga
clear_at col row = write_to col row 0

-- the loop of `scroll` from `row` on
unfoldable pub scroll_rows : ℕ → ℕ → (ℕ → ℕ) → ℕ → ℕ
scroll_rows zero row cells = cells
scroll_rows (suc rounds) row cells =
    scroll_rows rounds (row + 1) (memcpy (vga_offset 0 (row - 1)) (vga_offset 0 row) max_col cells)

unfoldable pub scroll : Vga → Vga
scroll v = record v { vga_buff = scroll_rows (max_row - 1) 1 v.vga_buff }

abbrev pub io : {A : Type 0} → M Machine A → M Vga A
io m v = let (a, m') = m v.machine in (a, record v { machine = m' })

-- `VGA_erase`; `current_col - 1 >= 2` is a test on `int`s.
unfoldable pub erase : M Vga (Unit {0})
erase = do
  int_on ← io cli
  λ v.
      let v' = if leb 3 v.current_col then record v { current_col = v.current_col - 1 } else v in
      (tt, clear_at v'.current_col v'.current_row v')
  io (sti int_on)

-- `VGA_clear`
unfoldable pub clear : M Vga (Unit {0})
clear = do
  int_on ← io cli
  λ v. (
    tt,
    record v {
      vga_buff = clear_cells (max_col * max_row) 0 v.vga_buff;
      current_col = 0;
      current_row = 0;
    },
  )
  io (sti int_on)

-- `VGA_display_char` up to its tests of the character: a cursor below the screen scrolls it.
unfoldable pub make_room : Vga → Vga
make_room v =
    if v.current_row == max_row
    then (let v' = scroll v in
        clear_row (v'.current_row - 1) (record v' { current_row = v'.current_row - 1 }))
    else v

unfoldable pub new_line : Vga → Vga
new_line v = record v { current_row = (v.current_row + 1) % 2 ^ 8; current_col = 0 }

-- its part after the tests, first the writing and then the cursor
abbrev pub write_glyph : ℕ → Vga → Vga
write_glyph c v =
    let v1 = if v.current_col == 0 then clear_row v.current_row v else v in
    write_char v1.current_col v1.current_row c v1

unfoldable pub advance : Vga → Vga
advance v =
    let v3 = record v { current_col = (v.current_col + 1) % 2 ^ 8 } in
    if leb max_col v3.current_col
    then (let v4 = record v3 { current_col = 0 } in
        if ltb (v4.current_row + 1) max_row
        then record v4 { current_row = v4.current_row + 1 }
        else scroll v4)
    else v3

unfoldable pub place : ℕ → Vga → Vga
place c v = advance (write_glyph c v)

-- a call of it with a character that is neither a line break nor a tab, such as the four of a tab
unfoldable pub display_plain : ℕ → M Vga ℕ
display_plain c = do int_on ← io cli; λ v. (tt, place c (make_room v)); io (sti int_on); pure 1

-- `VGA_display_char`
unfoldable pub display_char : ℕ → M Vga ℕ
display_char c = do
  int_on ← io cli
  λ v. (tt, make_room v)
  if c == b'\n'
      then (do λ v. (tt, new_line v); io (sti int_on); pure 1)
      else if c == b'\t'
      then (do
        display_plain b' '
        display_plain b' '
        display_plain b' '
        display_plain b' '
        io (sti int_on)
        pure 4)
      else (do λ v. (tt, place c v); io (sti int_on); pure 1)

-- `VGA_display_str` on a string in memory; fuel bounds its characters.
unfoldable pub display_from : ℕ → (str offset : ℕ) → Bytes → Vga → Option (ℕ × Vga)
display_from zero str offset m v = none
display_from (suc fuel) str offset m v =
    let c = m (str + offset) in
    let rest = display_from fuel str (offset + 1) m (display_char c v).1 in
    if c == 0 then some (offset, v) else rest

unfoldable pub display_str : ℕ → ℕ → Bytes → Vga → Option (ℕ × Vga)
display_str fuel str m v = display_from fuel str 0 m v

-- `VGA_display_line`
unfoldable pub display_line : ℕ → ℕ → Bytes → Vga → Option (ℕ × Vga)
display_line fuel str m v = elim (display_str fuel str m v) [
  | none ↦ none
  | some (chars, v') ↦ some (chars + 1, (display_char b'\n' v').1)
]
