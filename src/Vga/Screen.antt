-- ===== src/Vga/Screen.antt =====
-- src/c/vga_api.c: what the loops on the screen's cells leave in each of them.
use implement_os.Prelude.{
  ℕ, zero, suc, ◌+◌, ◌-◌, ◌*◌, ◌≤◌, ◌≡◌, ◌∙◌, inl, arith, ◌==◌, if◌then◌else◌,
}
use implement_os.Strings.{memcpy}
use implement_os.Strings.Blocks.{within, memcpy_lem}
use implement_os.Vga.{clear_cells, scroll_rows, max_col, vga_offset}

pub clear_cells_lem :
    (n offset : ℕ) (cells : ℕ → ℕ) (a : ℕ)
    → clear_cells n offset cells a ≡ (if within offset n a then 0 else cells a)
unfolding clear_cells
clear_cells_lem zero offset cells a = ground arith
clear_cells_lem (suc n) offset cells a =
    clear_cells_lem n (offset + 1) (λ b. if b == offset then 0 else cells b) a ∙ ground arith

abbrev moved_row : ℕ → (ℕ → ℕ) → ℕ → ℕ
moved_row p cells a = if within (vga_offset 0 p) max_col a then cells (a + max_col) else cells a

copied :
    (row : ℕ) (cells : ℕ → ℕ)
    → 1 ≤ row
    → (b : ℕ)
    → memcpy (vga_offset 0 (row - 1)) (vga_offset 0 row) max_col cells b
      ≡ moved_row (row - 1) cells b
copied row cells h b =
    memcpy_lem (vga_offset 0 (row - 1)) (vga_offset 0 row) max_col cells b (inl (omega arith))
    ∙ ground arith

joined :
    (rounds p row : ℕ) (cells moved : ℕ → ℕ) (a : ℕ)
    → row ≡ p + 1
    → ((b : ℕ) → moved b ≡ moved_row p cells b)
    → (if within (vga_offset 0 (row + 1 - 1)) (rounds * max_col) a
        then moved (a + max_col)
        else moved a)
      ≡ (if within (vga_offset 0 p) (suc rounds * max_col) a then cells (a + max_col) else cells a)
joined rounds p row cells moved a h c = ground (arith, c a, c (a + max_col))

-- From `row` on, each row comes to stand where the one above it stood.
pub scroll_rows_lem :
    (rounds row : ℕ) (cells : ℕ → ℕ) (a : ℕ)
    → 1 ≤ row
    → scroll_rows rounds row cells a ≡ (
        if within (vga_offset 0 (row - 1)) (rounds * max_col) a
        then cells (a + max_col)
        else cells a)
unfolding scroll_rows
scroll_rows_lem zero row cells a h = ground arith
scroll_rows_lem (suc rounds) row cells a h =
    let moved : ℕ → ℕ = memcpy (vga_offset 0 (row - 1)) (vga_offset 0 row) max_col cells in
    scroll_rows_lem rounds (row + 1) moved a (omega arith)
    ∙ joined rounds (row - 1) row cells moved a (omega arith) (copied row cells h)
