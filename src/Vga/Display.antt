-- ===== src/Vga/Display.antt =====
-- src/c/vga_api.c: where the cursor may be, and what printing does to the cells of the screen.
use implement_os.Prelude.{
  ℕ, ◌+◌, ◌-◌, ◌*◌, ◌%◌, ◌^◌, ◌<◌, ◌≤◌, ◌≡◌, refl, ap, ◌∙◌, inl, inr, arith, ltb, leb, ◌==◌,
  if◌then◌else◌, Bool, true, false, Bool-cases,
}
use implement_os.Strings.Blocks.{within}
use implement_os.Vga.{
  Vga, max_col, max_row, vga_offset, token, clear_row, scroll, make_room, place, write_glyph,
  advance,
}
use implement_os.Vga.Screen.{clear_cells_lem, scroll_rows_lem}

abbrev pub cell_count : ℕ
cell_count = max_col * max_row

-- The cursor is in a row, or at the start of the one below the screen.
abbrev pub IsOnScreen : Vga → Type 0
IsOnScreen v = (v.current_row ≤ max_row) × (v.current_col < max_col)

-- Nothing outside the screen's memory has been written.
abbrev pub Inside : Vga → Vga → Type 0
Inside v v' = (a : ℕ) → cell_count ≤ a → v'.vga_buff a ≡ v.vga_buff a

scroll_lem :
    (v : Vga) (a : ℕ)
    → (scroll v).vga_buff a
      ≡ (if ltb a (cell_count - max_col) then v.vga_buff (a + max_col) else v.vga_buff a)
unfolding scroll
scroll_lem v a = scroll_rows_lem (max_row - 1) 1 v.vga_buff a (omega arith) ∙ ground arith

clear_row_lem :
    (row : ℕ) (v : Vga) (a : ℕ)
    → (clear_row row v).vga_buff a
      ≡ (if within (vga_offset 0 row) max_col a then 0 else v.vga_buff a)
unfolding clear_row
clear_row_lem row v a = clear_cells_lem max_col (vga_offset 0 row) v.vga_buff a

pub make_room_lem :
    (v : Vga)
    → IsOnScreen v
    → ((make_room v).current_row < max_row)
      × ((make_room v).current_col ≡ v.current_col)
      × Inside v (make_room v)
      × ((make_room v).machine ≡ v.machine)
unfolding make_room clear_row scroll
make_room_lem v h = elim (Bool-cases (v.current_row == max_row)) [
  | inl e ↦ rw e (
    ground arith,
    refl,
    λ a le. ground (
      arith,
      scroll_lem v a,
      clear_cells_lem max_col (vga_offset 0 (v.current_row - 1)) (scroll v).vga_buff a,
    ),
    refl,
  )
  | inr e ↦ rw e (ground arith, refl, λ a le. refl, refl)
]

-- The cell behind the cursor: the last one of the row above when the cursor starts a row.
abbrev pub behind_cursor : Vga → ℕ
behind_cursor v = vga_offset v.current_col v.current_row - 1

-- the screen after a character has been placed on it
pub record Placed (c : ℕ) (v v' : Vga) : Type 0 where
  pub on_row : v'.current_row < max_row
  pub on_col : v'.current_col < max_col
  pub inside : Inside v v'
  pub stands : v'.vga_buff (behind_cursor v') ≡ token c
  pub machine_kept : v'.machine ≡ v.machine

cleared_keeps :
    (b : Bool) (v : Vga)
    → let v1 = if b then clear_row v.current_row v else v in
      (v1.current_row ≡ v.current_row) × (v1.current_col ≡ v.current_col) × (v1.machine ≡ v.machine)
unfolding clear_row
cleared_keeps true v = (refl, refl, refl)
cleared_keeps false v = (refl, refl, refl)

cleared-Inside :
    (b : Bool) (v : Vga)
    → v.current_row < max_row
    → Inside v (if b then clear_row v.current_row v else v)
cleared-Inside true v h a le = clear_row_lem v.current_row v a ∙ ground arith
cleared-Inside false v h a le = refl

written_lem :
    (c : ℕ) (v : Vga)
    → v.current_row < max_row
    → v.current_col < max_col
    → ((write_glyph c v).current_row ≡ v.current_row)
      × ((write_glyph c v).current_col ≡ v.current_col)
      × ((write_glyph c v).machine ≡ v.machine)
      × Inside v (write_glyph c v)
      × ((write_glyph c v).vga_buff (vga_offset v.current_col v.current_row) ≡ token c)
written_lem c v hr hc =
    let (r, k, m) = cleared_keeps (v.current_col == 0) v in
    (
      r,
      k,
      m,
      λ a le. ground (arith, r, k, cleared-Inside (v.current_col == 0) v hr a le),
      ground (arith, r, k),
    )

scroll_keeps :
    (v : Vga)
    → ((scroll v).current_row ≡ v.current_row)
      × ((scroll v).current_col ≡ v.current_col)
      × ((scroll v).machine ≡ v.machine)
unfolding scroll
scroll_keeps v = (refl, refl, refl)

-- Moving the cursor on keeps it on the screen and the cell it was at behind it.
advance_lem :
    (c : ℕ) (v : Vga)
    → v.current_row < max_row
    → v.current_col < max_col
    → v.vga_buff (vga_offset v.current_col v.current_row) ≡ token c
    → Placed c v (advance v)
unfolding advance
advance_lem c v hr hc t = elim (Bool-cases (leb max_col ((v.current_col + 1) % 2 ^ 8))) [
  | inl e ↦ elim (Bool-cases (ltb (v.current_row + 1) max_row)) [
    | inl f ↦
        rw (e, f)
          (record {
            on_row = ground arith;
            on_col = ground arith;
            inside = λ a le. refl;
            stands = ap v.vga_buff (ground arith) ∙ t;
            machine_kept = refl;
          })
    | inr f ↦
        let w : Vga = record v { current_col = 0 } in
        let (r, k, m) = scroll_keeps w in
        let f24 : v.current_row ≡ 24 = ground arith in
        rw (e, f)
          (record {
            on_row = omega (arith, r);
            on_col = omega (arith, k);
            inside = λ a le. scroll_lem w a ∙ ground arith;
            stands =
                ap (scroll w).vga_buff (omega (arith, r, k, f24))
                ∙ scroll_lem w (vga_offset 79 23)
                ∙ ap v.vga_buff (ground arith)
                ∙ t;
            machine_kept = m;
          })
  ]
  | inr e ↦ rw e (record {
    on_row = hr;
    on_col = ground arith;
    inside = λ a le. refl;
    stands = ap v.vga_buff (ground arith) ∙ t;
    machine_kept = refl;
  })
]

pub place_lem :
    (c : ℕ) (v : Vga) → v.current_row < max_row → v.current_col < max_col → Placed c v (place c v)
unfolding place
place_lem c v hr hc =
    let (r, k, m, i, t) = written_lem c v hr hc in
    let p =
      advance_lem c (write_glyph c v) (omega (arith, r)) (omega (arith, k))
        (ap (write_glyph c v).vga_buff (omega (arith, r, k)) ∙ t) in
    record {
      on_row = p.on_row;
      on_col = p.on_col;
      inside = λ a le. p.inside a le ∙ i a le;
      stands = p.stands;
      machine_kept = p.machine_kept ∙ m;
    }
