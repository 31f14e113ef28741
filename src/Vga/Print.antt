-- ===== src/Vga/Print.antt =====
-- src/c/vga_api.c: printing characters and strings.
use mathlib.Core.Path.{subst}
use implement_os.Prelude.{
  ℕ, zero, suc, ◌+◌, ◌<◌, ◌≡◌, refl, sym, ap, ◌∙◌, inl, inr, arith, leb, ◌==◌, if◌then◌else◌, Bool,
  true, false, Bool-cases, some, List, [], ◌∷◌, length,
}
use implement_os.Machine.{Machine, cli, sti}
use implement_os.Strings.{Bytes}
use implement_os.Strings.Text.{IsText}
use implement_os.Vga.{
  Vga, max_col, max_row, token, make_room, new_line, place, display_plain, erase, display_char,
  display_from, display_str,
}
use implement_os.Vga.Display.{IsOnScreen, Inside, Placed, behind_cursor, make_room_lem, place_lem}

-- what every print leaves: a cursor on the screen, memory outside it and the interrupt flag
pub record Printed (v v' : Vga) : Type 0 where
  pub on_screen : IsOnScreen v'
  pub inside : Inside v v'
  pub log_kept : v'.machine.log ≡ v.machine.log
  pub interrupts_kept : v'.machine.interrupts ≡ v.machine.interrupts

pub Printed-trans : {u v w : Vga} → Printed u v → Printed v w → Printed u w
Printed-trans p q = record {
  on_screen = q.on_screen;
  inside = λ a le. q.inside a le ∙ p.inside a le;
  log_kept = q.log_kept ∙ p.log_kept;
  interrupts_kept = q.interrupts_kept ∙ p.interrupts_kept;
}

-- the state after `cli`, and after `sti` with what `cli` returned
abbrev off : Vga → Vga
off v = record v { machine = record v.machine { interrupts = false } }

abbrev on : Bool → Vga → Vga
on b v = record v { machine = if b then record v.machine { interrupts = true } else v.machine }

-- What is printed between `cli` and `sti` is printed.
bracket : (b : Bool) {v w : Vga} → v.machine.interrupts ≡ b → Printed (off v) w → Printed v (on b w)
bracket true e p = record {
  on_screen = p.on_screen;
  inside = p.inside;
  log_kept = p.log_kept;
  interrupts_kept = sym e;
}
bracket false e p = record {
  on_screen = p.on_screen;
  inside = p.inside;
  log_kept = p.log_kept;
  interrupts_kept = p.interrupts_kept ∙ sym e;
}

make_room-Printed : (v : Vga) → IsOnScreen v → Printed v (make_room v)
make_room-Printed v h =
    let (r, k, i, m) = make_room_lem v h in
    record {
      on_screen = (omega (arith, r), omega (arith, k, h.1));
      inside = i;
      log_kept = ap (λ (t : Machine). t.log) m;
      interrupts_kept = ap (λ (t : Machine). t.interrupts) m;
    }

placed : (c : ℕ) (v : Vga) → IsOnScreen v → Placed c (make_room v) (place c (make_room v))
placed c v h =
    let (r, k, i, m) = make_room_lem v h in place_lem c (make_room v) r (omega (arith, k, h.1))

Placed-Printed : {c : ℕ} {v w : Vga} → Placed c v w → Printed v w
Placed-Printed p = record {
  on_screen = (omega (arith, p.on_row), p.on_col);
  inside = p.inside;
  log_kept = ap (λ (t : Machine). t.log) p.machine_kept;
  interrupts_kept = ap (λ (t : Machine). t.interrupts) p.machine_kept;
}

display_plain-Printed : (c : ℕ) (v : Vga) → IsOnScreen v → Printed v (display_plain c v).1
unfolding display_plain cli sti
display_plain-Printed c v h =
    bracket v.machine.interrupts refl
      (Printed-trans (make_room-Printed (off v) h) (Placed-Printed (placed c (off v) h)))

new_line-Printed : (v : Vga) → v.current_row < max_row → Printed v (new_line v)
unfolding new_line
new_line-Printed v h = record {
  on_screen = (omega arith, omega arith);
  inside = λ a le. refl;
  log_kept = refl;
  interrupts_kept = refl;
}

four_spaces :
    (v : Vga)
    → IsOnScreen v
    → let one = λ (u : Vga). (display_plain b' ' u).1 in Printed v (one (one (one (one v))))
four_spaces v h =
    let p1 = display_plain-Printed b' ' v h in
    let p2 = display_plain-Printed b' ' _ p1.on_screen in
    let p3 = display_plain-Printed b' ' _ p2.on_screen in
    let p4 = display_plain-Printed b' ' _ p3.on_screen in
    Printed-trans p1 (Printed-trans p2 (Printed-trans p3 p4))

-- `VGA_display_char` of any character
pub display_char-Printed : (c : ℕ) (v : Vga) → IsOnScreen v → Printed v (display_char c v).1
unfolding display_char cli sti
display_char-Printed c v h =
    let room = make_room-Printed (off v) h in
    elim (Bool-cases (c == b'\n')) [
      | inl e ↦ rw e (
          bracket v.machine.interrupts refl
            (Printed-trans room (new_line-Printed _ (make_room_lem (off v) h).0)))
      | inr e ↦ elim (Bool-cases (c == b'\t')) [
        | inl f ↦
            rw (e, f)
              (bracket v.machine.interrupts refl
                (Printed-trans room (four_spaces _ room.on_screen)))
        | inr f ↦
            rw (e, f)
              (bracket v.machine.interrupts refl
                (Printed-trans room (Placed-Printed (placed c (off v) h))))
      ]
    ]

-- After VGA_display_char of a character that is neither a line break nor a tab, with the cursor
-- on the screen or at the start of the row below it, that character's token stands in the cell
-- behind the cursor, also when the row or the whole screen was full and the screen has been
-- scrolled.
pub display_char-stands :
    (c : ℕ) (v : Vga)
    → IsOnScreen v
    → (c == b'\n') ≡ false
    → (c == b'\t') ≡ false
    → (display_char c v).1.vga_buff (behind_cursor (display_char c v).1) ≡ token c
unfolding display_char cli sti
display_char-stands c v h e f = rw (e, f) (placed c (off v) h).stands

display_plain-row : (c : ℕ) (v : Vga) → IsOnScreen v → (display_plain c v).1.current_row < max_row
unfolding display_plain cli sti
display_plain-row c v h = (placed c (off v) h).on_row

-- Only a line break leaves the cursor below the screen.
pub display_char-row :
    (c : ℕ) (v : Vga)
    → IsOnScreen v
    → (c == b'\n') ≡ false
    → (display_char c v).1.current_row < max_row
unfolding display_char cli sti
display_char-row c v h e = elim (Bool-cases (c == b'\t')) [
  | inr f ↦ rw (e, f) (placed c (off v) h).on_row
  | inl f ↦
      let room = make_room-Printed (off v) h in
      let p1 = display_plain-Printed b' ' (make_room (off v)) room.on_screen in
      let p2 = display_plain-Printed b' ' _ p1.on_screen in
      let p3 = display_plain-Printed b' ' _ p2.on_screen in
      rw (e, f) (display_plain-row b' ' _ p3.on_screen)
]

display_from-Printed :
    (fuel str offset : ℕ) (m : Bytes) (xs : List ℕ) (v : Vga)
    → IsText m (str + offset) xs
    → length xs < fuel
    → IsOnScreen v
    → (v' : Vga) × (display_from fuel str offset m v ≡ some (offset + length xs, v')) × Printed v v'
unfolding display_from
display_from-Printed zero str offset m xs v t h s = absurd (omega arith)
display_from-Printed (suc fuel) str offset m [] v t h s = (
  v,
  stops ∙ ap (λ k. some (k, v)) (omega arith),
  record { on_screen = s; inside = λ a le. refl; log_kept = refl; interrupts_kept = refl },
)
  where
    stops : display_from (suc fuel) str offset m v ≡ some (offset, v)
    stops = ground arith
display_from-Printed (suc fuel) str offset m (x ∷ xs) v t h s =
    let p = display_char-Printed (m (str + offset)) v s in
    let text : IsText m (str + (offset + 1)) xs = subst (λ a. IsText m a xs) (omega arith) t.2 in
    let (v', runs, q) =
      display_from-Printed fuel str (offset + 1) m xs (display_char (m (str + offset)) v).1 text
        (omega arith) p.on_screen in
    (v', goes ∙ runs ∙ ap (λ k. some (k, v')) (omega arith), Printed-trans p q)
  where
    goes :
        display_from (suc fuel) str offset m v
        ≡ display_from fuel str (offset + 1) m (display_char (m (str + offset)) v).1
    goes = let z : (m (str + offset) == 0) ≡ false = ground (arith, t.0, t.1) in rw z

-- VGA_display_str of a text, with fuel above its length and the cursor on the screen or at the
-- start of the row below it, ends and returns the text's length; the cursor is again there,
-- nothing outside the screen's memory has been written, and the log of the ports and the
-- interrupt flag are kept.
pub display_str-Printed :
    (fuel str : ℕ) (m : Bytes) (xs : List ℕ) (v : Vga)
    → IsText m str xs
    → length xs < fuel
    → IsOnScreen v
    → (v' : Vga) × (display_str fuel str m v ≡ some (length xs, v')) × Printed v v'
unfolding display_str
display_str-Printed fuel str m xs v t h s =
    let (v', runs, p) =
      display_from-Printed fuel str 0 m xs v (subst (λ a. IsText m a xs) (omega arith) t) h s in
    (v', runs ∙ ap (λ k. some (k, v')) (omega arith), p)

-- `VGA_erase` with the cursor in a row
pub erase-Printed :
    (v : Vga)
    → v.current_row < max_row
    → v.current_col < max_col
    → Printed v (erase v).1 × ((erase v).1.current_row < max_row)
unfolding erase cli sti
erase-Printed v hr hc = elim (Bool-cases (leb 3 v.current_col)) [
  | inl e ↦ rw e (
    bracket v.machine.interrupts refl (record {
      on_screen = (omega (arith), omega arith);
      inside = λ a le. ground arith;
      log_kept = refl;
      interrupts_kept = refl;
    }),
    hr,
  )
  | inr e ↦ rw e (
    bracket v.machine.interrupts refl (record {
      on_screen = (omega (arith), omega arith);
      inside = λ a le. ground arith;
      log_kept = refl;
      interrupts_kept = refl;
    }),
    hr,
  )
]
