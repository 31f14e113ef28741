-- ===== src/Printk/Screen.antt =====
-- src/c/vga_api.c: formatted printing on the screen.
use mathlib.Core.Path.{subst}
use implement_os.Prelude.{
  ℕ, zero, suc, ◌+◌, ◌<◌, ◌≡◌, refl, sym, ap, ◌∙◌, arith, true, false, some, List, [], ◌∷◌, ◌++◌,
  length, ◌==◌,
}
use implement_os.Strings.{Bytes}
use implement_os.Strings.Text.{IsText}
use implement_os.Vga.{Vga, display_char, display_from, display_str}
use implement_os.Vga.Display.{IsOnScreen}
use implement_os.Vga.Print.{Printed, Printed-trans, display_char-Printed}
use implement_os.Printk.{Printer, screen}
use implement_os.Printk.Refine.{IsPrinter}

-- characters printed one by one
pub puts : {S : Type 0} → Printer S → List ℕ → S → S
puts p [] s = s
puts p (c ∷ cs) s = puts p cs (p.print_c c s).1

display_from-puts :
    (fuel str offset : ℕ) (m : Bytes) (xs : List ℕ) (v : Vga)
    → IsText m (str + offset) xs
    → length xs < fuel
    → display_from fuel str offset m v ≡ some (offset + length xs, puts screen xs v)
unfolding display_from puts
display_from-puts zero str offset m xs v t h = absurd (omega arith)
display_from-puts (suc fuel) str offset m [] v t h =
    let z : (m (str + offset) == 0) ≡ true = ground (arith, t) in
    rw z (ap (λ k. some (k, v)) (omega arith))
display_from-puts (suc fuel) str offset m (x ∷ xs) v t h =
    let text : IsText m (str + (offset + 1)) xs = subst (λ a. IsText m a xs) (omega arith) t.2 in
    let go : (m (str + offset) == 0) ≡ false = ground (arith, t.0, t.1) in
    rw go (
      display_from-puts fuel str (offset + 1) m xs (display_char (m (str + offset)) v).1 text
        (omega arith)
      ∙ ap (λ k. some (k, puts screen xs (display_char (m (str + offset)) v).1)) (omega arith)
      ∙ ap (λ c. some (offset + suc (length xs), puts screen xs (display_char c v).1)) t.0)

puts-append :
    {S : Type 0} (p : Printer S) (xs ys : List ℕ) (s : S)
    → puts p (xs ++ ys) s ≡ puts p ys (puts p xs s)
unfolding puts
puts-append p [] ys s = refl
puts-append p (x ∷ xs) ys s = puts-append p xs ys (p.print_c x s).1

-- The screen shows the characters one by one.
abbrev pub Shown : List ℕ → Vga → Vga → Type 0
Shown xs v v' = v' ≡ puts screen xs v

pub screen-IsPrinter : IsPrinter screen Shown
unfolding display_str puts
screen-IsPrinter = record {
  nothing = λ v. refl;
  parts = λ xs ys s t u f g. g ∙ ap (puts screen ys) f ∙ sym (puts-append screen xs ys s);
  one = λ c v. refl;
  prints = λ fuel a m xs v t lt. (
    0 + length xs,
    puts screen xs v,
    display_from-puts fuel a 0 m xs v (subst (λ b. IsText m b xs) (omega arith) t) lt,
    refl,
  );
}

pub Printed-refl : (v : Vga) → IsOnScreen v → Printed v v
Printed-refl v h = record {
  on_screen = h;
  inside = λ a le. refl;
  log_kept = refl;
  interrupts_kept = refl;
}

pub puts-Printed : (xs : List ℕ) (v : Vga) → IsOnScreen v → Printed v (puts screen xs v)
unfolding puts
puts-Printed [] v h = Printed-refl v h
puts-Printed (x ∷ xs) v h =
    let p = display_char-Printed x v h in
    Printed-trans p (puts-Printed xs (display_char x v).1 p.on_screen)
