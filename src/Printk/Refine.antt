-- ===== src/Printk/Refine.antt =====
-- src/c/vga_api.c: `_printk` prints what its format says.
use mathlib.Core.Path.{subst}
use implement_os.Prelude.{
  ℕ, zero, suc, ◌+◌, ◌%◌, ◌^◌, ◌<◌, ◌≤◌, ◌≡◌, refl, sym, ◌∙◌, arith, true, some, List, [], ◌∷◌,
  ◌++◌, length, ◌==◌, ltb,
}
use implement_os.Strings.{Bytes}
use implement_os.Strings.Text.{IsText, strlen-length}
use implement_os.Printk.{
  Printer, Printing, array_size, plain_number, put, put_str, put_number, take_arg, convert,
  print_from, vprintk,
}
use implement_os.Printk.Number.{Denotes, to_string-Spells}
use implement_os.Printk.Format.{
  Piece, plain, percent, character, number, sized, text, IsPrintable, IsFormat, Says,
  IsPlain-number, IsSized-number,
}
use implement_os.Printk.Steps.{
  plain_number-known, from_plain, from_short, from_sized, convert-number, convert_sized-number,
}

-- What a printer promises, with what `R` says that printing a text does: it can be done in parts,
-- and a string is printed to its end.
pub record IsPrinter {S : Type 0} (p : Printer S) (R : List ℕ → S → S → Type 0) : Type 0 where
  pub nothing : (s : S) → R [] s s
  pub parts : (xs ys : List ℕ) (s t u : S) → R xs s t → R ys t u → R (xs ++ ys) s u
  pub one : (c : ℕ) (s : S) → R (c ∷ []) s (p.print_c c s).1
  pub prints :
      (fuel a : ℕ) (m : Bytes) (xs : List ℕ) (s : S)
      → IsText m a xs
      → length xs < fuel
      → (n : ℕ) × (s' : S) × (p.print_str fuel a m s ≡ some (n, s')) × R xs s s'

-- the same bytes below an address
abbrev pub Agrees : (limit : ℕ) → Bytes → Bytes → Type 0
Agrees limit m m' = (b : ℕ) → b < limit → m' b ≡ m b

IsText-Agrees :
    (limit a : ℕ) {m m' : Bytes} (xs : List ℕ)
    → Agrees limit m m'
    → a + length xs < limit
    → IsText m a xs
    → IsText m' a xs
IsText-Agrees limit a [] same lt t = same a (omega arith) ∙ t
IsText-Agrees limit a (x ∷ xs) same lt t =
    (same a (omega arith) ∙ t.0, t.1, IsText-Agrees limit (a + 1) xs same (omega arith) t.2)

module _ {S : Type 0} (p : Printer S) (R : List ℕ → S → S → Type 0) (h : IsPrinter p R) (fuel : ℕ)
    (array : ℕ → ℕ → ℕ) (args : ℕ → ℕ) where
  -- what printing a text leaves
  record Put (limit : ℕ) (m : Bytes) (xs : List ℕ) (t t' : Printing S) : Type 0 where
    pub printed : R xs t.printed t'.printed
    pub next_arg : t'.next_arg ≡ t.next_arg
    pub agrees : Agrees limit m t'.memory

  put_str_lem :
      (limit str : ℕ) (m : Bytes) (xs : List ℕ) (t : Printing S)
      → Agrees limit m t.memory
      → IsText t.memory str xs
      → length xs < fuel
      → (t' : Printing S) × (put_str p fuel array args str t ≡ some t') × Put limit m xs t t'
  unfolding put_str
  put_str_lem limit str m xs t same is lt =
      let (n, s', runs, shown) = h.prints fuel str t.memory xs t.printed is lt in
      (
        record t { c_count = t.c_count + n; printed = s' },
        rw (put_str, runs),
        record { printed = shown; next_arg = refl; agrees = same },
      )

  put_number_lem :
      (limit room s v base : ℕ) (m : Bytes) (t : Printing S)
      → Agrees limit m t.memory
      → limit ≤ s
      → IsPrintable fuel room v base
      → (t' : Printing S) × (ds : List ℕ) × (put_number p fuel array args room s v base t ≡ some t')
        × Put limit m ds t t'
        × Denotes base v ds
  unfolding put_number
  put_number_lem limit room s v base m t same above ok =
      let (m', ds, runs, spells) =
        to_string-Spells base s (omega arith) (omega arith) fuel v t.memory ok.1 (omega arith) in
      let enough : ltb (length ds) room ≡ true = ground (arith, spells.fits room ok.4) in
      let (t', puts', put') =
        put_str_lem limit s m ds (record t { memory = m' })
          (λ b lt. spells.below b (omega arith) ∙ same b lt) spells.text
          (omega (arith, spells.short)) in
      (
        t',
        ds,
        rw
            (
              put_number,
              runs,
              strlen-length fuel s m' ds spells.text (omega (arith, spells.short)),
              enough,
            )
            puts',
        record { printed = put'.printed; next_arg = put'.next_arg; agrees = put'.agrees },
        spells.denotes,
      )

  -- what the loop is to do with the rest of a format
  abbrev pub Prints : (limit : ℕ) → Bytes → (rounds a : ℕ) → Printing S → List Piece → Type 0
  Prints limit m rounds a t ps =
      (xs : List ℕ) × (t' : Printing S) × (print_from p fuel array args rounds a t ≡ some t')
      × Says args t.next_arg ps xs
      × R xs t.printed t'.printed
      × Agrees limit m t'.memory

  -- A piece is printed, and then the rest of the format.
  Prints-then :
      (limit rounds rounds' a b : ℕ) (m : Bytes) (xs : List ℕ) (t t1 : Printing S)
      (ps ps' : List Piece)
      → print_from p fuel array args rounds a t ≡ print_from p fuel array args rounds' b t1
      → R xs t.printed t1.printed
      → ((ys : List ℕ) → Says args t1.next_arg ps' ys → Says args t.next_arg ps (xs ++ ys))
      → Prints limit m rounds' b t1 ps'
      → Prints limit m rounds a t ps
  Prints-then limit rounds rounds' a b m xs t t1 ps ps' step shown says
        (ys, t', runs, rest, out, same) =
      (
        xs ++ ys,
        t',
        step ∙ runs,
        says ys rest,
        h.parts xs ys t.printed t1.printed t'.printed shown out,
        same,
      )

  -- The loop prints what the rest of the format says.
  pub print_from-Says :
      (rounds limit a : ℕ) (m : Bytes) (ps : List Piece) (t : Printing S)
      → ((size c : ℕ) → limit ≤ array size c)
      → Agrees limit m t.memory
      → IsFormat fuel limit m args t.next_arg a ps
      → length ps < rounds
      → Prints limit m rounds a t ps
  unfolding print_from convert put plain_number
  print_from-Says zero limit a m ps t above same f lt = absurd (omega arith)
  print_from-Says (suc rounds) limit a m [] t above same f lt =
      let z : (t.memory a == 0) ≡ true = ground (arith, same a f.0, f.1) in
      ([], t, rw (print_from, z), refl, h.nothing t.printed, same)
  print_from-Says (suc rounds) limit a m (plain c ∷ ps) t above same f lt =
      let (inside, at, nz, np, rest) = f in
      Prints-then limit (suc rounds) rounds a (a + 1) m (c ∷ []) t (put p fuel array args c t)
        (plain c ∷ ps) ps (from_plain p fuel array args rounds a c t (same a inside ∙ at) nz np)
        (h.one c t.printed) (λ ys s. (ys, refl, s))
        (print_from-Says rounds limit (a + 1) m ps (put p fuel array args c t) above same rest
          (omega arith))
  print_from-Says (suc rounds) limit a m (percent ∷ ps) t above same f lt =
      let (inside, at, at1, rest) = f in
      let t1 = put p fuel array args b'%' t in
      Prints-then limit (suc rounds) rounds a (a + 2) m (b'%' ∷ []) t t1 (percent ∷ ps) ps
        (from_short p fuel array args rounds a b'%' t t1 (same a (omega arith) ∙ at)
          (same (a + 1) inside ∙ at1) refl refl)
        (h.one b'%' t.printed) (λ ys s. (ys, refl, s))
        (print_from-Says rounds limit (a + 2) m ps t1 above same rest (omega arith))
  print_from-Says (suc rounds) limit a m (character ∷ ps) t above same f lt =
      let (inside, at, at1, rest) = f in
      let c = args t.next_arg % 2 ^ 8 in
      let t1 = put p fuel array args c (take_arg p fuel array args t) in
      Prints-then limit (suc rounds) rounds a (a + 2) m (c ∷ []) t t1 (character ∷ ps) ps
        (from_short p fuel array args rounds a b'c' t t1 (same a (omega arith) ∙ at)
          (same (a + 1) inside ∙ at1) refl refl)
        (h.one c t.printed) (λ ys s. (ys, refl, s))
        (print_from-Says rounds limit (a + 2) m ps t1 above same rest (omega arith))
  print_from-Says (suc rounds) limit a m (number c v base ∷ ps) t above same f lt =
      let (inside, at, at1, meant, ok, rest) = f in
      let is = IsPlain-number (args t.next_arg) c v base meant in
      let (t1, ds, runs, put', denotes) =
        put_number_lem limit (array_size 0 c) (array 0 c) v base m (take_arg p fuel array args t)
          same (above 0 c) ok in
      Prints-then limit (suc rounds) rounds a (a + 2) m ds t t1 (number c v base ∷ ps) ps
        (from_short p fuel array args rounds a c t t1 (same a (omega arith) ∙ at)
          (same (a + 1) inside ∙ at1) (plain_number-known c (args t.next_arg) v base is).0
          (convert-number p fuel array args c v base t is ∙ runs))
        put'.printed
        (λ ys s. (ds, ys, refl, denotes, subst (λ i. Says args i ps ys) put'.next_arg s))
        (print_from-Says rounds limit (a + 2) m ps t1 above put'.agrees
          (subst (λ i. IsFormat fuel limit m args i (a + 2) ps) (sym put'.next_arg) rest)
          (omega arith))
  print_from-Says (suc rounds) limit a m (sized size c v base ∷ ps) t above same f lt =
      let (inside, at, at1, at2, meant, ok, rest) = f in
      let (is, size') = IsSized-number (args t.next_arg) size c v base meant in
      let (t1, ds, runs, put', denotes) =
        put_number_lem limit (array_size size c) (array size c) v base m
          (take_arg p fuel array args t) same (above size c) ok in
      Prints-then limit (suc rounds) rounds a (a + 3) m ds t t1 (sized size c v base ∷ ps) ps
        (from_sized p fuel array args rounds a size c t t1 (same a (omega arith) ∙ at)
          (same (a + 1) (omega arith) ∙ at1) (same (a + 2) inside ∙ at2) size'
          (convert_sized-number p fuel array args size c v base t is ∙ runs))
        put'.printed
        (λ ys s. (ds, ys, refl, denotes, subst (λ i. Says args i ps ys) put'.next_arg s))
        (print_from-Says rounds limit (a + 3) m ps t1 above put'.agrees
          (subst (λ i. IsFormat fuel limit m args i (a + 3) ps) (sym put'.next_arg) rest)
          (omega arith))
  print_from-Says (suc rounds) limit a m (text ts ∷ ps) t above same f lt =
      let (inside, at, at1, is, short, below, rest) = f in
      let (t1, runs, put') =
        put_str_lem limit (args t.next_arg) m ts (take_arg p fuel array args t) same
          (IsText-Agrees limit (args t.next_arg) ts same below is) short in
      Prints-then limit (suc rounds) rounds a (a + 2) m ts t t1 (text ts ∷ ps) ps
        (from_short p fuel array args rounds a b's' t t1 (same a (omega arith) ∙ at)
          (same (a + 1) inside ∙ at1) refl runs)
        put'.printed (λ ys s. (ys, refl, subst (λ i. Says args i ps ys) put'.next_arg s))
        (print_from-Says rounds limit (a + 2) m ps t1 above put'.agrees
          (subst (λ i. IsFormat fuel limit m args i (a + 2) ps) (sym put'.next_arg) rest)
          (omega arith))

  -- `_printk` from its first argument on
  pub vprintk-Says :
      (rounds limit fmt : ℕ) (m m1 : Bytes) (ps : List Piece) (s : S)
      → ((size c : ℕ) → limit ≤ array size c)
      → Agrees limit m m1
      → IsFormat fuel limit m args 0 fmt ps
      → length ps < rounds
      → (xs : List ℕ) × (n : ℕ) × (m' : Bytes) × (s' : S) × (vprintk p fuel array args rounds fmt m1
            s
          ≡ some (n, m', s'))
        × Says args 0 ps xs
        × R xs s s'
        × Agrees limit m m'
  unfolding vprintk
  vprintk-Says rounds limit fmt m m1 ps s above same f lt =
      let t : Printing S = record { memory = m1; next_arg = 0; c_count = 0; printed = s } in
      let (xs, t', runs, says, shown, same') =
        print_from-Says rounds limit fmt m ps t above same f lt in
      (xs, t'.c_count, t'.memory, t'.printed, rw (vprintk, runs), says, shown, same')
