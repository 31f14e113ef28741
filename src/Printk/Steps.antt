-- ===== src/Printk/Steps.antt =====
-- src/c/vga_api.c: the rounds of the loop of `_printk`.
use implement_os.Prelude.{ℕ, suc, ◌+◌, ◌≡◌, ◌≢◌, ap, arith, true, false, some, ◌==◌}
use implement_os.Printk.{
  Printer, Printing, array_size, plain_number, sized_number, is_size, put, put_number, take_arg,
  convert, convert_sized, print_from,
}

-- A conversion to a number is known.
pub plain_number-known :
    (c i v base : ℕ)
    → plain_number c i ≡ some (v, base)
    → (is_size c ≡ false) × ((c == b'%') ≡ false)
unfolding plain_number
plain_number-known c i v base e = ground arith

module _ {S : Type 0} (p : Printer S) (fuel : ℕ) (array : ℕ → ℕ → ℕ) (args : ℕ → ℕ) where
  pub from_plain :
      (rounds a c : ℕ) (t : Printing S)
      → t.memory a ≡ c
      → c ≢ 0
      → c ≢ b'%'
      → print_from p fuel array args (suc rounds) a t
        ≡ print_from p fuel array args rounds (a + 1) (put p fuel array args c t)
  unfolding print_from
  from_plain rounds a c t e nz np =
      let z : (t.memory a == 0) ≡ false = ground arith in
      let q : (t.memory a == b'%') ≡ false = ground arith in
      rw (z, q)
        (ap (λ k. print_from p fuel array args rounds (a + 1) (put p fuel array args k t)) e)

  pub from_short :
      (rounds a c : ℕ) (t t' : Printing S)
      → t.memory a ≡ b'%'
      → t.memory (a + 1) ≡ c
      → is_size c ≡ false
      → convert p fuel array args c t ≡ some t'
      → print_from p fuel array args (suc rounds) a t
        ≡ print_from p fuel array args rounds (a + 2) t'
  unfolding print_from
  from_short rounds a c t t' e f size runs = rw (e, f, size, runs)

  pub from_sized :
      (rounds a size c : ℕ) (t t' : Printing S)
      → t.memory a ≡ b'%'
      → t.memory (a + 1) ≡ size
      → t.memory (a + 2) ≡ c
      → is_size size ≡ true
      → convert_sized p fuel array args size c t ≡ some t'
      → print_from p fuel array args (suc rounds) a t
        ≡ print_from p fuel array args rounds (a + 3) t'
  unfolding print_from
  from_sized rounds a size c t t' e f g is runs = rw (e, f, g, is, runs)

  pub convert-number :
      (c v base : ℕ) (t : Printing S)
      → plain_number c (args t.next_arg) ≡ some (v, base)
      → convert p fuel array args c t
        ≡ put_number p fuel array args
            (array_size 0 c)
            (array 0 c)
            v
            base
            (take_arg p fuel array args t)
  unfolding convert
  convert-number c v base t e = rw ((plain_number-known c (args t.next_arg) v base e).1, e)

  pub convert_sized-number :
      (size c v base : ℕ) (t : Printing S)
      → sized_number size c (args t.next_arg) ≡ some (v, base)
      → convert_sized p fuel array args size c t
        ≡ put_number p fuel array args
            (array_size size c)
            (array size c)
            v
            base
            (take_arg p fuel array args t)
  unfolding convert_sized
  convert_sized-number size c v base t e = rw (convert_sized, e)
