-- ===== src/Printk.antt =====
-- src/c/vga_api.c: `_printk`, the formatted printing. The variadic arguments are 64-bit slots, and
-- where the compiler puts the array of a conversion is a parameter; the printing itself, `print_c_f`
-- and `print_str_f`, is an interface that the screen fills.
pub mod Number
pub mod Format
pub mod Steps
pub mod Refine
pub mod Screen
use implement_os.Prelude.{
  ℕ, zero, suc, ◌+◌, ◌-◌, ◌%◌, ◌^◌, ◌||◌, Bool, Option, none, some, ltb, leb, ◌==◌, if◌then◌else◌,
}
use implement_os.Strings.{Bytes, to_string, strlen}
use implement_os.Vga.{Vga, display_char, display_str}

-- `print_c_f` and `print_str_f`; a string is printed with fuel for its characters.
pub record Printer (S : Type 0) : Type 0 where
  pub print_c : ℕ → S → ℕ × S
  pub print_str : ℕ → (str : ℕ) → Bytes → S → Option (ℕ × S)

-- the state of the loop: the memory, `*args`, `c_count` and what has been printed
pub record Printing (S : Type 0) : Type 0 where
  pub memory : Bytes
  pub next_arg : ℕ
  pub c_count : ℕ
  pub printed : S

-- a `w`-bit pattern as a `long`
abbrev pub widen : (w : ℕ) → ℕ → ℕ
widen w i = if leb (2 ^ (w - 1)) (i % 2 ^ w) then i % 2 ^ w + (2 ^ 64 - 2 ^ w) else i % 2 ^ w

-- The number that a conversion without a length gives to `to_string`, and its base.
unfoldable pub plain_number : (c i : ℕ) → Option (ℕ × ℕ)
plain_number c i =
    if c == b'd' || c == b'u'
    then some (i % 2 ^ 64, 10)
    else if c == b'x' || c == b'p'
    then some (i % 2 ^ 64, 16)
    else if c == b'b'
    then some (i % 2 ^ 64, 2)
    else none

-- the same behind `h`, `l` and `q`
unfoldable pub sized_number : (size c i : ℕ) → Option (ℕ × ℕ)
sized_number size c i =
    let w : ℕ = if size == b'h' then 16 else if size == b'q' then 8 else 64 in
    if c == b'd'
    then some (widen w i, 10)
    else if c == b'u'
    then some (i % 2 ^ w, 10)
    else if c == b'x'
    then some (i % 2 ^ w, 16)
    else none

abbrev pub is_size : ℕ → Bool
is_size c = c == b'h' || (c == b'l' || c == b'q')

-- The number of characters in the array of a conversion, with its length or 0 for none.
unfoldable pub array_size : (size c : ℕ) → ℕ
array_size size c =
    if size == b'h'
    then (if c == b'd' then 6 else if c == b'u' then 5 else 4)
    else if size == b'l'
    then (if c == b'd' then 21 else if c == b'u' then 20 else 8)
    else if size == b'q'
    then (if c == b'd' then 4 else if c == b'u' then 3 else 2)
    else if c == b'd'
    then 20
    else if c == b'u'
    then 10
    else if c == b'x'
    then 11
    else if c == b'p'
    then 8
    else 64

module _ {S : Type 0} (p : Printer S) (fuel : ℕ) (array : (size c : ℕ) → ℕ) (args : ℕ → ℕ) where
  -- `va_arg`
  abbrev pub take_arg : Printing S → Printing S
  take_arg t = record t { next_arg = t.next_arg + 1 }

  -- `c_count += print_c_f(c)`
  unfoldable pub put : ℕ → Printing S → Printing S
  put c t = let (n, s) = p.print_c c t.printed in record t { c_count = t.c_count + n; printed = s }

  -- `c_count += print_str_f(str)`
  unfoldable pub put_str : ℕ → Printing S → Option (Printing S)
  put_str str t = elim (p.print_str fuel str t.memory t.printed) [
    | none ↦ none
    | some (n, s) ↦ some (record t { c_count = t.c_count + n; printed = s })
  ]

  -- A number goes to the array of its conversion as a text, and is printed from there. `none` is also
  -- a text that, with its zero byte, is longer than the array: what becomes of the stack around the
  -- array is the compiler's.
  unfoldable pub put_number : (room s i base : ℕ) → Printing S → Option (Printing S)
  put_number room s i base t = elim (to_string fuel i s base t.memory) [
    | none ↦ none
    | some m ↦ elim (strlen fuel s m) [
      | none ↦ none
      | some n ↦ if ltb n room then put_str s (record t { memory = m }) else none
    ]
  ]

  -- `%` and the character behind it, where that is no length
  unfoldable pub convert : ℕ → Printing S → Option (Printing S)
  convert c t =
      let i = args t.next_arg in
      if c == b'%' then some (put b'%' t) else elim (plain_number c i) [
        | some (v, base) ↦ put_number (array_size 0 c) (array 0 c) v base (take_arg t)
        | none ↦
            if c == b'c'
            then some (put (i % 2 ^ 8) (take_arg t))
            else if c == b's'
            then put_str i (take_arg t)
            else some (put c (put b'%' t))
      ]

  -- `%`, a length and the character behind it; what is unknown is shown, and for `h` as `x`.
  unfoldable pub convert_sized : (size c : ℕ) → Printing S → Option (Printing S)
  convert_sized size c t = elim (sized_number size c (args t.next_arg)) [
    | some (v, base) ↦ put_number (array_size size c) (array size c) v base (take_arg t)
    | none ↦ some (put c (put (if size == b'h' then b'x' else size) (put b'%' t)))
  ]

  -- The loop, with fuel for its rounds.
  unfoldable pub print_from : ℕ → (fmt : ℕ) → Printing S → Option (Printing S)
  print_from zero fmt t = none
  print_from (suc rounds) fmt t =
      let c = t.memory fmt in
      let c1 = t.memory (fmt + 1) in
      let plain = print_from rounds (fmt + 1) (put c t) in
      let sized : Option (Printing S) = elim (convert_sized c1 (t.memory (fmt + 2)) t) [
        | none ↦ none
        | some t' ↦ print_from rounds (fmt + 3) t'
      ] in
      let short : Option (Printing S) = elim (convert c1 t) [
        | none ↦ none
        | some t' ↦ print_from rounds (fmt + 2) t'
      ] in
      if c == 0 then some t else if c == b'%' then (if is_size c1 then sized else short) else plain

  -- `_printk` from its first argument on: what it returns, with the memory and what it has printed
  unfoldable pub vprintk : ℕ → (fmt : ℕ) → Bytes → S → Option (ℕ × Bytes × S)
  vprintk rounds fmt m s =
      elim (print_from rounds fmt (record { memory = m; next_arg = 0; c_count = 0; printed = s })) [
        | none ↦ none
        | some t ↦ some (t.c_count, t.memory, t.printed)
      ]

-- `VGA_display_char` and `VGA_display_str`
abbrev pub screen : Printer Vga
screen = record { print_c = display_char; print_str = display_str }
