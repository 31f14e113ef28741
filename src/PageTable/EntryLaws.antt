-- ===== src/PageTable/EntryLaws.antt =====
-- src/c/page_table.c: what the functions on a page-table entry do to each of its bits, and the
-- exact words that the kernel stores.
use Prim.Native.Nat.{bit_and}
use mathlib.Core.Path.{subst}
use native.Mathlib.Nat.{pow-le-pow_right}
use implement_os.Prelude.{
  ℕ, ◌+◌, ◌-◌, ◌*◌, ◌/◌, ◌%◌, ◌^◌, ◌<◌, ◌≡◌, refl, ◌∙◌, ap, Bool, true, false, arith, if◌then◌else◌,
  ◌==◌, inl, inr, Bool-cases,
}
use implement_os.Prelude.Bits.{
  digit-bit_or, digit-bit_and, digit-pow_self, digit-pow_ne, digit-complement, bit_or-zero,
  zero-bit_or, bit_or-halves, bit_and-halves, bit_and_low, ones-bit_and, bit_and-shift,
}
use implement_os.PageTable.{mapped_entry, reserved_entry, freed_entry}
use implement_os.PageTable.Entry.{
  modify_bit, read_bit, set_present, set_rw, set_us, set_allocatable, is_present, is_allocatable,
  set_add, get_add, address_mask,
}

abbrev pub bit_of : Bool → ℕ
bit_of b = if b then 1 else 0

pow_lt : (i : ℕ) → i < 64 → 2 ^ i < 2 ^ 64
pow_lt i h = omega (arith, pow-le-pow_right {n = 2} (omega arith) {i = i} {j = 63} (omega arith))

-- For bits below 64, read_bit after modify_bit of one bit gives the value that was set for that
-- bit and the entry's own bit for every other.
pub read_bit-modify_bit :
    (x i j : ℕ) (val : Bool)
    → i < 64
    → j < 64
    → read_bit (modify_bit x i val) j ≡ (if i == j then bit_of val else read_bit x j)
unfolding modify_bit read_bit
read_bit-modify_bit x i j true hi hj = elim (Bool-cases (i == j)) [
  | inl e ↦
      let p : i ≡ j = ground arith in
      rw (e, ← p) (omega (arith, digit-bit_or i x (2 ^ i), digit-pow_self i))
  | inr e ↦ rw e (omega (arith, digit-bit_or j x (2 ^ i), digit-pow_ne i j (ground arith)))
]
read_bit-modify_bit x i j false hi hj =
    let small : 2 ^ i < 2 ^ 64 = pow_lt i hi in
    let meet = digit-bit_and j x (2 ^ 64 - 1 - 2 ^ i) in
    let flip = digit-complement 64 (2 ^ i) j small hj in
    elim (Bool-cases (i == j)) [
      | inl e ↦
          let p : i ≡ j = ground arith in
          rw (e, ← p)
            (omega (
              arith,
              digit-bit_and i x (2 ^ 64 - 1 - 2 ^ i),
              digit-complement 64 (2 ^ i) i small hi,
              digit-pow_self i,
            ))
      | inr e ↦ rw e (omega (arith, meet, flip, digit-pow_ne i j (ground arith)))
    ]

-- a page's address: aligned, and below `2 ^ 52`
abbrev pub IsFrame : ℕ → Type 0
IsFrame a = (a % 2 ^ 12 ≡ 0) × (a < 2 ^ 52)

pub mask-frame : (a : ℕ) → IsFrame a → (bit_and address_mask a ≡ a) × (bit_and a address_mask ≡ a)
mask-frame a h =
    let b : ℕ = a / 2 ^ 12 in
    let whole : b * 2 ^ 12 ≡ a = omega arith in
    let left : bit_and ((2 ^ 40 - 1) * 2 ^ 12) (b * 2 ^ 12) ≡ b * 2 ^ 12 =
      bit_and-shift 12 (2 ^ 40 - 1) b ∙ ap (λ t. t * 2 ^ 12) (ones-bit_and 40 b (omega arith)) in
    let right : bit_and (b * 2 ^ 12) ((2 ^ 40 - 1) * 2 ^ 12) ≡ b * 2 ^ 12 =
      bit_and-shift 12 b (2 ^ 40 - 1) ∙ ap (λ t. t * 2 ^ 12) (bit_and_low 40 0 b (omega arith)) in
    (
      subst (λ t. bit_and address_mask t ≡ t) whole left,
      subst (λ t. bit_and t address_mask ≡ t) whole right,
    )

-- Each step of the word of a mapped page.
module _ {a : ℕ} (h : IsFrame a) where
  pub with_address : set_add 0 a ≡ a
  unfolding set_add
  with_address = zero-bit_or (bit_and a address_mask) ∙ (mask-frame a h).1

  not_allocatable : set_allocatable a false ≡ a
  unfolding set_allocatable
  not_allocatable = bit_and_low 52 (2 ^ 12 - 2) a h.1

  pub with_present : set_present a true ≡ a + 1
  unfolding set_present
  with_present = omega (arith, bit_or-halves a 1, bit_or-zero (a / 2))

  with_us : set_us (a + 1) true ≡ a + 5
  unfolding set_us
  with_us =
      let h0 = bit_or-halves (a + 1) 4 in
      let h1 = bit_or-halves ((a + 1) / 2) 2 in
      let h2 = bit_or-halves ((a + 1) / 2 / 2) 1 in
      omega (arith, h0, h1, h2, bit_or-zero ((a + 1) / 2 / 2 / 2))

  with_rw : set_rw (a + 5) true ≡ a + 7
  unfolding set_rw
  with_rw =
      let h0 = bit_or-halves (a + 5) 2 in
      let h1 = bit_or-halves ((a + 5) / 2) 1 in omega (arith, h0, h1, bit_or-zero ((a + 5) / 2 / 2))

  -- The entry of a mapped page is its address with the three low bits set.
  pub mapped_entry-frame : mapped_entry a ≡ a + 7
  mapped_entry-frame = rw (with_address, not_allocatable, with_present, with_us, with_rw)

  pub flags_masked : bit_and address_mask (a + 7) ≡ a
  flags_masked =
      let m : ℕ = 0x1fffffffffe00 in
      let h0 = bit_and-halves address_mask (a + 7) in
      let h1 = bit_and-halves (address_mask / 2) ((a + 7) / 2) in
      let h2 = bit_and-halves (address_mask / 2 / 2) ((a + 7) / 2 / 2) in
      let top : bit_and m ((a + 7) / 2 / 2 / 2) ≡ bit_and m (a / 8) =
        ap (bit_and m) (omega arith) in
      let whole : a / 8 * 2 ^ 3 ≡ a = omega arith in
      let shifted : bit_and address_mask a ≡ bit_and m (a / 8) * 8 =
        subst (λ t. bit_and address_mask t ≡ bit_and m (a / 8) * 8) whole
          (bit_and-shift 3 m (a / 8)) in
      omega (arith, h0, h1, h2, top, shifted, (mask-frame a h).0)

  -- The entry that PT_can_allocate stores for a page-aligned frame below 2^52 is present, is
  -- not allocatable and leads to that frame.
  pub mapped_entry_lem :
      (is_present (mapped_entry a) ≡ 1)
      × (is_allocatable (mapped_entry a) ≡ 0)
      × (get_add (mapped_entry a) ≡ a)
  unfolding is_present is_allocatable get_add
  mapped_entry_lem = rw mapped_entry-frame (omega arith, omega arith, flags_masked)

-- A reserved entry is absent and allocatable, a freed one is neither.
pub reserved_entry_lem : (is_present reserved_entry ≡ 0) × (is_allocatable reserved_entry ≡ 1)
unfolding is_present is_allocatable set_allocatable set_add set_present
reserved_entry_lem = (refl, refl)

pub freed_entry_lem : freed_entry ≡ 0
unfolding set_us set_rw set_allocatable set_add set_present
freed_entry_lem = refl
