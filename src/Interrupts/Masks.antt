-- ===== src/Interrupts/Masks.antt =====
-- src/c/interrupts.c: what the functions on the interrupt masks leave in the controllers.
use Prim.Native.Nat.{bit_and, bit_or}
use native.Mathlib.Nat.{pow-le-pow_right}
use implement_os.Prelude.{
  zero, suc, ◌-◌, ℕ, ◌%◌, ◌^◌, ◌<◌, ◌≡◌, ◌≢◌, ap, ◌∙◌, List, [], ◌∷◌, Option, some, none, arith,
  ltb, ◌==◌, if◌then◌else◌, inl, inr, Bool-cases,
}
use implement_os.Prelude.Bits.{
  digit, digit-bit_and, digit-bit_or, digit-complement, digit-pow_self, digit-pow_ne,
}
use implement_os.Machine.{Machine, Event, wrote, asked, outb, inb, answer}
use implement_os.Interrupts.{
  pic1_data, pic2_data, port_of, line_of, irq_set_mask, irq_clear_mask, irq_get_mask, map_pic,
}

-- A port whose reads answer what was last written to it, as the controllers' mask registers do
-- once they are set up.
pub record Latches (device : List Event → ℕ → ℕ) (port : ℕ) : Type 0 where
  pub keeps : (l : List Event) (v : ℕ) → device (wrote v port ∷ l) port ≡ v
  pub others : (l : List Event) (v q : ℕ) → q ≢ port → device (wrote v q ∷ l) port ≡ device l port
  pub reads : (l : List Event) (q : ℕ) → device (asked q ∷ l) port ≡ device l port

-- the value that was last written to a port
unfoldable pub last_written : ℕ → List Event → Option ℕ
last_written port [] = none
last_written port (wrote v q ∷ l) =
    let rest = last_written port l in if q == port then some v else rest
last_written port (asked q ∷ l) = last_written port l

-- The last value that map_PIC writes to each controller's data port is the mask that it read
-- there first.
pub map_pic-masks :
    (m : Machine)
    → (last_written pic1_data (map_pic m).1.log ≡ some (answer m pic1_data))
      × (last_written pic2_data (map_pic m).1.log ≡ some (answer (inb pic1_data m).1 pic2_data))
unfolding map_pic last_written
map_pic-masks m = (ap some (omega arith), ap some (omega arith))

low_digit : (y j : ℕ) → j < 8 → digit (y % 2 ^ 8) j ≡ digit y j
low_digit y zero h = omega arith
low_digit y (suc zero) h = omega arith
low_digit y (suc (suc zero)) h = omega arith
low_digit y (suc (suc (suc zero))) h = omega arith
low_digit y (suc (suc (suc (suc zero)))) h = omega arith
low_digit y (suc (suc (suc (suc (suc zero))))) h = omega arith
low_digit y (suc (suc (suc (suc (suc (suc zero)))))) h = omega arith
low_digit y (suc (suc (suc (suc (suc (suc (suc zero))))))) h = omega arith
low_digit y (suc (suc (suc (suc (suc (suc (suc (suc j)))))))) h = absurd (omega arith)

-- a read of a port and a write of a new value to it, as both functions on a mask do
rewrite : (ℕ → ℕ) → ℕ → Machine → Machine
rewrite f port m = (outb (f (inb port m).0) port (inb port m).1).1

answer-rewrite :
    (f : ℕ → ℕ) (port : ℕ) (m : Machine)
    → Latches m.device port
    → answer (rewrite f port m) port ≡ f (answer m port) % 2 ^ 8
unfolding rewrite inb outb
answer-rewrite f port m l = omega (arith, l.keeps (asked port ∷ m.log) (f (answer m port) % 2 ^ 8))

answer-rewrite_ne :
    (f : ℕ → ℕ) (p q : ℕ) (m : Machine)
    → Latches m.device q
    → p ≢ q
    → answer (rewrite f p m) q ≡ answer m q
unfolding rewrite inb outb
answer-rewrite_ne f p q m l ne =
    ap (λ t. t % 2 ^ 8) (l.others (asked p ∷ m.log) (f (answer m p) % 2 ^ 8) p ne ∙ l.reads m.log p)

-- What both changes of a mask do to the bits that `irq_get_mask` reads, for the bit `b` that they put.
module _ (f : ℕ → ℕ → ℕ) (b : ℕ)
    (puts : (k x j : ℕ) → k < 8 → j < 8 → digit (f k x) j ≡ (if k == j then b else digit x j)) where
  changed :
      (m : Machine) (irq other : ℕ)
      → Latches m.device pic1_data
      → Latches m.device pic2_data
      → irq < 16
      → other < 16
      → digit (answer (rewrite (f (line_of irq)) (port_of irq) m) (port_of other)) (line_of other)
        ≡ (if irq == other then b else digit (answer m (port_of other)) (line_of other))
  unfolding port_of line_of
  changed m irq other l1 l2 hi ho = elim (Bool-cases (ltb irq 8)) [
    | inl x ↦ elim (Bool-cases (ltb other 8)) [
      | inl y ↦
          rw (x, y)
            (rw
              (
                answer-rewrite (f irq) pic1_data m l1,
                low_digit (f irq (answer m pic1_data)) other (ground arith),
              )
              (puts irq (answer m pic1_data) other (ground arith) (ground arith)))
      | inr y ↦
          rw (x, y)
            (rw (answer-rewrite_ne (f irq) pic1_data pic2_data m l2 (λ e. omega arith))
              (ground arith))
    ]
    | inr x ↦ elim (Bool-cases (ltb other 8)) [
      | inl y ↦
          rw (x, y)
            (rw (answer-rewrite_ne (f (irq - 8)) pic2_data pic1_data m l1 (λ e. omega arith))
              (ground arith))
      | inr y ↦
          rw (x, y)
            (rw
              (
                answer-rewrite (f (irq - 8)) pic2_data m l2,
                low_digit (f (irq - 8) (answer m pic2_data)) (other - 8) (ground arith),
              )
              (puts (irq - 8) (answer m pic2_data) (other - 8) (ground arith) (ground arith)
                ∙ ground arith))
    ]
  ]

puts_one :
    (k x j : ℕ) → k < 8 → j < 8 → digit (bit_or x (2 ^ k)) j ≡ (if k == j then 1 else digit x j)
puts_one k x j hk hj = elim (Bool-cases (k == j)) [
  | inl e ↦
      let p : k ≡ j = ground arith in
      rw (e, ← p) (omega (arith, digit-bit_or k x (2 ^ k), digit-pow_self k))
  | inr e ↦ rw e (omega (arith, digit-bit_or j x (2 ^ k), digit-pow_ne k j (ground arith)))
]

puts_zero :
    (k x j : ℕ)
    → k < 8
    → j < 8
    → digit (bit_and x (2 ^ 32 - 1 - 2 ^ k)) j ≡ (if k == j then 0 else digit x j)
puts_zero k x j hk hj =
    let small : 2 ^ k < 2 ^ 32 =
      omega (arith, pow-le-pow_right {n = 2} (omega arith) {i = k} {j = 31} (omega arith)) in
    let meet = digit-bit_and j x (2 ^ 32 - 1 - 2 ^ k) in
    let flip = digit-complement 32 (2 ^ k) j small (omega arith) in
    elim (Bool-cases (k == j)) [
      | inl e ↦
          let p : k ≡ j = ground arith in
          rw (e, ← p)
            (omega (
              arith,
              digit-bit_and k x (2 ^ 32 - 1 - 2 ^ k),
              digit-complement 32 (2 ^ k) k small (omega arith),
              digit-pow_self k,
            ))
      | inr e ↦ rw e (omega (arith, meet, flip, digit-pow_ne k j (ground arith)))
    ]

-- For interrupts below 16, when the two mask registers answer what was last written to them,
-- IRQ_get_mask after IRQ_set_mask of one interrupt returns 1 for that interrupt and what it
-- returned before for every other.
pub irq_get_mask-set_mask :
    (m : Machine) (irq other : ℕ)
    → Latches m.device pic1_data
    → Latches m.device pic2_data
    → irq < 16
    → other < 16
    → (irq_get_mask other (irq_set_mask irq m).1).0
      ≡ (if irq == other then 1 else (irq_get_mask other m).0)
unfolding irq_get_mask irq_set_mask rewrite
irq_get_mask-set_mask m irq other l1 l2 hi ho =
    changed (λ k x. bit_or x (2 ^ k)) 1 puts_one m irq other l1 l2 hi ho

-- For interrupts below 16, when the two mask registers answer what was last written to them,
-- IRQ_get_mask after IRQ_clear_mask of one interrupt returns 0 for that interrupt and what it
-- returned before for every other.
pub irq_get_mask-clear_mask :
    (m : Machine) (irq other : ℕ)
    → Latches m.device pic1_data
    → Latches m.device pic2_data
    → irq < 16
    → other < 16
    → (irq_get_mask other (irq_clear_mask irq m).1).0
      ≡ (if irq == other then 0 else (irq_get_mask other m).0)
unfolding irq_get_mask irq_clear_mask rewrite
irq_get_mask-clear_mask m irq other l1 l2 hi ho =
    changed (λ k x. bit_and x (2 ^ 32 - 1 - 2 ^ k)) 0 puts_zero m irq other l1 l2 hi ho
