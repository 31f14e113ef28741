-- ===== src/Serial/Text.antt =====
-- src/c/serial.c: `SER_write_str` on a text in memory.
use mathlib.Core.Path.{subst}
use implement_os.Prelude.{
  ℕ, zero, suc, ◌+◌, ◌%◌, ◌^◌, ◌<◌, ◌≡◌, refl, ap, ◌∙◌, inl, inr, arith, true, false, Bool-cases,
  some, List, [], ◌∷◌, length, ◌==◌,
}
use implement_os.Strings.{Bytes}
use implement_os.Strings.Text.{IsText}
use implement_os.Serial.{Serial, write_c, write_from, write_str}
use implement_os.Serial.Refine.{IsReady, write_c-IsReady, write_c_restores}

-- what every writing leaves: a ready driver that was ready, and the interrupt flag
pub record Written (s s' : Serial) : Type 0 where
  pub ready : IsReady s → IsReady s'
  pub interrupts_kept : IsReady s → s'.machine.interrupts ≡ s.machine.interrupts

pub Written-refl : (s : Serial) → Written s s
Written-refl s = record { ready = λ r. r; interrupts_kept = λ r. refl }

pub Written-trans : {s t u : Serial} → Written s t → Written t u → Written s u
Written-trans w x = record {
  ready = λ r. x.ready (w.ready r);
  interrupts_kept = λ r. x.interrupts_kept (w.ready r) ∙ w.interrupts_kept r;
}

pub write_c-Written : (c : ℕ) (s : Serial) → c < 2 ^ 8 → Written s (write_c c s).1
write_c-Written c s h = record {
  ready = λ r. write_c-IsReady c r h;
  interrupts_kept = λ r. write_c_restores c r;
}

-- The bytes of the text are handed to `SER_write_c` in their order, until one is refused or the text
-- ends; `k` of them are accepted.
pub data Offered : List ℕ → Serial → (k : ℕ) → Serial → Type 0 where
  ended : {s : Serial} → Offered [] s 0 s
  refused :
      {x : ℕ} {xs : List ℕ} {s : Serial}
      → (write_c (x % 2 ^ 8) s).0 ≡ false
      → Offered (x ∷ xs) s 0 (write_c (x % 2 ^ 8) s).1
  accepted :
      {x : ℕ} {xs : List ℕ} {s s' : Serial} {k : ℕ}
      → (write_c (x % 2 ^ 8) s).0 ≡ true
      → Offered xs (write_c (x % 2 ^ 8) s).1 k s'
      → Offered (x ∷ xs) s (suc k) s'

write_from-Written :
    (fuel str index : ℕ) (m : Bytes) (xs : List ℕ) (s : Serial)
    → IsText m (str + index) xs
    → length xs < fuel
    → (k : ℕ) × (s' : Serial) × (write_from fuel str index m s ≡ some (index + (k + 1), s'))
      × Offered xs s k s'
      × Written s s'
unfolding write_from
write_from-Written zero str index m xs s t h = absurd (omega arith)
write_from-Written (suc fuel) str index m [] s t h =
    let z : (m (str + index) == 0) ≡ true = ground (arith, t) in (0, s, rw z, ended, Written-refl s)
write_from-Written (suc fuel) str index m (x ∷ xs) s t h =
    let z : (m (str + index) == 0) ≡ false = ground (arith, t.0, t.1) in
    let one : Written s (write_c (x % 2 ^ 8) s).1 = write_c-Written (x % 2 ^ 8) s (omega arith) in
    elim (Bool-cases (write_c (x % 2 ^ 8) s).0) [
      | inr no_room ↦ (0, (write_c (x % 2 ^ 8) s).1, rw (z, t.0, no_room), refused no_room, one)
      | inl done ↦
          let text : IsText m (str + (index + 1)) xs =
            subst (λ a. IsText m a xs) (omega arith) t.2 in
          let (k, s', runs, o, w) =
            write_from-Written fuel str (index + 1) m xs (write_c (x % 2 ^ 8) s).1 text
              (omega arith) in
          (
            suc k,
            s',
            rw (z, t.0, done) (runs ∙ ap (λ n. some (n, s')) (omega arith)),
            accepted done o,
            Written-trans one w,
          )
    ]

-- SER_write_str of a text, with fuel above its length, ends: it hands the bytes to SER_write_c
-- one after the other, each to the driver that the one before left, until one is refused or the
-- text ends, and returns one more than the number of bytes that were accepted. It leaves a
-- driver that was ready ready, with the interrupt flag as it was.
pub write_str-Written :
    (fuel str : ℕ) (m : Bytes) (xs : List ℕ) (s : Serial)
    → IsText m str xs
    → length xs < fuel
    → (k : ℕ) × (s' : Serial) × (write_str fuel str m s ≡ some (k + 1, s'))
      × Offered xs s k s'
      × Written s s'
unfolding write_str
write_str-Written fuel str m xs s t h =
    let (k, s', runs, o, w) =
      write_from-Written fuel str 0 m xs s (subst (λ a. IsText m a xs) (omega arith) t) h in
    (k, s', runs ∙ ap (λ n. some (n, s')) (omega arith), o, w)
