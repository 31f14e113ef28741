-- ===== src/Dispatch/Cases.antt =====
-- src/c/interrupts.c: what the case of any interrupt leaves.
use mathlib.Core.Path.{subst}
use implement_os.Prelude.{
  ℕ, ◌<◌, ◌≡◌, refl, sym, arith, false, Bool-cases, inl, inr, some, List, ◌==◌, if◌then◌else◌,
}
use implement_os.PageTable
use implement_os.Vga.Display.{IsOnScreen, Inside}
use implement_os.Console.Keys.{IsInRow}
use implement_os.Serial.Refine.{IsReady}
use implement_os.Printk.Format.{Piece}
use implement_os.Printk.Refine.{Agrees}
use implement_os.Terminal.{Terminal, printkln_no_serial, ser_interrupt}
use implement_os.Terminal.Print.{Sound, IsCall, printkln-Says, show-Sound}
use implement_os.Terminal.Port.{ser_interrupt-Sound}
use implement_os.Ps2.{o_buf_status}
use implement_os.Ps2.Protocol.{polls, status}
use implement_os.Ps2.Keyboard.{keyboard_interrupt_lem}
use implement_os.Dispatch.{
  Kernel, Setting, terminal, set_terminal, machine, message, page_fault, key, act,
}

-- Each interrupt has a message that can be printed.
pub record HasMessages (c : Setting) (k : Kernel) : Type 0 where
  pub limit : ℕ
  pub pieces : ℕ → List Piece
  pub calls :
      (isr_code : ℕ)
      → IsCall c.fuel c.rounds limit
          (c.format isr_code)
          c.array
          (c.args isr_code)
          k.memory
          (pieces isr_code)

-- When a key has been pressed: the controller has a byte within the fuel, and the cursor is in a row.
pub record HasKey (c : Setting) (k : Kernel) : Type 0 where
  pub polled : ℕ
  pub soon : polled < c.fuel
  pub full : o_buf_status (status (machine k).device (polls polled (machine k).log)) ≡ 1
  pub in_row : IsInRow k.console.vga

-- what the case of an interrupt leaves, with the memory below `limit` as it was
pub record Acted (c : Setting) (limit isr_code cr2 : ℕ) (k k' : Kernel) : Type 0 where
  pub memory_kept : Agrees limit k.memory k'.memory
  pub on_screen : IsOnScreen k'.console.vga
  pub inside : Inside k.console.vga k'.console.vga
  pub ready : IsReady k'.port
  pub interrupts_kept : (machine k').interrupts ≡ (machine k).interrupts
  pub mmu_after :
      k'.mmu ≡ (if isr_code == 14 then (PageTable.can_allocate c.p3_table cr2 k.mmu).1 else k.mmu)

module _ (c : Setting) (cr2 : ℕ) where
  Sound-Acted :
      (limit isr_code : ℕ) (k : Kernel) (t : Terminal)
      → (isr_code == 14) ≡ false
      → Sound (terminal k) t
      → Acted c limit isr_code cr2 k (set_terminal k t)
  Sound-Acted limit isr_code k t e s = record {
    memory_kept = λ b lt. refl;
    on_screen = s.on_screen;
    inside = s.inside;
    ready = s.ready;
    interrupts_kept = s.interrupts_kept;
    mmu_after = rw e;
  }

  message_lem :
      (isr_code : ℕ) (k : Kernel)
      → (msgs : HasMessages c k) → IsReady k.port
      → IsOnScreen k.console.vga
      → (k' : Kernel) × (message c isr_code k ≡ some k')
        × Sound (terminal k) (terminal k')
        × (k'.mmu ≡ k.mmu)
        × Agrees msgs.limit k.memory k'.memory
  unfolding message
  message_lem isr_code k msgs r on =
      let (xs, n, m, t, _, runs, _, _, s, kept) =
        printkln-Says (msgs.calls isr_code) (terminal k) r on in
      (record (set_terminal k t) { memory = m }, rw (message, runs), s, refl, kept)

  page_fault_lem :
      (k : Kernel)
      → (msgs : HasMessages c k) → IsReady k.port
      → IsOnScreen k.console.vga
      → (k' : Kernel) × (page_fault c cr2 k ≡ some k') × Acted c msgs.limit 14 cr2 k k'
  unfolding page_fault
  page_fault_lem k msgs r on =
      let (done, mmu') = PageTable.can_allocate c.p3_table cr2 k.mmu in
      elim (Bool-cases (done == 0)) [
        | inr e ↦ (
          record k { mmu = mmu' },
          rw e,
          record {
            memory_kept = λ b lt. refl;
            on_screen = on;
            inside = λ a le. refl;
            ready = r;
            interrupts_kept = refl;
            mmu_after = refl;
          },
        )
        | inl e ↦
            let (k', runs, s, same, kept) =
              message_lem 14 (record k { mmu = mmu' })
                (record { limit = msgs.limit; pieces = msgs.pieces; calls = msgs.calls }) r on in
            (
              k',
              rw e runs,
              record {
                memory_kept = kept;
                on_screen = s.on_screen;
                inside = s.inside;
                ready = s.ready;
                interrupts_kept = s.interrupts_kept;
                mmu_after = same;
              },
            )
      ]

  key_lem :
      (limit : ℕ) (k : Kernel)
      → HasKey c k
      → IsReady k.port
      → (k' : Kernel) × (key c k ≡ some k') × Acted c limit 33 cr2 k k'
  unfolding key
  key_lem limit k pressed r =
      let (s, runs, h) =
        keyboard_interrupt_lem c.fuel pressed.polled c.beyond k.console pressed.soon pressed.full
          pressed.in_row in
      (
        record k { console = s },
        rw (key, runs),
        record {
          memory_kept = λ b lt. refl;
          on_screen = (omega (arith, h.in_row.0), h.in_row.1);
          inside = h.inside;
          ready = r;
          interrupts_kept = h.interrupts_kept;
          mmu_after = refl;
        },
      )

  other_lem :
      (isr_code : ℕ) (k : Kernel)
      → (isr_code == 14) ≡ false
      → (isr_code == 33) ≡ false
      → (msgs : HasMessages c k) → IsReady k.port
      → IsOnScreen k.console.vga
      → (k' : Kernel) × (act c isr_code cr2 k ≡ some k') × Acted c msgs.limit isr_code cr2 k k'
  unfolding act
  other_lem isr_code k e f msgs r on = elim (Bool-cases (isr_code == 36)) [
    | inl g ↦ (
      set_terminal k (ser_interrupt (terminal k)),
      rw (e, f, g),
      Sound-Acted msgs.limit isr_code k (ser_interrupt (terminal k)) e
          (ser_interrupt-Sound (terminal k) r on),
    )
    | inr g ↦ elim (Bool-cases (isr_code == 38)) [
      | inl i ↦ (
        set_terminal k (printkln_no_serial (terminal k)),
        rw (e, f, g, i),
        Sound-Acted msgs.limit isr_code k (printkln_no_serial (terminal k)) e
            (show-Sound b'\n' (terminal k) r on),
      )
      | inr i ↦
          let (k', runs, s, same, kept) = message_lem isr_code k msgs r on in
          (
            k',
            rw (e, f, g, i) runs,
            record {
              memory_kept = kept;
              on_screen = s.on_screen;
              inside = s.inside;
              ready = s.ready;
              interrupts_kept = s.interrupts_kept;
              mmu_after = rw e same;
            },
          )
    ]
  ]

  pub act_lem :
      (isr_code : ℕ) (k : Kernel)
      → (msgs : HasMessages c k) → IsReady k.port
      → IsOnScreen k.console.vga
      → (isr_code ≡ 33 → HasKey c k)
      → (k' : Kernel) × (act c isr_code cr2 k ≡ some k') × Acted c msgs.limit isr_code cr2 k k'
  unfolding act
  act_lem isr_code k msgs r on pressed = elim (Bool-cases (isr_code == 14)) [
    | inl e ↦
        let at : 14 ≡ isr_code = ground arith in
        subst (λ n. (k' : Kernel) × (act c n cr2 k ≡ some k') × Acted c msgs.limit n cr2 k k') at
          (page_fault_lem k msgs r on)
    | inr e ↦ elim (Bool-cases (isr_code == 33)) [
      | inl f ↦
          let at : 33 ≡ isr_code = ground arith in
          subst (λ n. (k' : Kernel) × (act c n cr2 k ≡ some k') × Acted c msgs.limit n cr2 k k') at
            (key_lem msgs.limit k (pressed (sym at)) r)
      | inr f ↦ other_lem isr_code k e f msgs r on
    ]
  ]
