-- ===== src/Ps2/Setup.antt =====
-- src/c/ps2.c: with a controller that answers within the fuel and passes its test, the set-up ends.
use mathlib.Core.Path.{subst}
use implement_os.Prelude.{
  ℕ, ◌/◌, ◌%◌, ◌^◌, ◌<◌, ◌≡◌, ◌⊎◌, refl, sym, ap, ◌∙◌, inl, inr, List, [], ◌∷◌, some, arith,
}
use implement_os.Prelude.Fallible.{◌>>=◌, Ends, Ends-bind}
use implement_os.Machine.{Machine, Event, wrote}
use implement_os.Ps2.{
  data_port, command_reg, o_buf_status, i_buf_status, read_data, write_command, write_data,
  test_controller, enable_keyboard, Host, setup_keyboard, configured,
}
use implement_os.Prelude.Words.{set_field}
use implement_os.Ps2.Protocol.{
  Device, Transfer, to_port, from_data, given, polls, status, Exchanged, Exchanged-refl, Wrote,
  Read, Exchanged-Wrote, Exchanged-Read, wait_for_write_lem, wait_for_read_lem,
}

-- The controller takes a byte that waits for it within `n` polls, and answers within as many the
-- commands that ask for its configuration and for its test, which it passes.
pub record IsResponsive (d : Device) (n : ℕ) : Type 0 where
  pub takes : (log : List Event) → (k : ℕ) × (k < n) × (i_buf_status (status d (polls k log)) ≡ 0)
  pub answers :
      (c : ℕ) (before : List Event)
      → (c ≡ 0x20) ⊎ (c ≡ 0xaa)
      → (k : ℕ) × (k < n) × (o_buf_status (status d (polls k (wrote c command_reg ∷ before))) ≡ 1)
  pub passes :
      (k : ℕ) (before : List Event) → given d (polls k (wrote 0xaa command_reg ∷ before)) ≡ 0x55

-- The configuration `v` turns on the interrupt and the clock bit of the first port and turns off the
-- second port's, and is `c_b` in its other bits.
pub record IsConfigured (c_b v : ℕ) : Type 0 where
  pub first_interrupt : v % 2 ≡ 1
  pub second_interrupt : v / 2 % 2 ≡ 0
  pub flags : v / 4 % 4 ≡ c_b / 4 % 4
  pub first_clock : v / 16 % 2 ≡ 1
  pub second_clock : v / 32 % 2 ≡ 0
  pub others : v / 64 ≡ c_b / 64

configured-IsConfigured : (c_b : ℕ) → IsConfigured c_b (configured c_b)
unfolding configured set_field
configured-IsConfigured c_b = record {
  first_interrupt = omega arith;
  second_interrupt = omega arith;
  flags = omega arith;
  first_clock = omega arith;
  second_clock = omega arith;
  others = omega arith;
}

configured-byte : (c_b : ℕ) → c_b < 2 ^ 8 → configured c_b % 2 ^ 8 ≡ configured c_b
unfolding configured set_field
configured-byte c_b h = omega arith

-- The transfers of the set-up, the latest first, where the controller gives the configuration `c_b`,
-- gets `v`, and gives `resp` for its test.
abbrev pub transfers : (resp c_b v : ℕ) → List Transfer
transfers resp c_b v =
    to_port 0x0 data_port
    ∷ to_port 0xf0 data_port
    ∷ to_port 0xf4 data_port
    ∷ to_port 0x2 data_port
    ∷ to_port 0xf0 data_port
    ∷ to_port 0xae command_reg
    ∷ from_data resp
    ∷ to_port 0xaa command_reg
    ∷ to_port v data_port
    ∷ to_port 0x60 command_reg
    ∷ from_data c_b
    ∷ to_port 0x20 command_reg
    ∷ to_port 0xa7 command_reg
    ∷ to_port 0xad command_reg
    ∷ []

module _ {m : Machine} (fuel : ℕ) (r : IsResponsive m.device fuel) where
  write_command_lem :
      (c : ℕ) {ws : List Transfer} {m1 : Machine}
      → Exchanged m ws m1
      → Ends (write_command fuel c) m1 (λ _ m2. Wrote m ws c command_reg m2)
  unfolding write_command ◌>>=◌
  write_command_lem c {ws} {m1} x =
      let (k, lt, e) = r.takes m1.log in
      let (j, runs, last) =
        wait_for_write_lem fuel k m1 lt
          (subst (λ d. i_buf_status (status d (polls k m1.log)) ≡ 0) (sym x.device_kept) e) in
      record {
        result = tt;
        state = _;
        runs = rw runs;
        holds = Exchanged-Wrote c command_reg j x last;
      }

  write_data_lem :
      (v : ℕ) {ws : List Transfer} {m1 : Machine}
      → Exchanged m ws m1
      → Ends (write_data fuel v) m1 (λ _ m2. Wrote m ws v data_port m2)
  unfolding write_data ◌>>=◌
  write_data_lem v {ws} {m1} x =
      let (k, lt, e) = r.takes m1.log in
      let (j, runs, last) =
        wait_for_write_lem fuel k m1 lt
          (subst (λ d. i_buf_status (status d (polls k m1.log)) ≡ 0) (sym x.device_kept) e) in
      record {
        result = tt;
        state = _;
        runs = rw runs;
        holds = Exchanged-Wrote v data_port j x last;
      }

  read_data_lem :
      (c : ℕ) {ws : List Transfer} {m1 : Machine}
      → (c % 2 ^ 8 ≡ 0x20) ⊎ (c % 2 ^ 8 ≡ 0xaa)
      → Wrote m ws c command_reg m1
      → Ends (read_data fuel) m1 (λ v m2. Read m (to_port (c % 2 ^ 8) command_reg ∷ ws) m1.log v m2)
  unfolding read_data ◌>>=◌
  read_data_lem c {ws} {m1} asks x =
      let (k, lt, e) = r.answers (c % 2 ^ 8) x.before asks in
      let e' =
        subst (λ d. o_buf_status (status d (polls k m1.log)) ≡ 1) (sym x.exchanged.device_kept)
          (subst (λ l. o_buf_status (status m.device (polls k l)) ≡ 1) (sym x.latest) e) in
      let (j, runs, last) = wait_for_read_lem fuel k m1 lt e' in
      record { result = _; state = _; runs = rw runs; holds = Exchanged-Read j x.exchanged last }

  -- The test's answer is 0x55, and the log's bytes so far are the set-up's.
  test_controller_lem : Ends (test_controller fuel) m (λ resp m'.
      (resp ≡ 0x55)
      × (c_b : ℕ) × Exchanged m
          (from_data resp
            ∷ to_port 0xaa command_reg
            ∷ to_port (configured c_b % 2 ^ 8) data_port
            ∷ to_port 0x60 command_reg
            ∷ from_data c_b
            ∷ to_port 0x20 command_reg
            ∷ to_port 0xa7 command_reg
            ∷ to_port 0xad command_reg
            ∷ [])
          m'
      × (c_b < 2 ^ 8))
  unfolding test_controller
  test_controller_lem = Ends-bind _ (write_command_lem 0xad (Exchanged-refl m)) (λ _ m1 x1.
      Ends-bind _ (write_command_lem 0xa7 x1.exchanged) (λ _ m2 x2.
        Ends-bind _ (write_command_lem 0x20 x2.exchanged) (λ _ m3 x3.
          Ends-bind _ (read_data_lem 0x20 (inl refl) x3) (λ c_b m4 x4.
            Ends-bind _ (write_command_lem 0x60 x4.exchanged) (λ _ m5 x5.
              Ends-bind _ (write_data_lem (configured c_b) x5.exchanged) (λ _ m6 x6.
                Ends-bind _ (write_command_lem 0xaa x6.exchanged) (λ _ m7 x7.
                  let last = read_data_lem 0xaa (inr refl) x7 in
                  record {
                    result = last.result;
                    state = last.state;
                    runs = last.runs;
                    holds = (
                      last.holds.answer
                          ∙ ap (λ l. given m.device (polls last.holds.polled l)) x7.latest
                          ∙ r.passes last.holds.polled x7.before,
                      c_b,
                      last.holds.exchanged,
                      x4.byte,
                    );
                  })))))))

  enable_keyboard_lem :
      {ws : List Transfer} {m1 : Machine}
      → Exchanged m ws m1
      → Ends (enable_keyboard fuel) m1 (λ _ m'.
        Exchanged m
          (to_port 0x0 data_port
            ∷ to_port 0xf0 data_port
            ∷ to_port 0xf4 data_port
            ∷ to_port 0x2 data_port
            ∷ to_port 0xf0 data_port
            ∷ to_port 0xae command_reg
            ∷ ws)
          m')
  unfolding enable_keyboard
  enable_keyboard_lem x = Ends-bind _ (write_command_lem 0xae x) (λ _ m1 x1.
      Ends-bind _ (write_data_lem 0xf0 x1.exchanged) (λ _ m2 x2.
        Ends-bind _ (write_data_lem 0x2 x2.exchanged) (λ _ m3 x3.
          Ends-bind _ (write_data_lem 0xf4 x3.exchanged) (λ _ m4 x4.
            Ends-bind _ (write_data_lem 0xf0 x4.exchanged) (λ _ m5 x5.
              Ends-bind _ (write_data_lem 0x0 x5.exchanged) (λ _ m6 x6. record {
                result = tt;
                state = m6;
                runs = refl;
                holds = x6.exchanged;
              }))))))

-- The machine of the state is what has been put into it last.
pub record IsHost {S : Type 0} (h : Host S) : Type 0 where
  pub holds : (s : S) (m : Machine) → h.machine_of (h.put_machine s m) ≡ m
  pub replaces :
      (s : S) (m m' : Machine) → h.put_machine (h.put_machine s m) m' ≡ h.put_machine s m'

-- what the set-up leaves
abbrev pub IsSetUp : Machine → Machine → Type 0
IsSetUp m m' =
    (c_b : ℕ) × (v : ℕ) × (c_b < 2 ^ 8)
    × (v < 2 ^ 8)
    × IsConfigured c_b v
    × Exchanged m (transfers 0x55 c_b v) m'

-- When the controller takes a byte within as many polls as the fuel, answers the commands 0x20
-- and 0xaa within as many, and gives 0x55 after 0xaa, PS2_setup_keyboard ends and changes
-- nothing of the state but the machine. Between the writes of 0xad, 0xa7, 0x20, 0x60, the
-- configuration, 0xaa, 0xae, 0xf0, 0x2, 0xf4, 0xf0 and 0x0, each at its port, it has read the
-- byte that the device gave behind 0x20 and the 0x55 behind 0xaa, and nothing else; the
-- configuration that it wrote is the byte behind 0x20 with the first port's interrupt and clock
-- bits set and the second port's cleared. Each byte was written right after a poll that found
-- the input buffer empty, and read right after one that found the output buffer full. The
-- interrupt flag is left as it was.
pub setup_keyboard_lem :
    {S : Type 0} {h : Host S}
    → IsHost h
    → (fuel : ℕ) (s : S) → IsResponsive (h.machine_of s).device fuel
    → (m' : Machine) × (setup_keyboard h fuel s ≡ some (h.put_machine s m'))
      × IsSetUp (h.machine_of s) m'
unfolding setup_keyboard
setup_keyboard_lem {h = h} host fuel s r =
    let first = test_controller_lem fuel r in
    let (passed, c_b, x, byte) = first.holds in
    let second = enable_keyboard_lem fuel r x in
    (
      second.state,
      rw (setup_keyboard, first.runs, passed, host.holds, second.runs, host.replaces),
      (
        c_b,
        configured c_b % 2 ^ 8,
        byte,
        omega arith,
        subst (IsConfigured c_b) (sym (configured-byte c_b byte)) (configured-IsConfigured c_b),
        subst
            (λ resp.
              Exchanged (h.machine_of s) (transfers resp c_b (configured c_b % 2 ^ 8)) second.state)
            passed second.holds,
      ),
    )
