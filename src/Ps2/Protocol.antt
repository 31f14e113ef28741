-- ===== src/Ps2/Protocol.antt =====
-- src/c/ps2.c: the exchanges with the keyboard controller.
use mathlib.Core.Path.{subst}
use implement_os.Prelude.{
  ℕ, zero, suc, ◌%◌, ◌^◌, ◌<◌, ◌≡◌, refl, sym, ap, ◌∙◌, inl, inr, arith, Bool-cases, some, List, [],
  ◌∷◌, ◌==◌,
}
use implement_os.Machine.{Machine, Event, wrote, asked, inb, outb}
use implement_os.Ps2.{
  data_port, status_reg, o_buf_status, i_buf_status, read_status, wait_for_write, wait_for_read,
}

abbrev pub Device : Type 0
Device = List Event → ℕ → ℕ

-- `k` reads of the status
abbrev pub polls : ℕ → List Event → List Event
polls zero log = log
polls (suc k) log = polls k (asked status_reg ∷ log)

abbrev pub status : Device → List Event → ℕ
status d log = d log status_reg % 2 ^ 8

-- A byte written at a port, or one that the device gave at the data port.
pub data Transfer : Type 0 where
  to_port : (value port : ℕ) → Transfer
  from_data : ℕ → Transfer

-- what the device answers at the data port when the status has been polled after this log
abbrev pub given : Device → List Event → ℕ
given d log = d (asked status_reg ∷ log) data_port % 2 ^ 8

-- What the log gains in an exchange that keeps to the controller's protocol, with the transfers, the
-- latest first: a byte is written only right after a poll that found the input buffer empty, and
-- read only right after one that found the output buffer full, when it is what the device gives.
pub data Exchange (d : Device) (log0 : List Event) : List Transfer → List Event → Type 0 where
  starts : Exchange d log0 [] log0
  polled :
      {ws : List Transfer} {log : List Event}
      → Exchange d log0 ws log
      → Exchange d log0 ws (asked status_reg ∷ log)
  sent :
      {ws : List Transfer} {log : List Event} (value port : ℕ)
      → i_buf_status (status d log) ≡ 0
      → Exchange d log0 ws (asked status_reg ∷ log)
      → Exchange d log0
          (to_port (value % 2 ^ 8) port ∷ ws)
          (wrote (value % 2 ^ 8) port ∷ asked status_reg ∷ log)
  received :
      {ws : List Transfer} {log : List Event}
      → o_buf_status (status d log) ≡ 1
      → Exchange d log0 ws (asked status_reg ∷ log)
      → Exchange d log0 (from_data (given d log) ∷ ws) (asked data_port ∷ asked status_reg ∷ log)

polls-suc : (k : ℕ) (log : List Event) → polls (suc k) log ≡ asked status_reg ∷ polls k log
polls-suc zero log = refl
polls-suc (suc k) log = polls-suc k (asked status_reg ∷ log)

Exchange-polls :
    {d : Device} {log0 : List Event} {ws : List Transfer} (k : ℕ) {log : List Event}
    → Exchange d log0 ws log
    → Exchange d log0 ws (polls k log)
Exchange-polls zero e = e
Exchange-polls (suc k) e = Exchange-polls k (polled e)

abbrev with_log : Machine → List Event → Machine
with_log m log = record m { log = log }

-- A wait ends with the first poll that finds the buffer as it should be.
pub wait_for_write_lem :
    (fuel k : ℕ) (m : Machine)
    → k < fuel
    → i_buf_status (status m.device (polls k m.log)) ≡ 0
    → (j : ℕ) × (wait_for_write fuel m ≡ some (tt, with_log m (polls (suc j) m.log)))
      × (i_buf_status (status m.device (polls j m.log)) ≡ 0)
unfolding wait_for_write read_status inb
wait_for_write_lem zero k m h e = absurd (omega arith)
wait_for_write_lem (suc fuel) zero m h e = (zero, ground arith, e)
wait_for_write_lem (suc fuel) (suc k) m h e =
    let (j, runs, last) =
      wait_for_write_lem fuel k (with_log m (asked status_reg ∷ m.log)) (omega arith) e in
    elim (Bool-cases (i_buf_status (status m.device m.log) == 1)) [
      | inr empty ↦ (zero, rw empty, ground arith)
      | inl full ↦ (suc j, rw full runs, last)
    ]

pub wait_for_read_lem :
    (fuel k : ℕ) (m : Machine)
    → k < fuel
    → o_buf_status (status m.device (polls k m.log)) ≡ 1
    → (j : ℕ) × (wait_for_read fuel m ≡ some (tt, with_log m (polls (suc j) m.log)))
      × (o_buf_status (status m.device (polls j m.log)) ≡ 1)
unfolding wait_for_read read_status inb
wait_for_read_lem zero k m h e = absurd (omega arith)
wait_for_read_lem (suc fuel) zero m h e = (zero, ground arith, e)
wait_for_read_lem (suc fuel) (suc k) m h e =
    let (j, runs, last) =
      wait_for_read_lem fuel k (with_log m (asked status_reg ∷ m.log)) (omega arith) e in
    elim (Bool-cases (o_buf_status (status m.device m.log) == 1)) [
      | inl full ↦ (zero, rw full, ground arith)
      | inr empty ↦ (suc j, rw empty runs, last)
    ]

-- what has been exchanged between two states of the machine
pub record Exchanged (m : Machine) (ws : List Transfer) (m' : Machine) : Type 0 where
  pub device_kept : m'.device ≡ m.device
  pub interrupts_kept : m'.interrupts ≡ m.interrupts
  pub exchange : Exchange m.device m.log ws m'.log

pub Exchanged-refl : (m : Machine) → Exchanged m [] m
Exchanged-refl m = record { device_kept = refl; interrupts_kept = refl; exchange = starts }

-- A byte is written at the port.
pub record Wrote (m : Machine) (ws : List Transfer) (value port : ℕ) (m' : Machine) : Type 0 where
  pub exchanged : Exchanged m (to_port (value % 2 ^ 8) port ∷ ws) m'
  pub before : List Event
  pub latest : m'.log ≡ wrote (value % 2 ^ 8) port ∷ before

pub Exchanged-Wrote :
    {m m1 : Machine} {ws : List Transfer} (value port j : ℕ)
    → Exchanged m ws m1
    → i_buf_status (status m1.device (polls j m1.log)) ≡ 0
    → Wrote m ws value port (outb value port (with_log m1 (polls (suc j) m1.log))).1
unfolding outb
Exchanged-Wrote {m} {m1} {ws} value port j x e =
    let at : polls (suc j) m1.log ≡ asked status_reg ∷ polls j m1.log = polls-suc j m1.log in
    let e' = subst (λ d. i_buf_status (status d (polls j m1.log)) ≡ 0) x.device_kept e in
    record {
      exchanged = record {
        device_kept = x.device_kept;
        interrupts_kept = x.interrupts_kept;
        exchange =
            subst
              (λ l.
                Exchange m.device m.log (to_port (value % 2 ^ 8) port ∷ ws)
                  (wrote (value % 2 ^ 8) port ∷ l))
              (sym at) (sent value port e' (polled (Exchange-polls j x.exchange)));
      };
      before = polls (suc j) m1.log;
      latest = refl;
    }

-- A byte is read: what the device gives when the status has been polled after the log so far.
pub record Read (m : Machine) (ws : List Transfer) (log : List Event) (value : ℕ) (m' : Machine)
    : Type 0 where
  pub exchanged : Exchanged m (from_data value ∷ ws) m'
  pub byte : value < 2 ^ 8
  pub polled : ℕ
  pub answer : value ≡ given m.device (polls polled log)

pub Exchanged-Read :
    {m m1 : Machine} {ws : List Transfer} (j : ℕ)
    → Exchanged m ws m1
    → o_buf_status (status m1.device (polls j m1.log)) ≡ 1
    → let (value, m') = inb data_port (with_log m1 (polls (suc j) m1.log)) in
      Read m ws m1.log value m'
unfolding inb
Exchanged-Read {m} {m1} {ws} j x e =
    let at : polls (suc j) m1.log ≡ asked status_reg ∷ polls j m1.log = polls-suc j m1.log in
    let e' = subst (λ d. o_buf_status (status d (polls j m1.log)) ≡ 1) x.device_kept e in
    let value : m1.device (polls (suc j) m1.log) data_port % 2 ^ 8
        ≡ given m.device (polls j m1.log) =
      ap (λ l. m1.device l data_port % 2 ^ 8) at
      ∙ ap (λ (d : Device). d (asked status_reg ∷ polls j m1.log) data_port % 2 ^ 8)
          x.device_kept in
    record {
      exchanged = record {
        device_kept = x.device_kept;
        interrupts_kept = x.interrupts_kept;
        exchange =
            subst
              (λ v.
                Exchange m.device m.log (from_data v ∷ ws) (asked data_port ∷ polls (suc j) m1.log))
              (sym value)
              (subst
                (λ l.
                  Exchange m.device m.log (from_data (given m.device (polls j m1.log)) ∷ ws)
                    (asked data_port ∷ l))
                (sym at) (received e' (polled (Exchange-polls j x.exchange))));
      };
      byte = omega arith;
      polled = j;
      answer = value;
    }
