-- ===== src/Serial/Refine.antt =====
-- src/c/serial.c: `SER_write_c` and `trigger_write` do to the line what Serial/Line.antt says, for
-- every state that `SER_init` and they can reach.
use mathlib.Core.Path.{subst}
use implement_os.Prelude.{
  ℕ, ◌/◌, ◌%◌, ◌^◌, ◌<◌, ◌≡◌, refl, ap, sym, ◌∙◌, Bool, true, false, List, [], ◌∷◌, ◌++◌, arith,
  get_or, ◌==◌, if◌then◌else◌, Bool-cases, inl, inr,
}
use implement_os.Machine.{Event, wrote, asked, Machine, answer, inb, cli, sti}
use implement_os.Buffer
use implement_os.Buffer.Queue
use implement_os.Buffer.Invariant.{IsValid, consume-IsValid, produce-IsValid}
use implement_os.Buffer.Refine.{
  contents, same_func, counts-contents, produce_refines, consume_refines,
}
use implement_os.Serial.{
  Serial, io, com1_thr, com1_lsr, send, is_thr_empty, buf_consume, buf_produce, waiting, has_room,
  choose, write_c, write_to_serial,
}
use implement_os.Serial.Line
use implement_os.Serial.Line.{Line, line}

-- the bytes that went to the transmitter, oldest first
unfoldable pub sent : List Event → List ℕ
sent [] = []
sent (wrote v p ∷ es) = if p == com1_thr then sent es ++ (v ∷ []) else sent es
sent (asked p ∷ es) = sent es

-- bytes that fit a `char`
abbrev pub AreBytes : List ℕ → Type 0
AreBytes [] = Unit
AreBytes (x ∷ xs) = (x < 256) × AreBytes xs

pub record IsReady (s : Serial) : Type 0 where
  pub ring : IsValid s.serial_buffer
  pub sends : s.serial_buffer.consume_func ≡ send
  pub bytes : AreBytes (contents s.serial_buffer)

-- whether the transmitter takes a byte now
abbrev pub thr_empty : Machine → Bool
thr_empty m = answer m com1_lsr / 2 ^ 5 % 2 == 1

abbrev pub line_of : Serial → Line
line_of s = line (sent s.machine.log) (contents s.serial_buffer)

module _ {s : Serial} (r : IsReady s) where
  pub consume_at :
      (m : Machine) (x : ℕ) (q : List ℕ)
      → contents s.serial_buffer ≡ x ∷ q
      → let (b, m') = Buffer.consume s.serial_buffer m in (contents b ≡ q) × (m' ≡ send x m)
  unfolding Queue.consume
  consume_at m x q e = ground (arith, consume_refines m r.ring, r.sends)

  waiting_at :
      (m : Machine) (x : ℕ) (q : List ℕ)
      → contents s.serial_buffer ≡ x ∷ q
      → waiting (record s { machine = m }) ≡ (true, record s { machine = m })
  unfolding waiting
  waiting_at m x q e = ground (arith, counts-contents r.ring)

  choose_cons :
      (c x : ℕ) (q : List ℕ)
      → contents s.serial_buffer ≡ x ∷ q
      → x < 256
      → c < 256
      → let (done, s') = choose c s in
        (done, line_of s')
        ≡ Line.write_c (thr_empty s.machine) c (line (sent s.machine.log) (x ∷ q))
  unfolding choose is_thr_empty buf_consume buf_produce has_room write_to_serial sent Line.write_c
      Queue.produce
  choose_cons c x q e b h =
      rw (waiting_at s.machine x q e) (elim (Bool-cases (thr_empty s.machine)) [
        | inl t ↦ rw t (ground (arith, consume_at (inb com1_lsr s.machine).1 x q e))
        | inr f ↦ rw f (ground (arith, counts-contents r.ring, produce_refines c r.ring))
      ])

  choose_at :
      (c : ℕ) (q : List ℕ)
      → contents s.serial_buffer ≡ q
      → AreBytes q
      → c < 256
      → let (done, s') = choose c s in
        (done, line_of s') ≡ Line.write_c (thr_empty s.machine) c (line (sent s.machine.log) q)
  unfolding choose is_thr_empty buf_produce waiting has_room write_to_serial sent Line.write_c
      Queue.produce
  choose_at c [] e b h = ground (arith, counts-contents r.ring, produce_refines c r.ring)
  choose_at c (x ∷ q) e b h = choose_cons c x q e b.0 h

abbrev AreBytes-append : (xs : List ℕ) (c : ℕ) → AreBytes xs → c < 256 → AreBytes (xs ++ (c ∷ []))
AreBytes-append [] c b h = (h, tt)
AreBytes-append (x ∷ xs) c b h = (b.0, AreBytes-append xs c b.1 h)

AreBytes_write_c :
    (ready : Bool) (c : ℕ) (t q : List ℕ)
    → AreBytes q
    → c < 256
    → AreBytes (Line.write_c ready c (line t q)).1.queue
unfolding Line.write_c
AreBytes_write_c ready c t [] b h = ground arith
AreBytes_write_c ready c t (x ∷ q) b h = ground (arith, AreBytes-append q c b.1 h)

pub consume_interrupts :
    (s : Serial)
    → s.serial_buffer.consume_func ≡ send
    → (buf_consume s).1.machine.interrupts ≡ s.machine.interrupts
unfolding buf_consume Buffer.consume write_to_serial
consume_interrupts s e = ground (
  arith,
  ap
      (λ (f : ℕ → Machine → Machine).
        (f (get_or s.serial_buffer.buff s.serial_buffer.cons_index 0) s.machine).interrupts)
      e,
)

choose_interrupts :
    (c : ℕ) (s : Serial)
    → s.serial_buffer.consume_func ≡ send
    → (choose c s).1.machine.interrupts ≡ s.machine.interrupts
unfolding choose is_thr_empty buf_produce waiting has_room write_to_serial
choose_interrupts c s e = ground (
  arith,
  consume_interrupts s e,
  consume_interrupts (record s { machine = (inb com1_lsr s.machine).1 }) e,
)

pub sti_line : (flag : Bool) (s : Serial) → line_of (io (sti flag) s).1 ≡ line_of s
unfolding sti
sti_line true s = refl
sti_line false s = refl

module _ {s : Serial} (c : ℕ) (r : IsReady s) where
  -- SER_write_c in a ready driver leaves the interrupt flag as it was.
  pub write_c_restores : (write_c c s).1.machine.interrupts ≡ s.machine.interrupts
  unfolding write_c cli sti
  write_c_restores = ground (arith, choose_interrupts c (io cli s).1 r.sends)

  -- SER_write_c of a byte, in a ready driver, returns and does to the sent and the waiting
  -- bytes what the line's specification says for the transmitter's answer: it sends or queues
  -- the byte when nothing waits; when bytes wait it sends the oldest of them and drops the new
  -- one if the transmitter is ready, and else queues the new one, or refuses it when 32 wait.
  pub write_c_refines :
      c < 256
      → let (done, s') = write_c c s in
        (done, line_of s') ≡ Line.write_c (thr_empty s.machine) c (line_of s)
  unfolding write_c cli
  write_c_refines h =
      ap (λ l. ((choose c s').0, l)) (sti_line s.machine.interrupts (choose c s').1)
      ∙ choose_at {s = s'} (record { ring = r.ring; sends = r.sends; bytes = r.bytes }) c
          (contents s.serial_buffer) refl r.bytes h
    where
      s' : Serial
      s' = (io cli s).1

choose-ring :
    {s : Serial} (c : ℕ)
    → IsReady s
    → IsValid (choose c s).1.serial_buffer
      × ((choose c s).1.serial_buffer.consume_func ≡ s.serial_buffer.consume_func)
unfolding choose is_thr_empty buf_consume buf_produce waiting has_room write_to_serial
choose-ring {s} c r = ground (
  arith,
  produce-IsValid c r.ring,
  consume-IsValid (inb com1_lsr s.machine).1 r.ring,
  same_func s.serial_buffer c (inb com1_lsr s.machine).1,
)

-- SER_write_c of a byte in a ready driver leaves it ready: the ring's indices in bounds, its
-- bytes bytes, and its consumer the transmitter.
pub write_c-IsReady : {s : Serial} (c : ℕ) → IsReady s → c < 256 → IsReady (write_c c s).1
unfolding write_c cli
write_c-IsReady {s} c r h = record {
  ring = ring.0;
  sends = ring.1 ∙ r.sends;
  bytes = subst AreBytes (ap (λ (p : Bool × Line). p.1.queue) (sym (write_c_refines c r h))) (
      AreBytes_write_c (thr_empty s.machine) c (sent s.machine.log) (contents s.serial_buffer)
        r.bytes h);
}
  where
    ring :
        IsValid (write_c c s).1.serial_buffer
        × ((write_c c s).1.serial_buffer.consume_func ≡ s.serial_buffer.consume_func)
    ring =
        choose-ring {s = (io cli s).1} c
          (record { ring = r.ring; sends = r.sends; bytes = r.bytes })
