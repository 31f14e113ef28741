-- ===== src/Serial/Line.antt =====
-- What src/c/serial.c does to the line: the bytes sent and the bytes that wait, with no ring, no
-- ports and no log. `ready` is the transmitter's answer at the moment of the call.
use implement_os.Prelude.{ℕ, Bool, true, false, List, [], ◌∷◌, ◌++◌, length, ltb, if◌then◌else◌}

pub record Line : Type 0 where
  pub sent : List ℕ
  pub queue : List ℕ

abbrev pub line : List ℕ → List ℕ → Line
line s q = record { sent = s; queue = q }

-- A byte offered while others wait and the transmitter is ready sends the oldest of them.
unfoldable pub write_c : Bool → ℕ → Line → Bool × Line
write_c ready c l = elim l.queue [
  | [] ↦ (true, if ready then line (l.sent ++ (c ∷ [])) [] else line l.sent (c ∷ []))
  | x ∷ q ↦
      if ready
      then (true, line (l.sent ++ (x ∷ [])) q)
      else if ltb (length (x ∷ q)) 32
      then (true, line l.sent ((x ∷ q) ++ (c ∷ [])))
      else (false, line l.sent (x ∷ q))
]

unfoldable pub trigger_write : Bool → Line → Bool × Line
trigger_write ready l = elim l.queue [
  | [] ↦ (false, l)
  | x ∷ q ↦ if ready then (true, line (l.sent ++ (x ∷ [])) q) else (false, l)
]
