-- ===== src/Machine.antt =====
-- The processor's ports and interrupt flag, as src/c/lib.c reaches them with `inb`, `outb`, `cli`
-- and `sti`. The devices are not the repository's: what a read of a port answers is a parameter,
-- a function of everything that has been read and written before.
use implement_os.Prelude.{ℕ, ◌%◌, ◌^◌, Bool, false, true, List, ◌∷◌, if◌then◌else◌}
use implement_os.Prelude.State.{M}

pub data Event : Type 0 where
  wrote : ℕ → ℕ → Event
  asked : ℕ → Event

-- The log has the latest event first.
pub record Machine : Type 0 where
  pub device : List Event → ℕ → ℕ
  pub log : List Event
  pub interrupts : Bool

-- `outb(val, port)`
unfoldable pub outb : ℕ → ℕ → M Machine (Unit {0})
outb val port m = (tt, record m { log = wrote (val % 2 ^ 8) port ∷ m.log })

-- what the device at a port answers now
abbrev pub answer : Machine → ℕ → ℕ
answer m port = m.device m.log port % 2 ^ 8

unfoldable pub inb : ℕ → M Machine ℕ
inb port m = (answer m port, record m { log = asked port ∷ m.log })

-- `cli` returns whether interrupts were on, `sti` turns them on again if so.
unfoldable pub cli : M Machine Bool
cli m = (m.interrupts, record m { interrupts = false })

unfoldable pub sti : Bool → M Machine (Unit {0})
sti c m = (tt, if c then record m { interrupts = true } else m)
