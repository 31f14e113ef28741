-- ===== src/Buffer/Tests.antt =====
-- The ring of src/c/buffer.c on concrete calls.
use implement_os.Prelude.{ℕ, ◌≡◌, refl, List, [], ◌∷◌, replicate, arith}
use implement_os.Buffer.{Buffer}
use implement_os.Buffer.Invariant.{IsValid}
use implement_os.Buffer.Queue
use implement_os.Buffer.Queue.{Op, put, get, capacity}
use implement_os.Buffer.Refine.{contents, run, run_refines}

-- the world collects the bytes; the ring is about to wrap
abbrev ring : Buffer (List ℕ)
ring = record { buff = replicate 33 7; prod_index = 32; cons_index = 31; consume_func = ◌∷◌ }

ring-IsValid : IsValid ring
ring-IsValid = record { storage = refl; prod_in = omega arith; cons_in = omega arith }

abbrev calls : List Op
calls = put 1 ∷ put 2 ∷ get ∷ []

run_refines_example :
    let (b, w) = run ring [] calls in
    (contents b, w) ≡ Queue.run ring.consume_func (contents ring) [] calls
run_refines_example = run_refines calls [] ring-IsValid
