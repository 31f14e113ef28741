-- ===== src/Buffer/Refine.antt =====
-- src/c/buffer.c: a valid ring behaves as the queue of the bytes from `cons_index` up to
-- `prod_index`, going round at the end of the storage.
use mathlib.Core.Path.{ap₂}
use implement_os.Prelude.{
  ℕ, zero, suc, ◌+◌, ◌-◌, ◌<◌, ◌≡◌, refl, ap, List, [], ◌∷◌, ◌++◌, arith, length, get_or, set, ltb,
  leb, if◌then◌else◌, Bool-cases, inl, inr, ◌==◌, false, get_or-set_self, get_or-set_ne,
}
use implement_os.Buffer.{Buffer, buffer_size, consume, produce, consumeable, produceable}
use implement_os.Buffer.Queue
use implement_os.Buffer.Queue.{Queue, capacity, Op, put, get}
use implement_os.Buffer.Invariant.{IsValid, consume-IsValid, produce-IsValid}

-- one step round the ring
abbrev pub after : ℕ → ℕ
after h = if leb buffer_size (h + 1) then 0 else h + 1

-- the `n` bytes from index `h` on
abbrev pub window : List ℕ → ℕ → ℕ → Queue
window buf h zero = []
window buf h (suc n) = get_or buf h 0 ∷ window buf (after h) n

-- how many steps lead from `cons_index` to `prod_index`
abbrev pub distance : ℕ → ℕ → ℕ
distance p c = if ltb p c then buffer_size + p - c else p - c

abbrev pub contents : {W : Type 0} → Buffer W → Queue
contents b = window b.buff b.cons_index (distance b.prod_index b.cons_index)

length-window : (buf : List ℕ) (h n : ℕ) → length (window buf h n) ≡ n
length-window buf h zero = refl
length-window buf h (suc n) = ap suc (length-window buf (after h) n)

window_of_pos :
    (buf : List ℕ) (h n m : ℕ)
    → n ≡ suc m
    → window buf h n ≡ get_or buf h 0 ∷ window buf (after h) m
window_of_pos buf h n m e = ap (window buf h) e

-- Writing just past a window extends it by that byte.
window-set :
    (buf : List ℕ) (x n h p : ℕ)
    → length buf ≡ buffer_size
    → h < buffer_size
    → p < buffer_size
    → n < capacity
    → distance p h ≡ n
    → window (set buf p x) h (suc n) ≡ window buf h n ++ (x ∷ [])
window-set buf x zero h p s hh hp hn e =
    let same : p ≡ h = ground arith in rw (same, get_or-set_self buf h x 0 (omega arith))
window-set buf x (suc n) h p s hh hp hn e =
    ap₂ ◌∷◌ (get_or-set_ne buf x 0 (ground arith))
      (window-set buf x n (after h) p s (ground arith) hp (omega arith) (ground arith))

module _ {W : Type 0} where
  pub length-contents : (b : Buffer W) → length (contents b) ≡ distance b.prod_index b.cons_index
  length-contents b = length-window b.buff b.cons_index (distance b.prod_index b.cons_index)

  -- On a ring with its indices in bounds, BUF_consumeable is the number of bytes that wait and
  -- BUF_produceable the room that is left of 32.
  pub counts-contents :
      {b : Buffer W}
      → IsValid b
      → (consumeable b ≡ length (contents b)) × (produceable b + length (contents b) ≡ capacity)
  unfolding consumeable produceable
  counts-contents {b} v = ground (arith, length-contents b)

  -- `BUF_produce` is the queue's `produce`: at the back, or dropped when 32 bytes wait.
  pub produce_refines :
      {b : Buffer W} (x : ℕ) → IsValid b → contents (produce b x) ≡ Queue.produce (contents b) x
  unfolding produce Queue.produce
  produce_refines {b} x v = ground (
    arith,
    length-contents b,
    window-set b.buff x (distance b.prod_index b.cons_index) b.cons_index b.prod_index,
  )

  -- `BUF_consume` is the queue's `consume`: the oldest byte goes to `consume_func`.
  pub consume_refines :
      {b : Buffer W} (w : W)
      → IsValid b
      → let (b', w') = consume b w in
        (contents b', w') ≡ Queue.consume b.consume_func (contents b) w
  unfolding consume Queue.consume
  consume_refines {b} w v = elim (Bool-cases (b.prod_index == b.cons_index)) [
    | inl e ↦ ground arith
    | inr e ↦ ground (
      arith,
      window_of_pos b.buff b.cons_index n (n - 1) (ground arith),
      ap (window b.buff (after b.cons_index)) (rest e),
    )
  ]
    where
      n : ℕ
      n = distance b.prod_index b.cons_index

      rest :
          (b.prod_index == b.cons_index) ≡ false
          → distance b.prod_index (after b.cons_index) ≡ n - 1
      rest e = ground arith

  pub same_func :
      (b : Buffer W) (x : ℕ) (w : W)
      → ((produce b x).consume_func ≡ b.consume_func)
        × ((consume b w).0.consume_func ≡ b.consume_func)
  unfolding produce consume
  same_func b x w = ground arith

  -- A client's calls in order.
  pub run : Buffer W → W → List Op → Buffer W × W
  run b w [] = (b, w)
  run b w (put x ∷ ops) = run (produce b x) w ops
  run b w (get ∷ ops) = let (b', w') = consume b w in run b' w' ops

  -- No sequence of BUF_produce and BUF_consume calls on a ring with its indices in bounds tells
  -- the ring from the bounded queue of its contents: the bytes that wait and what consume_func
  -- has made of the world are the same.
  pub run_refines :
      (ops : List Op) {b : Buffer W} (w : W)
      → IsValid b
      → let (b', w') = run b w ops in
        (contents b', w') ≡ Queue.run b.consume_func (contents b) w ops
  unfolding run Queue.run
  run_refines [] w v = refl
  run_refines (put x ∷ ops) {b} w v =
      rw (run_refines ops w (produce-IsValid x v), ← produce_refines x v, (same_func b x w).0)
  run_refines (get ∷ ops) {b} w v = rw (
    run_refines ops (consume b w).1 (consume-IsValid w v),
    ← consume_refines w v,
    (same_func b 0 w).1,
  )
