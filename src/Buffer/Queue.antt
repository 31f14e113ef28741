-- ===== src/Buffer/Queue.antt =====
-- What the byte ring of src/c/buffer.c promises: a queue of at most 32 bytes, oldest first, that
-- drops a byte offered when it is full.
use implement_os.Prelude.{ℕ, List, [], ◌∷◌, ◌++◌, length, ltb, if◌then◌else◌}

abbrev pub Queue : Type 0
Queue = List ℕ

abbrev pub capacity : ℕ
capacity = 32

unfoldable pub produce : Queue → ℕ → Queue
produce q byte = if ltb (length q) capacity then q ++ (byte ∷ []) else q

unfoldable pub consume : {W : Type 0} → (ℕ → W → W) → Queue → W → Queue × W
consume f [] w = ([], w)
consume f (x ∷ q) w = (q, f x w)

-- The calls that the serial driver makes of its buffer.
pub data Op : Type 0 where
  put : ℕ → Op
  get : Op

-- `f` receives each byte that is taken out.
unfoldable pub run : {W : Type 0} → (ℕ → W → W) → Queue → W → List Op → Queue × W
run f q w [] = (q, w)
run f q w (put x ∷ ops) = run f (produce q x) w ops
run f q w (get ∷ ops) = let (q', w') = consume f q w in run f q' w' ops
