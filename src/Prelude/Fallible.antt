-- ===== src/Prelude/Fallible.antt =====
-- A state monad whose actions can run out of fuel, and what it means that one ends.
use mathlib.Core.Path.{◌≡◌}
use mathlib.Core.Option.{Option, none, some}

abbrev pub Io : Type 0 → Type 0 → Type 0
Io S A = S → Option (A × S)

module _ {S : Type 0} where
  abbrev pub pure : {A : Type 0} → A → Io S A
  pure a s = some (a, s)

  abbrev pub bind_result : {A B : Type 0} → (A → Io S B) → Option (A × S) → Option (B × S)
  bind_result f none = none
  bind_result f (some (a, s)) = f a s

  infixl 5 ◌>>=◌ ◌>>◌
  unfoldable pub ◌>>=◌ : {A B : Type 0} → Io S A → (A → Io S B) → Io S B
  (m >>= f) s = bind_result f (m s)

  abbrev pub ◌>>◌ : {A B : Type 0} → Io S A → Io S B → Io S B
  m >> k = m >>= λ _. k

  -- The action ends, and the predicate holds of its result and the state that it leaves.
  pub record Ends {A : Type 0} (m : Io S A) (s : S) (P : A → S → Type 0) : Type 0 where
    pub result : A
    pub state : S
    pub runs : m s ≡ some (result, state)
    pub holds : P result state

  pub Ends-bind :
      {A B : Type 0} {m : Io S A} (f : A → Io S B) {s : S} {P : A → S → Type 0} {Q : B → S → Type 0}
      → Ends m s P
      → ((a : A) (s' : S) → P a s' → Ends (f a) s' Q)
      → Ends (m >>= f) s Q
  unfolding ◌>>=◌
  Ends-bind f e then =
      let e' = then e.result e.state e.holds in
      record { result = e'.result; state = e'.state; runs = rw e.runs e'.runs; holds = e'.holds }
