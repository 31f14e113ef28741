-- ===== src/Buffer/Invariant.antt =====
-- The indices of src/c/buffer.c stay inside the storage.
use implement_os.Prelude.{ℕ, ◌+◌, ◌<◌, ◌≡◌, arith, length, length-set}
use implement_os.Buffer.{Buffer, buffer_size, init, consume, produce, consumeable, produceable}

module _ {W : Type 0} where
  pub record IsValid (b : Buffer W) : Type 0 where
    pub storage : length b.buff ≡ buffer_size
    pub prod_in : b.prod_index < buffer_size
    pub cons_in : b.cons_index < buffer_size

  pub init-IsValid :
      (b : Buffer W) (f : ℕ → W → W) → length b.buff ≡ buffer_size → IsValid (init b f)
  unfolding init
  init-IsValid b f h = ground arith

  pub consume-IsValid : {b : Buffer W} (w : W) → IsValid b → IsValid (consume b w).0
  unfolding consume
  consume-IsValid w v = ground arith

  pub produce-IsValid : {b : Buffer W} (x : ℕ) → IsValid b → IsValid (produce b x)
  unfolding produce
  produce-IsValid {b} x v = ground (arith, length-set b.buff b.prod_index x)

  -- The two counts add up to the capacity, and neither `uint8_t` wraps.
  pub consumeable-add-produceable : {b : Buffer W} → IsValid b → consumeable b + produceable b ≡ 32
  unfolding consumeable produceable
  consumeable-add-produceable v = ground arith
