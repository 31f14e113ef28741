-- ===== src/Buffer.antt =====
-- src/c/buffer.c: the byte ring behind the serial port.
pub mod Queue
pub mod Invariant
pub mod Refine
mod Tests
use implement_os.Prelude.{
  ℕ, ◌+◌, ◌-◌, ◌%◌, ◌^◌, Bool, List, get_or, set, ltb, leb, ◌==◌, ◌&&◌, ◌||◌, if◌then◌else◌,
}

-- `BUFFER_SIZE`
abbrev pub buffer_size : ℕ
buffer_size = 33

-- `struct Buffer`. `consume_func` acts on whatever the consumer's world `W` is.
pub record Buffer (W : Type 0) : Type 0 where
  pub buff : List ℕ
  pub prod_index : ℕ
  pub cons_index : ℕ
  pub consume_func : ℕ → W → W

module _ {W : Type 0} where
  unfoldable pub init : Buffer W → (ℕ → W → W) → Buffer W
  init b f = record b { prod_index = 0; cons_index = 0; consume_func = f }

  -- The index is bumped, the byte delivered, and then the index wrapped.
  unfoldable pub consume : Buffer W → W → Buffer W × W
  consume b w =
      if b.prod_index == b.cons_index
      then (b, w)
      else (let byte = get_or b.buff b.cons_index 0 in
          let next = b.cons_index + 1 in
          (
            record b { cons_index = if leb buffer_size next then 0 else next },
            b.consume_func byte w,
          ))

  -- `prod_index == cons_index - 1` is a test on `int`, false at `cons_index == 0`.
  pub is_full : Buffer W → Bool
  is_full b =
      b.prod_index + 1 == b.cons_index || (b.prod_index == buffer_size - 1 && b.cons_index == 0)

  unfoldable pub produce : Buffer W → ℕ → Buffer W
  unfolding is_full
  produce b byte =
      if is_full b
      then b
      else (let next = b.prod_index + 1 in
          record b {
            buff = set b.buff b.prod_index byte;
            prod_index = if leb buffer_size next then 0 else next;
          })

  -- The result is a `uint8_t`.
  unfoldable pub consumeable : Buffer W → ℕ
  consumeable b =
      if b.prod_index == b.cons_index
      then 0
      else if ltb b.cons_index b.prod_index
      then (b.prod_index - b.cons_index) % 2 ^ 8
      else (buffer_size - (b.cons_index - b.prod_index)) % 2 ^ 8

  unfoldable pub produceable : Buffer W → ℕ
  unfolding consumeable
  produceable b =
      if b.cons_index == b.prod_index
      then buffer_size - 1
      else (buffer_size - consumeable b - 1) % 2 ^ 8
