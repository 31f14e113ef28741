-- ===== src/Strings/Text.antt =====
-- src/c/lib.c: `strlen`, `strcpy` and `strchr` on a text in memory.
use mathlib.Core.Path.{subst}
use implement_os.Prelude.{
  ℕ, zero, suc, ◌+◌, ◌-◌, ◌≤◌, ◌<◌, ◌≡◌, ◌≢◌, ◌⊎◌, ◌∙◌, ap, List, [], ◌∷◌, length, some, arith,
  if◌then◌else◌, ◌==◌, false,
}
use implement_os.Strings.{Bytes, poke, strlen_loop, strlen, strcpy_loop, strcpy}
use implement_os.Strings.Blocks.{within}

-- At `s` stand these bytes, none of them zero, and then a zero byte.
abbrev pub IsText : Bytes → ℕ → List ℕ → Type 0
IsText m s [] = m s ≡ 0
IsText m s (x ∷ xs) = (m s ≡ x) × (x ≢ 0) × IsText m (s + 1) xs

strlen_loop-length :
    (fuel s size : ℕ) (m : Bytes) (xs : List ℕ)
    → IsText m s xs
    → length xs < fuel
    → strlen_loop fuel s size m ≡ some (size + length xs)
unfolding strlen_loop
strlen_loop-length zero s size m xs t h = absurd (omega arith)
strlen_loop-length (suc fuel) s size m [] t h = ground arith
strlen_loop-length (suc fuel) s size m (x ∷ xs) t h =
    ground (arith, strlen_loop-length fuel (s + 1) (size + 1) m xs t.2)

-- strlen of a text, with fuel above its length, returns its length.
pub strlen-length :
    (fuel s : ℕ) (m : Bytes) (xs : List ℕ)
    → IsText m s xs
    → length xs < fuel
    → strlen fuel s m ≡ some (length xs)
unfolding strlen
strlen-length fuel s m xs t h = strlen_loop-length fuel s 0 m xs t h ∙ ap some (omega arith)

-- Bytes elsewhere may change.
IsText-poke :
    (a v s : ℕ) (m : Bytes) (xs : List ℕ)
    → IsText m s xs
    → (a < s) ⊎ (s + length xs < a)
    → IsText (poke m a v) s xs
IsText-poke a v s m [] t h = ground arith
IsText-poke a v s m (x ∷ xs) t h =
    (ground arith, t.1, IsText-poke a v (s + 1) m xs t.2 (ground arith))

-- The loop of `strcpy` copies the bytes of the text and leaves every other address alone.
strcpy_loop_lem :
    (fuel dest src index : ℕ) (m : Bytes) (xs : List ℕ)
    → IsText m (src + index) xs
    → length xs < fuel
    → (dest + index + length xs ≤ src + index) ⊎ (src + index + length xs < dest + index)
    → (m' : Bytes) × (strcpy_loop fuel dest src index m ≡ some m')
      × ((a : ℕ)
          → m' a ≡ (if within (dest + index) (length xs) a then m (src + (a - dest)) else m a))
unfolding strcpy_loop
strcpy_loop_lem zero dest src index m xs t h away = absurd (omega arith)
strcpy_loop_lem (suc fuel) dest src index m [] t h away = (m, rw t, λ a. ground arith)
strcpy_loop_lem (suc fuel) dest src index m (x ∷ xs) t h away =
    let m1 : Bytes = poke m (dest + index) (m (src + index)) in
    let next : src + index + 1 ≡ src + (index + 1) = omega arith in
    let t' : IsText m1 (src + (index + 1)) xs =
      subst (λ s. IsText m1 s xs) next
        (IsText-poke (dest + index) (m (src + index)) (src + index + 1) m xs t.2 (ground arith)) in
    let more : (m (src + index) == 0) ≡ false = ground arith in
    let (m', runs, is) =
      strcpy_loop_lem fuel dest src (index + 1) m1 xs t' (omega arith) (ground arith) in
    (m', rw more runs, λ a. ground (arith, is a))

-- strcpy of a text, with fuel above its length, to a place that does not overlap it ends,
-- copies the text's bytes and leaves every other address as it was, the one behind the copy
-- included.
pub strcpy_lem :
    (fuel dest src : ℕ) (m : Bytes) (xs : List ℕ)
    → IsText m src xs
    → length xs < fuel
    → (dest + length xs ≤ src) ⊎ (src + length xs < dest)
    → (m' : Bytes) × (strcpy fuel dest src m ≡ some m')
      × ((a : ℕ) → m' a ≡ (if within dest (length xs) a then m (src + (a - dest)) else m a))
unfolding strcpy
strcpy_lem fuel dest src m xs t h away =
    let s0 : src ≡ src + 0 = omega arith in
    let (m', runs, is) =
      strcpy_loop_lem fuel dest src 0 m xs (subst (λ s. IsText m s xs) s0 t) h (ground arith) in
    (m', runs, λ a. ground (arith, is a))
