-- ===== src/Strings/Compare.antt =====
-- src/c/lib.c: `strcmp` says 0 exactly on equal texts.
use mathlib.Core.Path.{subst, ap₂}
use implement_os.Prelude.{
  ℕ, zero, suc, ◌+◌, ◌<◌, ◌≡◌, ◌≢◌, ◌↔◌, inl, inr, refl, ap, sym, Option, ◌⊎◌, List, [], ◌∷◌,
  length, some, arith, if◌then◌else◌, ◌==◌, false, true, Bool-cases,
}
use implement_os.Strings.{Bytes, strcmp_loop, strcmp, cut_diff, char_diff}
use implement_os.Strings.Text.{IsText}

abbrev pub AreBytes : List ℕ → Type 0
AreBytes [] = Unit
AreBytes (x ∷ xs) = (x < 256) × AreBytes xs

cut_diff-zero : (a b : ℕ) → a < 256 → b < 256 → (cut_diff a b ≡ 0) ↔ (a ≡ b)
cut_diff-zero a b ha hb = ground arith

char_diff-zero : (a b : ℕ) → a < 256 → b < 256 → (char_diff a b ≡ 0) ↔ (a ≡ b)
char_diff-zero a b ha hb = ground arith

first : List ℕ → ℕ
first [] = 0
first (x ∷ xs) = x

rest_of : List ℕ → List ℕ
rest_of [] = []
rest_of (x ∷ xs) = xs

cons-eq : (x y : ℕ) (xs ys : List ℕ) → (x ∷ xs ≡ y ∷ ys) ↔ ((x ≡ y) × (xs ≡ ys))
unfolding first rest_of
cons-eq x y xs ys = (λ e. (ap first e, ap rest_of e), λ p. ap₂ ◌∷◌ p.0 p.1)

-- where both texts go on
strcmp_loop-same :
    (fuel s1 s2 index x y : ℕ) (m : Bytes)
    → m (s1 + index) ≡ x
    → m (s2 + index) ≡ y
    → x ≢ 0
    → y ≢ 0
    → strcmp_loop (suc fuel) s1 s2 index m
      ≡ (if cut_diff x y == 0 then strcmp_loop fuel s1 s2 (index + 1) m else some (cut_diff x y))
unfolding strcmp_loop
strcmp_loop-same fuel s1 s2 index x y m e1 e2 n1 n2 =
    let z1 : (x == 0) ≡ false = ground arith in
    let z2 : (y == 0) ≡ false = ground arith in rw (e1, e2) (rw (z1, z2))

strcmp_loop-ends :
    (fuel s1 s2 index x y : ℕ) (m : Bytes)
    → m (s1 + index) ≡ x
    → m (s2 + index) ≡ y
    → ((x == 0) ≡ true) ⊎ ((y == 0) ≡ true)
    → strcmp_loop (suc fuel) s1 s2 index m ≡ some (char_diff x y)
unfolding strcmp_loop
strcmp_loop-ends fuel s1 s2 index x y m e1 e2 (inl z) = rw (e1, e2) (rw z)
strcmp_loop-ends fuel s1 s2 index x y m e1 e2 (inr z) =
    rw (e1, e2) (elim (Bool-cases (x == 0)) [ inl w ↦ rw w | inr w ↦ rw (w, z) ])

-- what `strcmp` is to return for two texts
abbrev pub Compares : List ℕ → List ℕ → Option ℕ → Type 0
Compares xs ys out = (r : ℕ) × (out ≡ some r) × ((r ≡ 0) ↔ (xs ≡ ys))

strcmp_loop_lem :
    (fuel s1 s2 index : ℕ) (m : Bytes) (xs ys : List ℕ)
    → IsText m (s1 + index) xs
    → IsText m (s2 + index) ys
    → AreBytes xs
    → AreBytes ys
    → length xs < fuel
    → Compares xs ys (strcmp_loop fuel s1 s2 index m)
strcmp_loop_lem zero s1 s2 index m xs ys t u b c h = absurd (omega arith)
strcmp_loop_lem (suc fuel) s1 s2 index m [] [] t u b c h =
    (char_diff 0 0, strcmp_loop-ends fuel s1 s2 index 0 0 m t u (inl refl), (λ e. refl, λ e. refl))
strcmp_loop_lem (suc fuel) s1 s2 index m [] (y ∷ ys) t u b c h = (
  char_diff 0 y,
  strcmp_loop-ends fuel s1 s2 index 0 y m t u.0 (inl refl),
  (λ e. absurd (u.1 (sym ((char_diff-zero 0 y (omega arith) c.0).0 e))), λ e. cc),
)
strcmp_loop_lem (suc fuel) s1 s2 index m (x ∷ xs) [] t u b c h = (
  char_diff x 0,
  strcmp_loop-ends fuel s1 s2 index x 0 m t.0 u (inr refl),
  (λ e. absurd (t.1 ((char_diff-zero x 0 b.0 (omega arith)).0 e)), λ e. cc),
)
strcmp_loop_lem (suc fuel) s1 s2 index m (x ∷ xs) (y ∷ ys) t u b c h =
    let step = strcmp_loop-same fuel s1 s2 index x y m t.0 u.0 t.1 u.1 in
    let n1 : s1 + index + 1 ≡ s1 + (index + 1) = omega arith in
    let n2 : s2 + index + 1 ≡ s2 + (index + 1) = omega arith in
    elim (Bool-cases (cut_diff x y == 0)) [
      | inl z ↦
          let p : x ≡ y = (cut_diff-zero x y b.0 c.0).0 (ground arith) in
          let (r, runs, is) =
            strcmp_loop_lem fuel s1 s2 (index + 1) m xs ys (subst (λ s. IsText m s xs) n1 t.2)
              (subst (λ s. IsText m s ys) n2 u.2) b.1 c.1 (omega arith) in
          (
            r,
            rw step (rw z runs),
            (λ e. (cons-eq x y xs ys).1 (p, is.0 e), λ e. is.1 ((cons-eq x y xs ys).0 e).1),
          )
      | inr z ↦ (
        cut_diff x y,
        rw step (rw z),
        (
          λ e. absurd (ground arith),
          λ e. (cut_diff-zero x y b.0 c.0).1 ((cons-eq x y xs ys).0 e).0,
        ),
      )
    ]

-- On two texts of bytes in memory, with fuel above the length of the first, strcmp returns, and
-- what it returns is 0 exactly when the texts are equal.
pub strcmp-zero_iff :
    (fuel s1 s2 : ℕ) (m : Bytes) (xs ys : List ℕ)
    → IsText m s1 xs
    → IsText m s2 ys
    → AreBytes xs
    → AreBytes ys
    → length xs < fuel
    → Compares xs ys (strcmp fuel s1 s2 m)
unfolding strcmp
strcmp-zero_iff fuel s1 s2 m xs ys t u =
    let z1 : s1 ≡ s1 + 0 = omega arith in
    let z2 : s2 ≡ s2 + 0 = omega arith in
    strcmp_loop_lem fuel s1 s2 0 m xs ys (subst (λ s. IsText m s xs) z1 t)
      (subst (λ s. IsText m s ys) z2 u)
