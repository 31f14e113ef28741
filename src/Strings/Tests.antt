-- ===== src/Strings/Tests.antt =====
-- The routines of src/c/lib.c on two short texts in memory.
use implement_os.Prelude.{ℕ, refl, List, [], ◌∷◌, arith, ◌==◌, if◌then◌else◌}
use implement_os.Strings.{Bytes, strcmp, to_string}
use implement_os.Strings.Text.{IsText}
use implement_os.Strings.Compare.{Compares, strcmp-zero_iff}
use implement_os.Strings.Render.{Renders, to_string_lem}

-- "ab" at 10 and "a" at 20
abbrev memory : Bytes
memory a = if a == 10 then b'a' else if a == 11 then b'b' else if a == 20 then b'a' else 0

abbrev ab : List ℕ
ab = b'a' ∷ b'b' ∷ []

abbrev only_a : List ℕ
only_a = b'a' ∷ []

ab-IsText : IsText memory 10 ab
ab-IsText = (refl, λ e. omega arith, (refl, λ e. omega arith, refl))

only_a-IsText : IsText memory 20 only_a
only_a-IsText = (refl, λ e. omega arith, refl)

strcmp-zero_iff_example : Compares ab only_a (strcmp 5 10 20 memory)
strcmp-zero_iff_example =
    strcmp-zero_iff 5 10 20 memory ab only_a ab-IsText only_a-IsText
      (omega arith, (omega arith, tt)) (omega arith, tt) (omega arith)

to_string_lem_example : Renders 16 0x2af 40 memory (to_string 1000 0x2af 40 16 memory)
to_string_lem_example =
    to_string_lem 16 40 (omega arith) (omega arith) 1000 0x2af memory (λ e. omega arith)
      (omega arith) refl
