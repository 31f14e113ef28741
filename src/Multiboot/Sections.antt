-- ===== src/Multiboot/Sections.antt =====
-- src/c/multiboot_parser.c: `parse_elf` registers the kernel's sections as regions to avoid.
use implement_os.Prelude.{
  ℕ, zero, suc, ◌+◌, ◌*◌, ◌^◌, ◌≤◌, ◌<◌, ◌≡◌, refl, sym, ap, ◌∙◌, arith, some, ◌==◌, true,
  Bool-cases, inl, inr, ◌⊎◌, leb,
}
use mathlib.Core.Path.{subst}
use implement_os.Prelude.Words.{sub64}
use implement_os.Memory.{
  Memory, Structure, page_size, avoid_region_count, span_count, span_end, add_allocated_span,
}
use implement_os.Memory.Span.{
  IsTable, Covered, Registers, add_allocated_span-Registers, add_near-Registers,
  add_allocated_span-zero,
}
use implement_os.Multiboot.{word64, seen, register_section, elf_loop, parse_elf}

-- A registration finds room: no bytes, an entry left, or a start within a page of the last span's end.
abbrev pub IsTaken : Structure → (address size : ℕ) → Type 0
IsTaken s address size =
    (size ≡ 0)
    ⊎ ((span_count s < avoid_region_count)
        ⊎ ((k : ℕ) × (s.current_allocated_index ≡ some k)
            × (leb (sub64 address (span_end s k)) page_size ≡ true)))

-- Each of the `n` sections whose headers are at `ptr` finds room when it is registered.
module _ (info : ℕ → ℕ) where
  abbrev pub HasRoom : (n ptr : ℕ) → Structure → Type 0
  HasRoom zero ptr s = Unit
  HasRoom (suc n) ptr s =
      IsTaken s (word64 info (ptr + 16)) (word64 info (ptr + 32))
      × HasRoom n (ptr + 64)
          (add_allocated_span s (word64 info (ptr + 16)) (word64 info (ptr + 32)))

module _ (info : ℕ → ℕ) where
  -- where entry `i` of the section headers at `ptr` says that its section is
  abbrev pub section_start : ℕ → ℕ → ℕ
  section_start ptr i = word64 info (ptr + 64 * i + 16)

  abbrev pub section_size : ℕ → ℕ → ℕ
  section_size ptr i = word64 info (ptr + 64 * i + 32)

  -- what registering `n` sections is to leave
  pub record Avoids (s s' : Structure) (ptr n : ℕ) : Type 0 where
    pub table : IsTable s'
    pub keeps : (x : ℕ) → Covered s x → Covered s' x
    pub covers :
        (i x : ℕ)
        → i < n
        → section_start ptr i ≤ x
        → x < section_start ptr i + section_size ptr i
        → Covered s' x

registers_taken :
    {s : Structure} (address size : ℕ)
    → IsTable s
    → address + size < 2 ^ 63
    → IsTaken s address size
    → 0 < size
    → Registers s (add_allocated_span s address size) address size
registers_taken address size t fits (inl nothing) pos = absurd (omega arith)
registers_taken address size t fits (inr (inl room)) pos =
    add_allocated_span-Registers t address size fits room pos
registers_taken address size t fits (inr (inr (k, e, near))) pos =
    add_near-Registers t address size fits k e near pos

-- one section, of no bytes or of some
registers_section :
    (s : Structure) (address size : ℕ)
    → IsTable s
    → IsTaken s address size
    → address + size < 2 ^ 63
    → Registers s (add_allocated_span s address size) address size
registers_section s address size t taken fits = elim (Bool-cases (size == 0)) [
  | inr some_bytes ↦ registers_taken address size t fits taken (ground arith)
  | inl none_there ↦
      let z : size ≡ 0 = ground arith in
      let same : add_allocated_span s address size ≡ s =
        ap (add_allocated_span s address) z ∙ add_allocated_span-zero s address in
      record {
        table = subst IsTable (sym same) t;
        keeps = λ x c. subst (λ s'. Covered s' x) (sym same) c;
        covers = λ x lo hi. absurd (omega arith);
      }
]

pub elf_loop_keeps :
    (n ptr : ℕ) (m : Memory)
    → ((elf_loop n ptr m).free_pages ≡ m.free_pages) × ((elf_loop n ptr m).words ≡ m.words)
unfolding elf_loop
elf_loop_keeps zero ptr m = (refl, refl)
elf_loop_keeps (suc n) ptr m = elf_loop_keeps n (ptr + 64) (register_section ptr m)

elf_loop-Avoids :
    (n ptr : ℕ) (m : Memory)
    → IsTable m.structure
    → HasRoom (seen m) n ptr m.structure
    → ((i : ℕ) → i < n → section_start (seen m) ptr i + section_size (seen m) ptr i < 2 ^ 63)
    → Avoids (seen m) m.structure (elf_loop n ptr m).structure ptr n
unfolding elf_loop
elf_loop-Avoids zero ptr m t room fits = record {
  table = t;
  keeps = λ x c. c;
  covers = λ i x h. absurd (omega arith);
}
elf_loop-Avoids (suc n) ptr m t room fits =
    let info = seen m in
    let one =
      registers_section m.structure (word64 info (ptr + 16)) (word64 info (ptr + 32)) t room.0 (
        subst (λ a. word64 info (a + 16) + word64 info (a + 32) < 2 ^ 63) (omega arith)
          (fits 0 (omega arith))) in
    let rest = elf_loop-Avoids n (ptr + 64) (register_section ptr m) one.table room.1 (λ i h.
      subst (λ a. word64 info (a + 16) + word64 info (a + 32) < 2 ^ 63) (shifted i)
        (fits (suc i) (omega arith))) in
    record {
      table = rest.table;
      keeps = λ x c. rest.keeps x (one.keeps x c);
      covers = later rest one;
    }
  where
    shifted : (i : ℕ) → ptr + 64 * suc i ≡ ptr + 64 + 64 * i
    shifted i = omega arith

    later :
        Avoids
          (seen m)
          (register_section ptr m).structure
          (elf_loop n (ptr + 64) (register_section ptr m)).structure
          (ptr + 64)
          n
        → Registers m.structure
            (register_section ptr m).structure
            (word64 (seen m) (ptr + 16))
            (word64 (seen m) (ptr + 32))
        → (i x : ℕ) → i < suc n
        → section_start (seen m) ptr i ≤ x
        → x < section_start (seen m) ptr i + section_size (seen m) ptr i
        → Covered (elf_loop n (ptr + 64) (register_section ptr m)).structure x
    later rest one zero x h lo hi =
        let at : ptr + 64 * 0 ≡ ptr = omega arith in
        rest.keeps x (one.covers x (rw at at lo) (rw at at hi))
    later rest one (suc i) x h lo hi =
        rest.covers i x (omega arith) (rw (shifted i) at lo) (rw (shifted i) at hi)

-- parse_elf of a table of 64-byte headers, when each section ends below 2^63 and finds room, leaves
-- every byte of every section covered by a registered span, keeps covered what was covered, and
-- leaves the free pages and the memory as they were.
pub parse_elf-Avoids :
    (size ptr : ℕ) (m : Memory)
    → seen m (ptr + 4) ≡ 64
    → IsTable m.structure
    → HasRoom (seen m) (seen m ptr) (ptr + 12) m.structure
    → ((i : ℕ)
        → i < seen m ptr
        → section_start (seen m) (ptr + 12) i + section_size (seen m) (ptr + 12) i < 2 ^ 63)
    → (m' : Memory) × (parse_elf size ptr m ≡ some m')
      × Avoids (seen m) m.structure m'.structure (ptr + 12) (seen m ptr)
      × (m'.free_pages ≡ m.free_pages)
      × (m'.words ≡ m.words)
unfolding parse_elf
parse_elf-Avoids size ptr m e t room fits =
    let same : (seen m (ptr + 4) == 64) ≡ true = ground arith in
    (
      elf_loop (seen m ptr) (ptr + 12) m,
      rw same,
      elf_loop-Avoids (seen m ptr) (ptr + 12) m t room fits,
      (elf_loop_keeps (seen m ptr) (ptr + 12) m).0,
      (elf_loop_keeps (seen m ptr) (ptr + 12) m).1,
    )
