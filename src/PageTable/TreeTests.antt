-- ===== src/PageTable/TreeTests.antt =====
-- The page tables of src/c/page_table.c at the start, with 515 free frames from 1 MiB on.
use implement_os.Prelude.{
  ℕ, zero, suc, ◌+◌, ◌*◌, ◌≤◌, ◌<◌, ◌≡◌, refl, sym, inl, arith, none, true, List, [], ◌∷◌, ◌++◌,
  length, leb, ◌==◌, if◌then◌else◌,
}
use implement_os.Memory.{page_size, pf_alloc}
use implement_os.Memory.FreeList.{Linked, last, Fresh, Distinct, IsFreeList}
use implement_os.Memory.Pages.{Each}
use implement_os.Memory.Faults.{after_allocs}
use implement_os.PageTable.{Mmu, slot, store, get_pml1, init, alloc_page, can_allocate, free_page}
use implement_os.PageTable.Entry.{get_add}
use implement_os.PageTable.EntryLaws.{IsFrame}
use implement_os.PageTable.Address.{IsIndexed, page_number}
use implement_os.PageTable.Tables.{IsAway}
use implement_os.PageTable.Demand.{entry}
use implement_os.PageTable.Walk.{IsTree}
use implement_os.PageTable.SetUp.{HasFrames, IsUnused, init-IsTree}
use implement_os.PageTable.Cycle.{IsReadyFor, page_returns, unwritten_page-twice}
use implement_os.PageTable.Ready.{init-IsReadyFor}

abbrev p3 : ℕ
p3 = 0x1000

-- `n` frames from `b` on, and the two behind them
unfoldable frames : (b n : ℕ) → List ℕ
frames b zero = []
frames b (suc n) = b ∷ frames (b + 4096) n

-- the links of the free frames, and the boot code's tables for address 0
abbrev words : ℕ → ℕ
words a =
    if leb 0x302000 a
    then 0
    else if leb 0x100000 a
    then a + 4096
    else if a == 0x1000
    then 0x2003
    else if a == 0x2000
    then 0x3003
    else 0

abbrev start : Mmu
start = record {
  curr_pml1_index = 0;
  curr_pml2_index = 0;
  curr_pml3_index = 1;
  curr_stack_pml1_index = 512;
  curr_stack_pml2_index = 512;
  curr_stack_pml3_index = 1;
  memory = record {
    structure = record {
      allocated_addresses = [];
      allocated_sizes = [];
      current_allocated_index = none;
      start_address = 0;
      address_space_size = 0;
    };
    free_pages = record { page_head = 0x100000; page_tail = 0x302000; count = 515 };
    words = words;
    raised = [];
  };
  machine = record { device = λ log port. 0; log = []; interrupts = true };
}

abbrev spare : List ℕ
spare = 0x301000 ∷ 0x302000 ∷ []

length-frames : (b n : ℕ) → length (frames b n) ≡ n
unfolding frames
length-frames b zero = refl
length-frames b (suc n) = omega (arith, length-frames (b + 4096) n)

length-with_spare : (b n : ℕ) → length (frames b n ++ spare) ≡ n + 2
unfolding frames
length-with_spare b zero = refl
length-with_spare b (suc n) = omega (arith, length-with_spare (b + 4096) n)

with_spare-Each :
    (P : ℕ → Type 0) (b n : ℕ)
    → 0x100000 ≤ b
    → b + 4096 * n ≡ 0x301000
    → ((k : ℕ) → 0x100 ≤ k → k < 0x303 → P (4096 * k))
    → (c : ℕ) → b ≡ 4096 * c
    → Each P (frames b n ++ spare)
unfolding frames
with_spare-Each P b zero lo e p c at =
    (p 0x301 (omega arith) (omega arith), (p 0x302 (omega arith) (omega arith), tt))
with_spare-Each P b (suc n) lo e p c at = (
  rw at (p c (omega arith) (omega arith)),
  with_spare-Each P (b + 4096) n (omega arith) (omega arith) p (c + 1) (omega arith),
)

with_spare-Linked :
    (b n : ℕ) → 0x100000 ≤ b → b + 4096 * n ≡ 0x301000 → Linked words b (frames b n ++ spare) 0
unfolding frames
with_spare-Linked b zero lo e = (omega arith, (λ z. omega arith), (refl, (λ z. omega arith), refl))
with_spare-Linked b (suc n) lo e = (
  refl,
  (λ z. omega arith),
  rw (next b lo (omega arith)) (with_spare-Linked (b + 4096) n (omega arith) (omega arith)),
)
  where
    next : (a : ℕ) → 0x100000 ≤ a → a < 0x302000 → words a ≡ a + 4096
    next a lo hi = ground arith

with_spare-last : (y b n : ℕ) → last y (frames b n ++ spare) ≡ 0x302000
unfolding frames
with_spare-last y b zero = refl
with_spare-last y b (suc n) = with_spare-last b (b + 4096) n

with_spare-Fresh : (a b n : ℕ) → a < b → b + 4096 * n ≡ 0x301000 → Fresh a (frames b n ++ spare)
unfolding frames
with_spare-Fresh a b zero lt e = ((λ z. omega arith), ((λ z. omega arith), tt))
with_spare-Fresh a b (suc n) lt e =
    ((λ z. omega arith), with_spare-Fresh a (b + 4096) n (omega arith) (omega arith))

with_spare-Distinct : (b n : ℕ) → b + 4096 * n ≡ 0x301000 → Distinct (frames b n ++ spare)
unfolding frames
with_spare-Distinct b zero e = (((λ z. omega arith), tt), (tt, tt))
with_spare-Distinct b (suc n) e = (
  with_spare-Fresh b (b + 4096) n (omega arith) (omega arith),
  with_spare-Distinct (b + 4096) n (omega arith),
)

null_at : entry p3 start 0 ≡ 0x3000
unfolding get_pml1 get_add
null_at = refl

start-HasFrames : HasFrames p3 0x100000 (frames 0x101000 512) spare start
start-HasFrames = record {
  full = length-frames 0x101000 512;
  list = record {
    linked = (refl, (λ z. omega arith), with_spare-Linked 0x101000 512 (omega arith) refl);
    ends = sym (with_spare-last 0x100000 0x101000 512);
    distinct = (
      with_spare-Fresh 0x100000 0x101000 512 (omega arith) refl,
      with_spare-Distinct 0x101000 512 refl,
    );
    count = omega (arith, length-with_spare 0x101000 512);
    small = omega (arith, length-with_spare 0x101000 512);
  };
  frames = (
    (refl, omega arith),
    with_spare-Each IsFrame 0x101000 512 (omega arith) refl (λ k lo hi. (omega arith, omega arith))
        0x101 refl,
  );
  null_apart = (
    inl (omega (arith, null_at)),
    with_spare-Each (IsAway (entry p3 start 0)) 0x101000 512 (omega arith) refl
        (λ k lo hi. inl (omega (arith, null_at))) 0x101 refl,
  );
  top_apart = (
    inl (omega arith),
    with_spare-Each (IsAway (slot p3 1)) 0x101000 512 (omega arith) refl
        (λ k lo hi. inl (omega arith)) 0x101 refl,
  );
}

start-IsIndexed : IsIndexed start
start-IsIndexed = record { low = omega arith; middle = omega arith; top = omega arith }

init-IsTree_example :
    let s = (init p3 start).1 in
    IsTree p3 0x100000 (frames 0x101000 512) s.memory.words
    × IsFreeList s.memory spare
    × IsUnused p3 s
    × (s ≡ record start { memory = s.memory })
init-IsTree_example = init-IsTree start-HasFrames

-- the state after `PT_init`
abbrev set_up : Mmu
set_up = (init p3 start).1

set_up-IsReadyFor : IsReadyFor p3 0x100000 (frames 0x101000 512) 0x301000 0x302000 [] set_up
set_up-IsReadyFor = init-IsReadyFor start-HasFrames start-IsIndexed (omega arith) (omega arith)

page_returns_example :
    let (a, s1) = alloc_page p3 set_up in
    let (done, s2) = can_allocate p3 a s1 in
    let s3 = (store 0x301000 0 s2).1 in
    let s4 = (free_page p3 a s3).1 in
    (a ≡ page_size * (page_number set_up + 1))
    × (done ≡ 1)
    × (s2.memory.words (entry p3 s2 a) ≡ 0x301000 + 7)
    × IsFreeList s4.memory ((0x302000 ∷ []) ++ (0x301000 ∷ []))
    × (s4.memory.words (entry p3 s3 a) ≡ 0)
page_returns_example = page_returns set_up-IsReadyFor

abbrev others : List ℕ
others = 0x302000 ∷ []

unwritten_page-twice_example :
    let (a, s1) = alloc_page p3 set_up in
    let s2 = (can_allocate p3 a s1).1 in
    let m = (free_page p3 a s2).1.memory in
    ((pf_alloc m).0 ≡ 0x302000) × ((pf_alloc (after_allocs (length others + 1) m)).0 ≡ 0x302000)
unwritten_page-twice_example = unwritten_page-twice set_up-IsReadyFor
