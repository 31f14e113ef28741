-- ===== src/Heap/Cycle.antt =====
-- src/c/allocator.c: what becomes of a block that `kmalloc` hands out when `kfree` gets it back.
use mathlib.Core.Path.{subst}
use implement_os.Prelude.{
  ℕ, zero, suc, ◌+◌, ◌-◌, ◌%◌, ◌^◌, ◌≤◌, ◌<◌, ◌≡◌, ◌≢◌, refl, ◌∙◌, sym, List, [], ◌∷◌, ◌++◌, length,
  some, arith, ltb, ◌==◌, if◌then◌else◌, false, Bool-cases, inl, inr,
}
use implement_os.Memory.{write}
use implement_os.Memory.FreeList.{
  Linked, Fresh, Distinct, Distinct-append, last, last-append, Linked-append, Linked-close,
}
use implement_os.Heap.{
  Heap, pool_at, header_size, as_int, traverse, relink, return_block, find_pool, kmalloc, kfree,
}
use implement_os.Heap.Blocks.{AreBlocks}
use implement_os.Heap.Pools.{IsPool, kmalloc_lem}

traverse-last :
    (fuel p x : ℕ) (xs : List ℕ) (w : ℕ → ℕ)
    → length xs < fuel
    → Linked w p (x ∷ xs) 0
    → traverse fuel p w ≡ some (last x xs)
unfolding traverse
traverse-last zero p x xs w h l = absurd (omega arith)
traverse-last (suc fuel) p x [] w h l = ground arith
traverse-last (suc fuel) p x (y ∷ ys) w h l = ground (arith, traverse-last fuel (w x) y ys w)

traverse_null : (fuel : ℕ) (w : ℕ → ℕ) → 0 < fuel → w 0 ≡ 0 → traverse fuel 0 w ≡ some 0
unfolding traverse
traverse_null zero w h e = absurd (omega arith)
traverse_null (suc fuel) w h e = rw e

AreBlocks-append :
    (y : ℕ) (xs : List ℕ) → AreBlocks xs → y % 64 ≡ 0 → y ≢ 0 → AreBlocks (xs ++ (y ∷ []))
AreBlocks-append y [] b m ne = (m, ne, tt)
AreBlocks-append y (x ∷ xs) b m ne = (b.0, b.1, AreBlocks-append y xs b.2 m ne)

relinked : (ℕ → ℕ) → (tail start : ℕ) → ℕ → ℕ
relinked w tail start = write (write w tail start) start 0

-- A size that fits the block takes one round, and size 0 none.
relink_lem :
    (fuel b size tail start : ℕ) (w : ℕ → ℕ)
    → size ≤ b
    → 1 < fuel
    → relink fuel b size tail start w ≡ some (if size == 0 then w else relinked w tail start)
unfolding relink relinked
relink_lem zero b size tail start w fits h = absurd (omega arith)
relink_lem (suc zero) b size tail start w fits h = absurd (omega arith)
relink_lem (suc (suc fuel)) b size tail start w fits h = ground arith

Linked-relinked :
    (w : ℕ → ℕ) (p x y : ℕ) (ys : List ℕ)
    → Linked w p (y ∷ ys) 0
    → Distinct (y ∷ ys)
    → x ≢ 0
    → Fresh x (y ∷ ys)
    → Linked (relinked w (last y ys) x) p ((y ∷ ys) ++ (x ∷ [])) 0
unfolding relinked
Linked-relinked w p x y ys l d ne fr =
    subst (λ t. Linked (write (write w (last y ys) x) t 0) p ((y ∷ ys) ++ (x ∷ [])) 0)
      (last-append y x ys)
      (Linked-close (write w (last y ys) x) 0 p y (ys ++ (x ∷ [])) (w x)
        (Linked-append w x p y ys 0 l d ne fr) (Distinct-append x (y ∷ ys) d fr))

module _ {h : Heap} (fuel k size x y : ℕ) (ys : List ℕ) (p : IsPool h k (y ∷ ys)) where
  return_block_lem :
      size ≤ (pool_at h k).block_size
      → length (y ∷ ys) < fuel
      → return_block fuel k size x h
        ≡ some (record h { virt = if size == 0 then h.virt else relinked h.virt (last y ys) x })
  unfolding return_block
  return_block_lem fits lt =
      let tail = traverse-last fuel (pool_at h k).head y ys h.virt (omega arith) p.linked in
      let loop =
        relink_lem fuel (pool_at h k).block_size size (last y ys) x h.virt fits (omega arith) in
      rw (return_block, tail, loop)

  relinked-IsPool :
      x % 64 ≡ 0
      → x ≢ 0
      → Fresh x (y ∷ ys)
      → IsPool (record h { virt = relinked h.virt (last y ys) x }) k ((y ∷ ys) ++ (x ∷ []))
  relinked-IsPool m ne fr = record {
    linked = Linked-relinked h.virt (pool_at h k).head x y ys p.linked p.distinct ne fr;
    distinct = Distinct-append x (y ∷ ys) p.distinct fr;
    blocks = AreBlocks-append x (y ∷ ys) p.blocks m ne;
  }

-- The pool's blocks after `kfree` of a block of that size: one of size 0 is not put back.
abbrev pub with_freed : (size x : ℕ) → List ℕ → List ℕ
with_freed size x ys = if size == 0 then ys else ys ++ (x ∷ [])

module _ (p3_table : ℕ) where
  kfree-return_block :
      (fuel k size x : ℕ) (h : Heap)
      → h.virt x ≡ k + 1
      → h.virt (x + 8) ≡ size
      → size < 2 ^ 31
      → kfree p3_table fuel (x + header_size) h ≡ return_block fuel k size x h
  unfolding kfree
  kfree-return_block fuel k size x h own held small =
      let start : x + header_size - header_size ≡ x = omega arith in
      let above : ltb (x + header_size) header_size ≡ false = ground arith in
      let pooled : (h.virt x == 0) ≡ false = ground arith in
      let index : h.virt x - 1 ≡ k = omega arith in
      let signed : as_int (h.virt (x + 8)) ≡ size = ground arith in
      rw (start, above, pooled, index, signed)

  -- `kfree` of a block with the header of pool `k`
  kfree_lem :
      {h : Heap} (fuel k size x y : ℕ) (ys : List ℕ)
      → IsPool h k (y ∷ ys)
      → h.virt x ≡ k + 1
      → h.virt (x + 8) ≡ size
      → size ≤ (pool_at h k).block_size
      → size < 2 ^ 31
      → x % 64 ≡ 0
      → x ≢ 0
      → Fresh x (y ∷ ys)
      → length (y ∷ ys) < fuel
      → (h' : Heap) × (kfree p3_table fuel (x + header_size) h ≡ some h')
        × IsPool h' k (with_freed size x (y ∷ ys))
        × (h'.pools ≡ h.pools)
        × (h'.mmu ≡ h.mmu)
  kfree_lem {h} fuel k size x y ys p own held fits small m ne fr lt =
      let runs =
        kfree-return_block fuel k size x h own held small
        ∙ return_block_lem fuel k size x y ys p fits lt in
      elim (Bool-cases (size == 0)) [
        | inl e ↦ (h, runs ∙ rw e, rw e p, refl, refl)
        | inr e ↦ (
          record h { virt = relinked h.virt (last y ys) x },
          runs ∙ rw e,
          rw e (relinked-IsPool fuel k size x y ys p m ne fr),
          refl,
          refl,
        )
      ]

  -- When a pool has at least two free blocks and kmalloc of a size, with its header below 2^31,
  -- is served from that pool, kmalloc returns the address behind the header of the first free
  -- block, and kfree of that address, with fuel above the number of the other free blocks,
  -- returns and leaves a well-formed pool with the block behind the others, or without it when
  -- the size is 0. The pages are left as they were.
  pub kfree-kmalloc :
      {h : Heap} (fuel size k x y : ℕ) (ys : List ℕ)
      → find_pool ((size + header_size) % 2 ^ 32) h.pools 0 ≡ some k
      → IsPool h k (x ∷ y ∷ ys)
      → size + header_size < 2 ^ 31
      → length (y ∷ ys) < fuel
      → (h1 : Heap) × (h2 : Heap) × (kmalloc p3_table (suc fuel) size h
          ≡ some (x + header_size, h1))
        × (kfree p3_table fuel (x + header_size) h1 ≡ some h2)
        × IsPool h2 k (with_freed size x (y ∷ ys))
        × (h2.mmu ≡ h.mmu)
  kfree-kmalloc {h} fuel size k x y ys found p small lt =
      let (h1, runs, t) = kmalloc_lem p3_table fuel size k x (y ∷ ys) found p in
      let (h2, frees, q, _, pages) =
        kfree_lem {h = h1} fuel k size x y ys t.left t.pool_kept t.size_kept
          (omega (arith, t.big (omega arith), t.sizes_kept k)) (omega arith) p.blocks.0 p.blocks.1
          p.distinct.0 lt in
      (h1, h2, runs, frees, q, pages ∙ t.pages_kept)

  return_block_null :
      (fuel k size x : ℕ) (h : Heap)
      → (pool_at h k).head ≡ 0
      → h.virt 0 ≡ 0
      → 0 < size
      → size ≤ (pool_at h k).block_size
      → 1 < fuel
      → return_block fuel k size x h ≡ some (record h { virt = relinked h.virt 0 x })
  unfolding return_block
  return_block_null fuel k size x h empty null pos fits lt =
      let tail = traverse_null fuel h.virt (omega arith) null in
      let some_size : (size == 0) ≡ false = ground arith in
      let loop = relink_lem fuel (pool_at h k).block_size size 0 x h.virt fits lt in
      rw (return_block, empty, tail, loop, some_size)

  -- When kmalloc of a positive size, with its header below 2^31, takes the last free block of a
  -- pool, and the word at address 0, which the boot code maps, is 0, kfree of the address that
  -- kmalloc returned, with fuel of 2 or more, returns and leaves the pool empty: the block's
  -- address is written at address 0 instead, and the block is lost.
  pub kfree-lost :
      {h : Heap} (fuel size k x : ℕ)
      → find_pool ((size + header_size) % 2 ^ 32) h.pools 0 ≡ some k
      → IsPool h k (x ∷ [])
      → 0 < size
      → size + header_size < 2 ^ 31
      → 1 < fuel
      → h.virt 0 ≡ 0
      → (h1 : Heap) × (h2 : Heap) × (kmalloc p3_table (suc fuel) size h
          ≡ some (x + header_size, h1))
        × (kfree p3_table fuel (x + header_size) h1 ≡ some h2)
        × IsPool h2 k []
        × (h2.virt 0 ≡ x)
        × (h2.virt x ≡ 0)
  unfolding relinked
  kfree-lost {h} fuel size k x found p pos small lt null =
      let (h1, runs, t) = kmalloc_lem p3_table fuel size k x [] found p in
      let null' : h1.virt 0 ≡ 0 =
        t.words_kept 0 (λ e. p.blocks.1 (sym e)) (λ e. omega arith) ∙ null in
      let frees =
        kfree-return_block fuel k size x h1 t.pool_kept t.size_kept (omega arith)
        ∙ return_block_null fuel k size x h1 t.left.linked null' pos
            (omega (arith, t.big (omega arith), t.sizes_kept k)) lt in
      (
        h1,
        record h1 { virt = relinked h1.virt 0 x },
        runs,
        frees,
        record { linked = t.left.linked; distinct = tt; blocks = tt },
        ground (arith, p.blocks.1),
        ground arith,
      )
