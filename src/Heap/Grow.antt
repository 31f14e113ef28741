-- ===== src/Heap/Grow.antt =====
-- src/c/allocator.c: the page that a pool with no free block gets.
use mathlib.Core.Path.{subst}
use implement_os.Prelude.{
  ℕ, zero, suc, ◌+◌, ◌*◌, ◌%◌, ◌^◌, ◌<◌, ◌≡◌, refl, sym, ap, ◌∙◌, List, [], ◌∷◌, length, some,
  arith, ◌==◌, true,
}
use implement_os.Memory.{page_size, write}
use implement_os.Memory.FreeList.{Linked, Distinct, last}
use implement_os.PageTable
use implement_os.PageTable.{Mmu}
use implement_os.PageTable.Address.{IsIndexed, page_number, page_limit, alloc_page_lem}
use implement_os.Heap.{
  Heap, Pool, pool_at, set_head, header_size, find_pool, fill, allocate_for_pool, kmalloc,
}
use implement_os.Heap.Blocks.{blocks, fill_page_lem, AreBlocks, blocks-AreBlocks}
use implement_os.Heap.Pools.{IsPool, set_head_lem, kmalloc_lem}

last-blocks : (b x a n : ℕ) → a ≡ x + b → last x (blocks b a n) ≡ x + b * n
last-blocks b x a zero e = omega arith
last-blocks b x a (suc n) e = grind (arith, last-blocks b a (a + b) n refl)

factor_pos : (b n : ℕ) → b * suc n ≡ page_size → 0 < b
factor_pos zero n e = absurd (omega arith)
factor_pos (suc b) n e = omega arith

product_pos : (b n : ℕ) → 0 < b → 0 < n → 0 < b * n
product_pos b zero hb hn = absurd (omega arith)
product_pos b (suc n) hb hn = grind arith

-- A new head does not change which pool is found.
find_pool-set_head :
    (required index k a : ℕ) (pools : List Pool)
    → find_pool required (set_head k a pools) index ≡ find_pool required pools index
unfolding find_pool
find_pool-set_head required index k a [] = refl
find_pool-set_head required index zero a (p ∷ ps) = refl
find_pool-set_head required index (suc k) a (p ∷ ps) =
    rw (find_pool-set_head required (index + 1) k a ps)

-- The next page of the page tables, and how a pool's blocks of size `b` divide it.
pub record Divides (h : Heap) (k n : ℕ) : Type 0 where
  pub indexed : IsIndexed h.mmu
  pub room : page_number h.mmu + 1 < page_limit
  pub pool : k < length h.pools
  pub empty : (pool_at h k).head ≡ 0
  pub whole : (pool_at h k).block_size * suc n ≡ page_size
  pub several : 0 < n
  pub unit : (pool_at h k).block_size % 64 ≡ 0

abbrev pub next_page : Heap → ℕ
next_page h = page_size * (page_number h.mmu + 1)

-- the heap with the new page's blocks, whose list ends in `e`
pub record Grown (h : Heap) (k n : ℕ) (h' : Heap) : Type 0 where
  pub linked :
      Linked h'.virt
        (pool_at h' k).head
        (blocks (pool_at h k).block_size (next_page h) (suc n))
        (h.virt (next_page h + (pool_at h k).block_size * n))
  pub distinct : Distinct (blocks (pool_at h k).block_size (next_page h) (suc n))
  pub sized : AreBlocks (blocks (pool_at h k).block_size (next_page h) (suc n))
  pub found : (required : ℕ) → find_pool required h'.pools 0 ≡ find_pool required h.pools 0
  pub indexed : IsIndexed h'.mmu
  pub one_page : page_number h'.mmu ≡ page_number h.mmu + 1

module _ (p3_table : ℕ) where
  allocate_runs :
      (fuel k page : ℕ) (h : Heap) (w : ℕ → ℕ)
      → (PageTable.alloc_page p3_table h.mmu).0 ≡ page
      → (pool_at h k).head ≡ 0
      → fill fuel (pool_at h k).block_size page 0 0 0 h.virt ≡ some (page, w)
      → allocate_for_pool p3_table fuel k h
        ≡ some (record h {
          pools = set_head k page h.pools;
          virt = w;
          mmu = (PageTable.alloc_page p3_table h.mmu).1;
        })
  unfolding allocate_for_pool
  allocate_runs fuel k page h w at empty runs = rw (allocate_for_pool, at, empty, runs)

  kmalloc_again :
      (fuel size k : ℕ) (h h1 : Heap)
      → find_pool ((size + header_size) % 2 ^ 32) h.pools 0 ≡ some k
      → ((pool_at h k).head == 0) ≡ true
      → allocate_for_pool p3_table fuel k h ≡ some h1
      → kmalloc p3_table (suc fuel) size h ≡ kmalloc p3_table fuel size h1
  unfolding kmalloc
  kmalloc_again fuel size k h h1 found empty grows = rw (kmalloc, found, empty, grows)

  -- allocate_for_pool for an empty pool, with fuel above one more than the number of blocks
  -- behind the first, links the blocks of the next page in ascending order, and the list ends
  -- in whatever the first word of the page's last block held. It holds when the block size
  -- divides the page into two or more blocks and is a multiple of 64, and the gigabyte has room
  -- for the page.
  pub allocate_for_pool_lem :
      {h : Heap} (fuel k n : ℕ)
      → Divides h k n
      → n + 1 < fuel
      → (h' : Heap) × (allocate_for_pool p3_table fuel k h ≡ some h') × Grown h k n h'
  allocate_for_pool_lem {h} fuel k n d lt =
      let (at, indexed, number, _, _) = alloc_page_lem p3_table d.indexed (omega (arith, d.room)) in
      let b : ℕ = (pool_at h k).block_size in
      let at_next : (PageTable.alloc_page p3_table h.mmu).0 ≡ next_page h =
        at ∙ ground (arith, d.room) in
      let some_size : 0 < b = factor_pos b n d.whole in
      let (w, runs, l, dis, same) =
        fill_page_lem fuel b (next_page h) n h.virt lt d.whole some_size (omega arith) in
      (
        record h {
          pools = set_head k (next_page h) h.pools;
          virt = w;
          mmu = (PageTable.alloc_page p3_table h.mmu).1;
        },
        allocate_runs fuel k (next_page h) h w at_next d.empty runs,
        record {
          linked =
              subst
                (λ t. Linked w t (blocks b (next_page h) (suc n)) (h.virt (next_page h + b * n)))
                (sym (
                  ap (λ (q : Pool). q.head) (set_head_lem k (next_page h) k h.pools d.pool)
                  ∙ ground arith))
                (subst (Linked w (next_page h) (blocks b (next_page h) (suc n)))
                  (ap (write h.virt (next_page h) 0)
                      (last-blocks b (next_page h) (next_page h + b) n refl)
                    ∙ ground (arith, product_pos b n some_size d.several))
                  l);
          distinct = dis;
          sized = blocks-AreBlocks b (next_page h) (suc n) d.unit (omega arith) (omega arith);
          found = λ r. find_pool-set_head r 0 k (next_page h) h.pools;
          indexed = indexed;
          one_page = number;
        },
      )

  -- kmalloc of a size whose pool has no free block, with fuel above 2 more than the number of
  -- blocks behind the first, takes the next page of the page tables, returns the address behind
  -- the header of the first block of that page and leaves the pool with the page's other
  -- blocks, in ascending order. It holds when the block size divides the page into two or more
  -- blocks and is a multiple of 64, the gigabyte has room for the page, and the first word of
  -- the page's last block is 0.
  pub kmalloc-grows :
      {h : Heap} (fuel size k n : ℕ)
      → find_pool ((size + header_size) % 2 ^ 32) h.pools 0 ≡ some k
      → Divides h k n
      → n + 2 < fuel
      → h.virt (next_page h + (pool_at h k).block_size * n) ≡ 0
      → (h' : Heap) × (kmalloc p3_table (suc fuel) size h ≡ some (next_page h + header_size, h'))
        × IsPool h' k (blocks (pool_at h k).block_size (next_page h + (pool_at h k).block_size) n)
        × (page_number h'.mmu ≡ page_number h.mmu + 1)
  kmalloc-grows zero size k n found d lt z = absurd (omega arith)
  kmalloc-grows {h} (suc fuel) size k n found d lt z =
      let (h1, grows, g) = allocate_for_pool_lem {h = h} (suc fuel) k n d (omega arith) in
      let b : ℕ = (pool_at h k).block_size in
      let p : IsPool h1 k (next_page h ∷ blocks b (next_page h + b) n) = record {
        linked =
            subst (Linked h1.virt (pool_at h1 k).head (blocks b (next_page h) (suc n))) z g.linked;
        distinct = g.distinct;
        blocks = g.sized;
      } in
      let (h2, runs, t) =
        kmalloc_lem p3_table {h = h1} fuel size k (next_page h) (blocks b (next_page h + b) n)
          (g.found ((size + header_size) % 2 ^ 32) ∙ found) p in
      let empty : ((pool_at h k).head == 0) ≡ true = ground (arith, d.empty) in
      (
        h2,
        kmalloc_again (suc fuel) size k h h1 found empty grows ∙ runs,
        t.left,
        ap page_number t.pages_kept ∙ g.one_page,
      )
