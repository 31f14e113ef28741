-- ===== src/Heap/Pools.antt =====
-- src/c/allocator.c: the free blocks of a pool, and a block that `kmalloc` takes from it.
use mathlib.Core.Path.{subst}
use implement_os.Prelude.{
  ℕ, suc, ◌+◌, ◌-◌, ◌%◌, ◌^◌, ◌≤◌, ◌<◌, ◌≡◌, ◌≢◌, refl, sym, ap, ◌∙◌, List, [], ◌∷◌, length, get_or,
  get_or-set_self, get_or-set_ne, some, arith, ltb, ◌==◌, if◌then◌else◌, false, Bool-cases, inl,
  inr,
}
use implement_os.Memory.{write}
use implement_os.Memory.FreeList.{Linked, Fresh, Distinct, Linked-write}
use implement_os.Heap.{
  Heap, Pool, no_pool, pool_at, set_head, header_size, put_header, find_pool, kmalloc,
}
use implement_os.Heap.Blocks.{AreBlocks, Fresh-AreBlocks}

-- The pool's free blocks are these, in this order.
pub record IsPool (h : Heap) (k : ℕ) (xs : List ℕ) : Type 0 where
  pub linked : Linked h.virt (pool_at h k).head xs 0
  pub distinct : Distinct xs
  pub blocks : AreBlocks xs

-- The pool that is found is the first whose blocks are big enough.
pub find_pool_lem :
    (required index : ℕ) (pools : List Pool) (k : ℕ)
    → find_pool required pools index ≡ some k
    → (index ≤ k)
      × (k < index + length pools)
      × (required ≤ (get_or pools (k - index) no_pool).block_size)
      × ((j : ℕ) → index ≤ j → j < k → (get_or pools (j - index) no_pool).block_size < required)
unfolding find_pool
find_pool_lem required index [] k e = absurd (cc)
find_pool_lem required index (p ∷ ps) k e = elim (Bool-cases (ltb p.block_size required)) [
  | inr fits ↦
      let here : index ≡ k = ground arith in
      let at : k - index ≡ 0 = omega arith in
      (omega arith, omega arith, rw at (ground arith), λ j lo hi. absurd (omega arith))
  | inl small ↦
      let later : find_pool required ps (index + 1) ≡ some k = ground arith in
      let (above, inside, big, first) = find_pool_lem required (index + 1) ps k later in
      let at : k - index ≡ suc (k - (index + 1)) = omega arith in
      (
        omega arith,
        omega arith,
        rw at big,
        λ j lo hi. elim (Bool-cases (j == index)) [
          | inl same ↦ let z : j - index ≡ 0 = ground arith in rw z (ground arith)
          | inr other ↦
              let next : j - index ≡ suc (j - (index + 1)) = ground arith in
              rw next (first j (ground arith) hi)
        ],
      )
]

-- A header leaves the lists of blocks alone that the block is not on.
Linked-put_header :
    (w : ℕ → ℕ) (x pool size p : ℕ) (ys : List ℕ)
    → Linked w p ys 0
    → AreBlocks ys
    → x % 64 ≡ 0
    → Fresh x ys
    → Linked (put_header x pool size w) p ys 0
Linked-put_header w x pool size p ys l b m f =
    Linked-write (write w x pool) (x + 8) size p ys 0 (Linked-write w x pool p ys 0 l f)
      (Fresh-AreBlocks (x + 8) ys (λ e. omega arith) b)

-- what `kmalloc` of `size` bytes is to return and leave when it takes block `x` of pool `k`
pub record Taken (h : Heap) (k size x : ℕ) (xs : List ℕ) (h' : Heap) : Type 0 where
  pub left : IsPool h' k xs
  pub pool_kept : h'.virt x ≡ k + 1
  pub size_kept : h'.virt (x + 8) ≡ size
  pub big : size + header_size < 2 ^ 32 → size + header_size ≤ (pool_at h k).block_size
  pub sizes_kept : (j : ℕ) → (pool_at h' j).block_size ≡ (pool_at h j).block_size
  pub others : (j : ℕ) (ys : List ℕ) → j ≢ k → IsPool h j ys → Fresh x ys → IsPool h' j ys
  pub words_kept : (a : ℕ) → a ≢ x → a ≢ x + 8 → h'.virt a ≡ h.virt a
  pub pages_kept : h'.mmu ≡ h.mmu

-- A new head for one pool leaves the sizes and the other pools.
pub set_head_lem :
    (k a j : ℕ) (pools : List Pool)
    → k < length pools
    → get_or (set_head k a pools) j no_pool
      ≡ (if j == k then record (get_or pools k no_pool) { head = a } else get_or pools j no_pool)
set_head_lem k a j pools h = elim (Bool-cases (j == k)) [
  | inl e ↦
      let same : j ≡ k = ground arith in
      rw (e, same)
        (get_or-set_self pools k (record (get_or pools k no_pool) { head = a }) no_pool h)
  | inr e ↦ rw e (
      get_or-set_ne pools {i = k} {j = j} (record (get_or pools k no_pool) { head = a }) no_pool
        (λ s. ground arith))
]

abbrev with_block : (k size x : ℕ) → Heap → Heap
with_block k size x h = record h {
  pools = set_head k (h.virt x) h.pools;
  virt = put_header x (k + 1) size h.virt;
}

module _ {h : Heap} (size k x : ℕ) (xs : List ℕ) (inside : k < length h.pools)
    (p : IsPool h k (x ∷ xs)) where
  head_of :
      (j : ℕ)
      → pool_at (with_block k size x h) j
        ≡ (if j == k then record (pool_at h k) { head = h.virt x } else pool_at h j)
  head_of j = set_head_lem k (h.virt x) j h.pools inside

  other_head : (j : ℕ) → j ≢ k → (pool_at (with_block k size x h) j).head ≡ (pool_at h j).head
  other_head j ne = ap (λ (q : Pool). q.head) (head_of j) ∙ ground arith

  own_head : (pool_at (with_block k size x h) k).head ≡ h.virt x
  own_head = ap (λ (q : Pool). q.head) (head_of k) ∙ ground arith

  with_block-Taken :
      (size + header_size < 2 ^ 32 → size + header_size ≤ (pool_at h k).block_size)
      → Taken h k size x xs (with_block k size x h)
  with_block-Taken big = record {
    left = record {
      linked =
          subst (λ t. Linked (put_header x (k + 1) size h.virt) t xs 0) (sym own_head)
            (Linked-put_header h.virt x (k + 1) size (h.virt x) xs p.linked.2 p.blocks.2 p.blocks.0
              p.distinct.0);
      distinct = p.distinct.1;
      blocks = p.blocks.2;
    };
    pool_kept = ground arith;
    size_kept = ground arith;
    big = big;
    sizes_kept = λ j. ap (λ (q : Pool). q.block_size) (head_of j) ∙ ground arith;
    others = λ j ys ne q fr. record {
      linked =
          subst (λ t. Linked (put_header x (k + 1) size h.virt) t ys 0) (sym (other_head j ne))
            (Linked-put_header h.virt x (k + 1) size (pool_at h j).head ys q.linked q.blocks
              p.blocks.0 fr);
      distinct = q.distinct;
      blocks = q.blocks;
    };
    words_kept = λ a n m. ground arith;
    pages_kept = refl;
  }

module _ (p3_table : ℕ) where
  -- kmalloc of a size whose pool has a free block returns the address behind that block's
  -- header and takes only that block off the pool: the header holds the pool and the size, a
  -- block without overflow is big enough for both, and the other pools' free blocks, the other
  -- words and the pages are as they were.
  pub kmalloc_lem :
      {h : Heap} (fuel size k x : ℕ) (xs : List ℕ)
      → find_pool ((size + header_size) % 2 ^ 32) h.pools 0 ≡ some k
      → IsPool h k (x ∷ xs)
      → (h' : Heap) × (kmalloc p3_table (suc fuel) size h ≡ some (x + header_size, h'))
        × Taken h k size x xs h'
  unfolding kmalloc
  kmalloc_lem {h} fuel size k x xs found p =
      let (_, inside, big, _) = find_pool_lem ((size + header_size) % 2 ^ 32) 0 h.pools k found in
      let nonempty : ((pool_at h k).head == 0) ≡ false = ground (arith, p.linked) in
      let at : (pool_at h k).head ≡ x = p.linked.0 in
      let here : k - 0 ≡ k = omega arith in
      let big' : (size + header_size) % 2 ^ 32 ≤ (pool_at h k).block_size =
        subst (λ t. (size + header_size) % 2 ^ 32 ≤ (get_or h.pools t no_pool).block_size) here
          big in
      (
        with_block k size x h,
        rw (kmalloc, found, nonempty) (ap (λ t. some (t + header_size, with_block k size t h)) at),
        with_block-Taken size k x xs (omega arith) p (λ lt. omega arith),
      )
