-- ===== src/Heap.antt =====
-- src/c/allocator.c: the kernel heap, three pools of blocks cut from pages, and whole pages for what
-- no pool fits. A pointer to a pool is 1 more than the pool's index, so that 0 is the null pointer.
-- `none` is a loop that has not ended on its fuel, or a header at the top of the addresses, where
-- nothing is mapped. An access through the null pointer is one to the word at address 0, which the
-- boot code maps.
pub mod Blocks
pub mod Pools
pub mod Cycle
pub mod Grow
pub mod Big
mod Tests
use implement_os.Prelude.{
  ℕ, zero, suc, ◌+◌, ◌-◌, ◌%◌, ◌^◌, Bool, Option, none, some, List, [], ◌∷◌, get_or, set, ltb, leb,
  ◌==◌, if◌then◌else◌,
}
use implement_os.Memory.{page_size, write}
use implement_os.PageTable
use implement_os.PageTable.{Mmu}

-- `KMALLOC_HEADER_SIZE`
abbrev pub header_size : ℕ
header_size = 12

-- `struct KmallocPool`
pub record Pool : Type 0 where
  pub block_size : ℕ
  pub head : ℕ

abbrev pub no_pool : Pool
no_pool = record { block_size = 0; head = 0 }

-- `pools`, without its final null pointer
abbrev pub first_pools : List Pool
first_pools =
    record { block_size = 64; head = 0 }
    ∷ record { block_size = 512; head = 0 }
    ∷ record { block_size = 2048; head = 0 }
    ∷ []

-- `virt a` is the word at the virtual address `a`: eight bytes where a block begins, the `next` of
-- a free block or the `pool` of a header, and four bytes behind them, the `size` of a header. A page
-- that has been handed out is mapped when it is touched.
pub record Heap : Type 0 where
  pub pools : List Pool
  pub virt : ℕ → ℕ
  pub mmu : Mmu

abbrev pub pool_at : Heap → ℕ → Pool
pool_at h k = get_or h.pools k no_pool

abbrev pub set_head : ℕ → ℕ → List Pool → List Pool
set_head k a pools = set pools k (record (get_or pools k no_pool) { head = a })

-- The loop of `allocate_for_pool` from the offset `i` on, on the pool's head and the words.
unfoldable pub fill : ℕ → (block_size new_pf i prev_node : ℕ) → ℕ → (ℕ → ℕ) → Option (ℕ × (ℕ → ℕ))
fill zero b new_pf i prev_node head w = none
fill (suc fuel) b new_pf i prev_node head w =
    let address = new_pf + i in
    let first = fill fuel b new_pf (i + b) address address (write w address 0) in
    let later = fill fuel b new_pf (i + b) address head (write w prev_node address) in
    if ltb i page_size then (if prev_node == 0 then first else later) else some (head, w)

-- the header of a block
abbrev pub put_header : (address pool size : ℕ) → (ℕ → ℕ) → ℕ → ℕ
put_header address pool size w = write (write w address pool) (address + 8) size

-- A 32-bit pattern as an `int`; a negative one stops the loops as 0 does.
abbrev pub as_int : ℕ → ℕ
as_int w = if leb (2 ^ 31) w then 0 else w

-- the index of the first pool whose blocks are big enough
unfoldable pub find_pool : ℕ → List Pool → ℕ → Option ℕ
find_pool required [] index = none
find_pool required (p ∷ ps) index =
    let rest = find_pool required ps (index + 1) in
    if ltb p.block_size required then rest else some index

-- `traverse`: the last block from `node` on
unfoldable pub traverse : ℕ → ℕ → (ℕ → ℕ) → Option ℕ
traverse zero node w = none
traverse (suc fuel) node w =
    let rest = traverse fuel (w node) w in if w node == 0 then some node else rest

-- the loop at the end of `kfree`, which does the same in each round
unfoldable pub relink : ℕ → (block_size size tail start : ℕ) → (ℕ → ℕ) → Option (ℕ → ℕ)
relink zero b size tail start w = none
relink (suc fuel) b size tail start w =
    let rest = relink fuel b (size - b) tail start (write (write w tail start) start 0) in
    if ltb 0 size then rest else some w

-- the end of `kmalloc`: the pool's first block, with a header
abbrev pub take_block : (k size : ℕ) → Heap → ℕ × Heap
take_block k size h =
    let address = (pool_at h k).head in
    (
      address + header_size,
      record h {
        pools = set_head k (h.virt address) h.pools;
        virt = put_header address (k + 1) size h.virt;
      },
    )

-- the end of `kfree`: the block goes behind its pool's last one
unfoldable pub return_block : ℕ → (k size start : ℕ) → Heap → Option Heap
return_block fuel k size start h = elim (traverse fuel (pool_at h k).head h.virt) [
  | none ↦ none
  | some tail ↦ elim (relink fuel (pool_at h k).block_size size tail start h.virt) [
    | none ↦ none
    | some w ↦ some (record h { virt = w })
  ]
]

module _ (p3_table : ℕ) where
  -- the loop of `kmalloc_big`
  unfoldable pub big_pages : ℕ → ℕ → Mmu → Option Mmu
  big_pages zero required s = none
  big_pages (suc fuel) required s =
      let rest = big_pages fuel (required - page_size) (PageTable.alloc_page p3_table s).1 in
      if ltb 0 required then rest else some s

  unfoldable pub kmalloc_big : ℕ → ℕ → Heap → Option (ℕ × Heap)
  kmalloc_big fuel size h =
      let (start, mmu') = PageTable.alloc_page p3_table h.mmu in
      elim (big_pages fuel (as_int ((size + header_size) % 2 ^ 32)) mmu') [
        | none ↦ none
        | some mmu'' ↦
            some
              (start + header_size, record h { virt = put_header start 0 size h.virt; mmu = mmu'' })
      ]

  unfoldable pub allocate_for_pool : ℕ → ℕ → Heap → Option Heap
  allocate_for_pool fuel k h =
      let (new_pf, mmu') = PageTable.alloc_page p3_table h.mmu in
      elim (fill fuel (pool_at h k).block_size new_pf 0 (pool_at h k).head (pool_at h k).head
        h.virt) [
          | none ↦ none
          | some (head, w) ↦
              some (record h { pools = set_head k head h.pools; virt = w; mmu = mmu' })
        ]

  -- `kmalloc`; the fuel bounds its calls of itself and the loops of its callees.
  unfoldable pub kmalloc : ℕ → ℕ → Heap → Option (ℕ × Heap)
  kmalloc zero size h = none
  kmalloc (suc fuel) size h = elim (find_pool ((size + header_size) % 2 ^ 32) h.pools 0) [
    | none ↦ kmalloc_big fuel size h
    | some k ↦
        let grown : Option (ℕ × Heap) = elim (allocate_for_pool fuel k h) [
          | none ↦ none
          | some h' ↦ kmalloc fuel size h'
        ] in
        if (pool_at h k).head == 0 then grown else some (take_block k size h)
  ]

  unfoldable pub kfree_big : ℕ → (address size : ℕ) → Mmu → Option Mmu
  kfree_big zero address size s = none
  kfree_big (suc fuel) address size s =
      let rest =
        kfree_big fuel ((address + page_size) % 2 ^ 64) (size - page_size)
          (PageTable.free_page p3_table address s).1 in
      if ltb 0 size then rest else some s

  -- `kfree`; below 12 the header would lie at the top of the addresses, where nothing is mapped.
  unfoldable pub kfree : ℕ → ℕ → Heap → Option Heap
  kfree fuel add h =
      let start = add - header_size in
      let size = as_int (h.virt (start + 8)) in
      if ltb add header_size
      then none
      else if h.virt start == 0
      then elim (kfree_big fuel add size h.mmu) [
        | none ↦ none
        | some mmu' ↦ some (record h { mmu = mmu' })
      ]
      else return_block fuel (h.virt start - 1) size start h
