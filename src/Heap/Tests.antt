-- ===== src/Heap/Tests.antt =====
-- src/c/allocator.c: a heap at its start, and one with two free blocks of 64 bytes.
use implement_os.Prelude.{
  ℕ, ◌+◌, ◌%◌, ◌^◌, ◌≡◌, refl, [], ◌∷◌, some, none, arith, true, ◌==◌, if◌then◌else◌,
}
use implement_os.PageTable
use implement_os.PageTable.{Mmu}
use implement_os.PageTable.Address.{IsIndexed, page_number}
use implement_os.Heap.{
  Heap, first_pools, header_size, find_pool, allocate_for_pool, kmalloc, kfree, kfree_big,
}
use implement_os.Heap.Blocks.{blocks}
use implement_os.Heap.Pools.{IsPool, Taken, kmalloc_lem}
use implement_os.Heap.Cycle.{kfree-kmalloc, kfree-lost}
use implement_os.Heap.Grow.{Divides, Grown, next_page, allocate_for_pool_lem, kmalloc-grows}
use implement_os.Heap.Big.{page_count, kmalloc-big, kfree_big-free_each}

abbrev p3 : ℕ
p3 = 0x1000

abbrev mmu : Mmu
mmu = record {
  curr_pml1_index = 0;
  curr_pml2_index = 0;
  curr_pml3_index = 1;
  curr_stack_pml1_index = 511;
  curr_stack_pml2_index = 512;
  curr_stack_pml3_index = 1;
  memory = record {
    structure = record {
      allocated_addresses = [];
      allocated_sizes = [];
      current_allocated_index = none;
      start_address = 0;
      address_space_size = 0;
    };
    free_pages = record { page_head = 0x80000; page_tail = 0x80000; count = 1 };
    words = λ a. if a == 0x1008 then 0x2007 else if a == 0x2000 then 0x3007 else 0;
    raised = [];
  };
  machine = record { device = λ log port. 0; log = []; interrupts = true };
}

mmu-IsIndexed : IsIndexed mmu
mmu-IsIndexed = record { low = omega arith; middle = omega arith; top = omega arith }

abbrev fresh : Heap
fresh = record { pools = first_pools; virt = λ a. 0; mmu = mmu }

abbrev two_blocks : Heap
two_blocks = record fresh {
  pools = record { block_size = 64; head = 0x40001000 } ∷ [];
  virt = λ a. if a == 0x40001000 then 0x40001040 else 0;
}

abbrev one_block : Heap
one_block = record two_blocks { virt = λ a. 0 }

find_pool-small : find_pool ((40 + header_size) % 2 ^ 32) two_blocks.pools 0 ≡ some 0
unfolding find_pool
find_pool-small = refl

find_pool-large : find_pool ((1000 + header_size) % 2 ^ 32) fresh.pools 0 ≡ some 2
unfolding find_pool
find_pool-large = refl

find_pool-none : find_pool ((5000 + header_size) % 2 ^ 32) fresh.pools 0 ≡ none
unfolding find_pool
find_pool-none = refl

two_blocks-IsPool : IsPool two_blocks 0 (0x40001000 ∷ 0x40001040 ∷ [])
two_blocks-IsPool = record {
  linked = (refl, λ e. omega arith, (refl, λ e. omega arith, refl));
  distinct = ((λ e. omega arith, tt), (tt, tt));
  blocks = (refl, λ e. omega arith, (refl, λ e. omega arith, tt));
}

one_block-IsPool : IsPool one_block 0 (0x40001000 ∷ [])
one_block-IsPool = record {
  linked = (refl, λ e. omega arith, refl);
  distinct = (tt, tt);
  blocks = (refl, λ e. omega arith, tt);
}

fresh-Divides : Divides fresh 2 1
fresh-Divides = record {
  indexed = mmu-IsIndexed;
  room = omega arith;
  pool = omega arith;
  empty = refl;
  whole = refl;
  several = omega arith;
  unit = refl;
}

kmalloc_lem_example :
    (h' : Heap) × (kmalloc p3 10 40 two_blocks ≡ some (0x40001000 + header_size, h'))
    × Taken two_blocks 0 40 0x40001000 (0x40001040 ∷ []) h'
kmalloc_lem_example =
    kmalloc_lem p3 9 40 0 0x40001000 (0x40001040 ∷ []) find_pool-small two_blocks-IsPool

kfree-kmalloc_example :
    (h1 : Heap) × (h2 : Heap) × (kmalloc p3 10 40 two_blocks ≡ some (0x40001000 + header_size, h1))
    × (kfree p3 9 (0x40001000 + header_size) h1 ≡ some h2)
    × IsPool h2 0 (0x40001040 ∷ 0x40001000 ∷ [])
    × (h2.mmu ≡ two_blocks.mmu)
kfree-kmalloc_example =
    kfree-kmalloc p3 9 40 0 0x40001000 0x40001040 [] find_pool-small two_blocks-IsPool (omega arith)
      (omega arith)

kfree-lost_example :
    (h1 : Heap) × (h2 : Heap) × (kmalloc p3 10 40 one_block ≡ some (0x40001000 + header_size, h1))
    × (kfree p3 9 (0x40001000 + header_size) h1 ≡ some h2)
    × IsPool h2 0 []
    × (h2.virt 0 ≡ 0x40001000)
    × (h2.virt 0x40001000 ≡ 0)
kfree-lost_example =
    kfree-lost p3 9 40 0 0x40001000 find_pool-small one_block-IsPool (omega arith) (omega arith)
      (omega arith) refl

allocate_for_pool_lem_example :
    (h' : Heap) × (allocate_for_pool p3 9 2 fresh ≡ some h') × Grown fresh 2 1 h'
allocate_for_pool_lem_example = allocate_for_pool_lem p3 9 2 1 fresh-Divides (omega arith)

kmalloc-grows_example :
    (h' : Heap) × (kmalloc p3 10 1000 fresh ≡ some (next_page fresh + header_size, h'))
    × IsPool h' 2 (blocks 2048 (next_page fresh + 2048) 1)
    × (page_number h'.mmu ≡ page_number fresh.mmu + 1)
kmalloc-grows_example = kmalloc-grows p3 9 1000 2 1 find_pool-large fresh-Divides (omega arith) refl

kmalloc-big_example :
    (h' : Heap) × (kmalloc p3 6001 5000 fresh ≡ some (next_page fresh + header_size, h'))
    × (h'.virt (next_page fresh) ≡ 0)
    × (h'.virt (next_page fresh + 8) ≡ 5000)
    × (h'.pools ≡ fresh.pools)
    × IsIndexed h'.mmu
    × (page_number h'.mmu ≡ page_number fresh.mmu + 1 + page_count (5000 + header_size))
kmalloc-big_example =
    kmalloc-big p3 6000 5000 fresh find_pool-none (omega arith) mmu-IsIndexed (omega arith)
      (omega arith)

kfree_big-free_each_example :
    kfree_big p3 9000 0x4000100c 5000 mmu ≡ some (PageTable.free_each p3 0x4000100c 2 mmu).1
kfree_big-free_each_example = kfree_big-free_each p3 9000 0x4000100c 5000 mmu (omega arith)
