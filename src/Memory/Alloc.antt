-- ===== src/Memory/Alloc.antt =====
-- `tk_mem_malloct` and `tk_mem_free` of src/tk_mem.c.
use tinker.Base.{ℕ, ◌+◌, ◌%◌, ◌≤◌, ◌<◌, ◌≡◌, ◌≢◌, true, none, some, update, mod-lt, arith}
use tinker.Kernel.State.{done}
use tinker.Memory.Heap.{
  Heap, Memory, is_heap, put_heap, find_block, take_block, mem_malloct, mem_free,
}
use tinker.Memory.Count.{
  count_used, count_used-free, count_used-take, count_used-give, find_block_lem,
}

-- The count of a heap is right, and the search starts in bounds.
pub record HeapOk (h : Heap) : Type 0 where
  pub start : h.indx < h.maxnum
  pub counted : h.blocks ≡ count_used h.maxnum h.used

-- On a heap that has a free block, the search ends: `tk_mem_malloct` returns a block that was free,
-- and marks it. No other block's mark and no other heap changes, and the count stays right.
pub mem_malloct-HeapOk :
    (id : ℕ) (m : Memory)
    → is_heap m id ≡ true
    → HeapOk (m.header_pool id)
    → (m.header_pool id).blocks < (m.header_pool id).maxnum
    → (i : ℕ) × (m' : Memory) × (mem_malloct id m ≡ done (some i, m'))
      × (i < (m.header_pool id).maxnum)
      × ((m.header_pool id).used i ≡ 0)
      × ((m'.header_pool id).used ≡ update (m.header_pool id).used i 1)
      × HeapOk (m'.header_pool id)
      × ((other : ℕ) → other ≢ id → m'.header_pool other ≡ m.header_pool other)
unfolding mem_malloct take_block
mem_malloct-HeapOk id m valid ok room = (
  i,
  put_heap m id (take_block i h),
  ground (arith, valid, room, found.1),
  found.2,
  found.3,
  ground arith,
  record {
    start = ground (arith, inside);
    counted = ground (arith, count_used-take h.maxnum i h.used found.2 found.3, ok.counted);
  },
  λ other n. ground arith,
)
  where
    h : Heap
    h = m.header_pool id

    gap : (j : ℕ) × (j < h.maxnum) × (h.used j ≡ 0)
    gap = count_used-free h.maxnum h.used (omega (arith, ok.counted))

    found :
        (t : ℕ) × (find_block h.maxnum h.maxnum h.indx h.used ≡ some t)
        × (t < h.maxnum)
        × (h.used t ≡ 0)
    found = find_block_lem h.maxnum h.used h.indx gap.0 ok.start gap.1 gap.2

    i : ℕ
    i = found.0

    inside : (i + 1) % h.maxnum < h.maxnum
    inside = mod-lt (i + 1) (omega (arith, found.2))

-- A block in use, of a heap that is not full, is free after `tk_mem_free`; no other mark and no other
-- heap changes, and the count stays right.
pub mem_free-HeapOk :
    (id i : ℕ) (m : Memory)
    → is_heap m id ≡ true
    → HeapOk (m.header_pool id)
    → (m.header_pool id).blocks < (m.header_pool id).maxnum
    → i < (m.header_pool id).maxnum
    → (m.header_pool id).used i ≢ 0
    → ((mem_free id i m).header_pool id).used ≡ update (m.header_pool id).used i 0
      × HeapOk ((mem_free id i m).header_pool id)
      × ((other : ℕ) → other ≢ id → (mem_free id i m).header_pool other ≡ m.header_pool other)
unfolding mem_free
mem_free-HeapOk id i m valid ok room small taken = (
  ground arith,
  record {
    start = ground (arith, ok.start);
    counted = ground (arith, count_used-give h.maxnum i h.used small taken, ok.counted);
  },
  λ other n. ground arith,
)
  where
    h : Heap
    h = m.header_pool id

-- A heap that is full stays full: `tk_mem_malloct` returns NULL, and `tk_mem_free` returns before it
-- frees anything, whichever block it is given.
pub full_heap_stays_full :
    (id i : ℕ) (m : Memory)
    → (m.header_pool id).maxnum ≤ (m.header_pool id).blocks
    → (mem_malloct id m ≡ done (none, m)) × (mem_free id i m ≡ m)
unfolding mem_malloct mem_free
full_heap_stays_full id i m full = (ground arith, ground arith)
