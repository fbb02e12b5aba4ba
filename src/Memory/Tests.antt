-- ===== src/Memory/Tests.antt =====
-- The heaps of src/tk_mem.c at small states.
use tinker.Base.{
  ℕ, ◌<◌, ◌≡◌, ◌≢◌, ◌⊎◌, refl, true, false, none, some, update, ◌==◌, if◌then◌else◌, arith,
}
use tinker.Kernel.State.{done, tk_ok, ebusy}
use tinker.Memory.Heap.{
  Opt, Heap, Memory, is_heap, find_block, mem_malloct, mem_free, new_heap, create_heap,
  destroy_heap,
}
use tinker.Memory.Count.{count_used}
use tinker.Memory.Alloc.{HeapOk, mem_malloct-HeapOk, mem_free-HeapOk, full_heap_stays_full}
use tinker.Memory.Create.{create_heap-HeapOk, new_heap_kept, destroy_heap_lem}

abbrev no_heap : Heap
no_heap = record {
  maxnum = 0;
  dsize = 0;
  blocks = 0;
  indx = 0;
  heap = none;
  is_malloced = false;
  self = none;
  used = λ i. 0;
}

-- A heap of three blocks, the block 0 in use.
abbrev demo_heap : Heap
demo_heap = record no_heap {
  maxnum = 3;
  dsize = 12;
  blocks = 1;
  heap = some 4096;
  self = some 2;
  used = λ i. if i == 0 then 1 else 0;
}

abbrev demo : Heap → Memory
demo h = record { header_pool = λ i. if i == 2 then h else no_heap; cheap_idx = 3; nheaps = 1 }

demo-HeapOk : HeapOk demo_heap
unfolding count_used
demo-HeapOk = record { start = omega arith; counted = refl }

-- The search goes on behind a block in use.
skips_used : find_block 3 3 0 demo_heap.used ≡ some 1
unfolding find_block
skips_used = refl

mem_malloct-HeapOk_example :
    (i : ℕ) × (m' : Memory) × (mem_malloct 2 (demo demo_heap) ≡ done (some i, m'))
    × (i < 3)
    × (demo_heap.used i ≡ 0)
    × ((m'.header_pool 2).used ≡ update demo_heap.used i 1)
    × HeapOk (m'.header_pool 2)
    × ((other : ℕ) → other ≢ 2 → m'.header_pool other ≡ (demo demo_heap).header_pool other)
mem_malloct-HeapOk_example = mem_malloct-HeapOk 2 (demo demo_heap) refl demo-HeapOk (omega arith)

mem_free-HeapOk_example :
    ((mem_free 2 0 (demo demo_heap)).header_pool 2).used ≡ update demo_heap.used 0 0
    × HeapOk ((mem_free 2 0 (demo demo_heap)).header_pool 2)
    × ((other : ℕ)
        → other ≢ 2
        → (mem_free 2 0 (demo demo_heap)).header_pool other ≡ (demo demo_heap).header_pool other)
mem_free-HeapOk_example =
    mem_free-HeapOk 2 0 (demo demo_heap) refl demo-HeapOk (omega arith) (omega arith) (ground arith)

abbrev full_heap : Heap
full_heap = record demo_heap { blocks = 3; used = λ i. 1 }

stays_full :
    (mem_malloct 2 (demo full_heap) ≡ done (none, demo full_heap))
    × (mem_free 2 1 (demo full_heap) ≡ demo full_heap)
stays_full = full_heap_stays_full 2 1 (demo full_heap) (omega arith)

abbrev blank : Opt
blank = record { keep_uninitialized = false; blank_zero = true; blank_id = false }

create_heap-HeapOk_example :
    (id : ℕ) × (m' : Memory) × (create_heap 8 4 100 12 blank none
        (some 64)
        (λ i. 7)
        (demo demo_heap)
      ≡ done (tk_ok, some id, m'))
    × (((demo demo_heap).header_pool id).heap ≡ none)
    × (is_heap m' id ≡ true)
    × ((m'.header_pool id).blocks ≡ 0)
    × HeapOk (m'.header_pool id)
    × ((other : ℕ) → other ≢ id → m'.header_pool other ≡ (demo demo_heap).header_pool other)
    × (m'.nheaps ≡ 2)
create_heap-HeapOk_example =
    create_heap-HeapOk 8 4 100 12 blank 64 (λ i. 7) (demo demo_heap) 5 refl (omega arith)
      (omega arith) (omega arith) refl (omega arith)

abbrev kept : Opt
kept = record { keep_uninitialized = true; blank_zero = false; blank_id = false }

-- Only the first of six blocks was in use.
counts_first_word :
    ((new_heap 1 64 false 6 12 kept (λ i. if i == 0 then 1 else 0)).blocks ≡ 6)
    × ((new_heap 1 64 false 6 12 kept (λ i. if i == 0 then 1 else 0)).used
        ≡ (λ i. if i == 0 then 1 else 0))
counts_first_word = new_heap_kept 1 64 6 12 false kept (λ i. if i == 0 then 1 else 0) refl

destroys_unused :
    ((demo_heap.blocks ≢ 0) × (destroy_heap 2 (demo demo_heap) ≡ (ebusy, demo demo_heap)))
    ⊎ ((demo_heap.blocks ≡ 0)
        × ((destroy_heap 2 (demo demo_heap)).0 ≡ tk_ok)
        × (((destroy_heap 2 (demo demo_heap)).1.header_pool 2).heap ≡ none)
        × (is_heap (destroy_heap 2 (demo demo_heap)).1 2 ≡ false))
destroys_unused = destroy_heap_lem 2 (demo demo_heap) refl
