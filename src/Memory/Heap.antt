-- ===== src/Memory/Heap.antt =====
-- The heaps of src/tk_mem.c. A block is `{ int used; char data[dsize]; }`, and a pointer to its data
-- is the heap with the number of the block. What blocks hold is left out. So are the two callbacks
-- `lock` and `unlock`, the field `last`, which nothing reads, and the memory's addresses: `malloc`
-- and the caller's `heap_ptr` are what they return.
use tinker.Base.{
  ℕ, zero, suc, ◌+◌, ◌-◌, ◌/◌, ◌%◌, Bool, true, false, ◌||◌, not, Option, none, some, update, ltb,
  leb, ◌==◌, if◌then◌else◌,
}
use tinker.Kernel.State.{
  Status, tk_ok, enomem, ebusy, err_undef_heapid, Outcome, done, exited, hangs, tc_err_assert,
}

-- `KMEM_KEEP_UNINITIALIZED`, `KMEM_BLANK_ZERO` and `KMEM_BLANK_ID`.
pub record Opt : Type 0 where
  pub keep_uninitialized : Bool
  pub blank_zero : Bool
  pub blank_id : Bool

-- `heap_t`: `heap` and `self` are none for NULL. `used` is the first word of each block.
pub record Heap : Type 0 where
  pub maxnum : ℕ
  pub dsize : ℕ
  pub blocks : ℕ
  pub indx : ℕ
  pub heap : Option ℕ
  pub is_malloced : Bool
  pub self : Option ℕ
  pub used : ℕ → ℕ

-- The globals `header_pool`, `cheap_idx` and `nheaps`.
pub record Memory : Type 0 where
  pub header_pool : ℕ → Heap
  pub cheap_idx : ℕ
  pub nheaps : ℕ

-- `memset(heapid, 0, sizeof(heap_t))`; the area itself keeps what it holds.
abbrev pub zero_heap : Heap → Heap
zero_heap h = record {
  maxnum = 0;
  dsize = 0;
  blocks = 0;
  indx = 0;
  heap = none;
  is_malloced = false;
  self = none;
  used = h.used;
}

abbrev pub is_null : Option ℕ → Bool
is_null none = true
is_null (some a) = false

abbrev pub put_heap : Memory → ℕ → Heap → Memory
put_heap m id h = record m { header_pool = update m.header_pool id h }

-- `heapid->self` is neither NULL nor another address.
abbrev pub is_heap : Memory → ℕ → Bool
is_heap m id = elim (m.header_pool id).self [ none ↦ false | some s ↦ s == id ]

-- `for (i = heapid->indx; *(int *)ptr;)`, on fuel.
unfoldable pub find_block : (max fuel i : ℕ) → (ℕ → ℕ) → Option ℕ
find_block max zero i used = none
find_block max (suc fuel) i used =
    let rest = find_block max fuel ((i + 1) % max) used in if used i == 0 then some i else rest

-- The heap once the block `i` is taken.
unfoldable pub take_block : ℕ → Heap → Heap
take_block i h = record h {
  indx = (i + 1) % h.maxnum;
  blocks = h.blocks + 1;
  used = update h.used i 1;
}

unfoldable pub mem_malloct : ℕ → Memory → Outcome (Option ℕ × Memory)
unfolding take_block
mem_malloct id m =
    let h = m.header_pool id in
    if not (is_heap m id) || leb h.maxnum h.blocks
    then done (none, m)
    else elim (find_block h.maxnum h.maxnum h.indx h.used) [
      | none ↦ hangs
      | some i ↦ done (some i, put_heap m id (take_block i h))
    ]

-- The pointer is the block `i` of the heap `id`.
unfoldable pub mem_free : ℕ → ℕ → Memory → Memory
mem_free id i m =
    let h = m.header_pool id in
    if not (is_heap m id) || leb h.maxnum h.blocks
    then m
    else put_heap m id (record h { blocks = h.blocks - 1; used = update h.used i 0 })

-- `for (i = 0; i < mxnum; i++)` under `KMEM_KEEP_UNINITIALIZED`: `n` rounds left, from `i` on. `ptr`
-- does not move, so that each round reads the word `w` of the block 0. The pair is `blocks`, `indx`.
unfoldable pub count_kept : (n i w : ℕ) → ℕ × ℕ → ℕ × ℕ
count_kept zero i w c = c
count_kept (suc n) i w c = count_kept n (i + 1) w (if w == 0 then (c.0, i) else (c.0 + 1, c.1))

-- The header of a new heap, in an area where each block's first word is `old`.
unfoldable pub new_heap : (id address : ℕ) → Bool → (mxnum dsize : ℕ) → Opt → (ℕ → ℕ) → Heap
unfolding count_kept
new_heap id address own mxnum dsize opt old =
    let kept = count_kept mxnum 0 (old 0) (0, 0) in
    record {
      maxnum = mxnum;
      dsize = dsize;
      blocks = if opt.keep_uninitialized then kept.0 else 0;
      indx = if opt.keep_uninitialized then kept.1 else 0;
      heap = some address;
      is_malloced = own;
      self = some id;
      used = if opt.keep_uninitialized then old else λ i. if ltb i mxnum then 0 else old i;
    }

module _ (nheaps_max : ℕ) where
  unfoldable pub mem : Memory → Memory
  mem m = record m {
    header_pool = λ i. if ltb i nheaps_max then zero_heap (m.header_pool i) else m.header_pool i;
  }

  -- The search for a free header: `n` rounds left.
  unfoldable pub find_header : (n : ℕ) → Memory → Option ℕ × Memory
  find_header zero m = (none, m)
  find_header (suc n) m =
      let m' = record m { cheap_idx = (m.cheap_idx + 1) % nheaps_max } in
      let rest = find_header n m' in
      if is_null (m.header_pool m.cheap_idx).heap then (some m.cheap_idx, m') else rest

  -- What follows the search. `area` is `heap_ptr`, or what `malloc` returns if that is NULL.
  unfoldable pub create_at :
      (id : ℕ)
      → Option ℕ
      → Bool
      → (mxnum dsize : ℕ) → Opt
      → (ℕ → ℕ)
      → Memory
      → Status × Option ℕ × Memory
  unfolding new_heap
  create_at id none own mxnum dsize opt old m =
      (enomem, none, put_heap m id (zero_heap (m.header_pool id)))
  create_at id (some a) own mxnum dsize opt old m = (
    tk_ok,
    some id,
    record (put_heap m id (new_heap id a own mxnum dsize opt old)) { nheaps = m.nheaps + 1 },
  )

  -- `tk_create_heap`; `int_size` is `sizeof(int)`.
  unfoldable pub create_heap :
      (int_size hsize dsize : ℕ)
      → Opt
      → (heap_ptr malloced : Option ℕ) → (ℕ → ℕ)
      → Memory
      → Outcome (Status × Option ℕ × Memory)
  unfolding create_at
  create_heap int_size hsize dsize opt heap_ptr malloced old m =
      let found = find_header nheaps_max m in
      let area = if is_null heap_ptr then malloced else heap_ptr in
      if leb nheaps_max m.nheaps then done (enomem, none, m) else elim found.0 [
        | none ↦ exited tc_err_assert
        | some id ↦ done (
            create_at id area (is_null heap_ptr) (hsize / (int_size + dsize)) dsize opt old found.1)
      ]

unfoldable pub destroy_heap : ℕ → Memory → Status × Memory
destroy_heap id m =
    if not (is_heap m id)
    then (err_undef_heapid, m)
    else if (m.header_pool id).blocks == 0
    then (tk_ok, record (put_heap m id (zero_heap (m.header_pool id))) { nheaps = m.nheaps - 1 })
    else (ebusy, m)
