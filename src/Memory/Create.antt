-- ===== src/Memory/Create.antt =====
-- `tk_create_heap` and `tk_destroy_heap` of src/tk_mem.c.
use tinker.Base.{
  ℕ, zero, suc, ◌+◌, ◌-◌, ◌/◌, ◌%◌, ◌≤◌, ◌<◌, ◌≡◌, ◌≢◌, refl, sym, ap, ◌∙◌, ◌⊎◌, inl, inr, Bool,
  true, false, Option, none, some, ltb, ◌==◌, if◌then◌else◌, Bool-cases, mod-lt, mod-eq_of_lt,
  mod-add-mod, add-mod_right, arith,
}
use tinker.Kernel.State.{done, tk_ok, ebusy}
use tinker.Memory.Heap.{
  Opt, Memory, is_null, is_heap, put_heap, count_kept, new_heap, find_header, create_at,
  create_heap, destroy_heap,
}
use tinker.Memory.Count.{count_used}
use tinker.Memory.Alloc.{HeapOk}

count_used-zeros :
    (n max : ℕ) (old : ℕ → ℕ) → n ≤ max → count_used n (λ i. if ltb i max then 0 else old i) ≡ 0
unfolding count_used
count_used-zeros zero max old h = refl
count_used-zeros (suc n) max old h = ground (arith, count_used-zeros n max old)

-- The loop that keeps what an area holds counts every block as in use, or none, by the first block's
-- word alone.
count_kept_lem :
    (n i w : ℕ) (c : ℕ × ℕ) → (count_kept n i w c).0 ≡ (if w == 0 then c.0 else c.0 + n)
unfolding count_kept
count_kept_lem zero i w c = ground arith
count_kept_lem (suc n) i w c =
    ground (arith, count_kept_lem n (i + 1) w (if w == 0 then (c.0, i) else (c.0 + 1, c.1)))

-- What the search for a header leaves: a free one, and the pool as it was.
pub record IsFound (max n : ℕ) (m : Memory) (id : ℕ) (m' : Memory) : Type 0 where
  pub search : find_header max n m ≡ (some id, m')
  pub small : id < max
  pub free : (m.header_pool id).heap ≡ none
  pub same_pool : m'.header_pool ≡ m.header_pool
  pub same_number : m'.nheaps ≡ m.nheaps

module _ (max : ℕ) where
  abbrev next : Memory → Memory
  next m = record m { cheap_idx = (m.cheap_idx + 1) % max }

  null : (o : Option ℕ) → is_null o ≡ true → o ≡ none
  null none e = refl
  null (some a) e = absurd (ground arith)

  here-IsFound :
      (n : ℕ) (m : Memory)
      → m.cheap_idx < max
      → is_null (m.header_pool m.cheap_idx).heap ≡ true
      → IsFound max (suc n) m m.cheap_idx (next m)
  unfolding find_header
  here-IsFound n m b free = record {
    search = rw free;
    small = b;
    free = null _ free;
    same_pool = refl;
    same_number = refl;
  }

  -- Some header is free, `d` places behind the start.
  find_header-finds :
      (n d : ℕ) (m : Memory)
      → d < n
      → m.cheap_idx < max
      → (m.header_pool ((m.cheap_idx + d) % max)).heap ≡ none
      → (id : ℕ) × (m' : Memory) × IsFound max n m id m'
  unfolding find_header
  find_header-finds zero d m h b v = absurd (omega arith)
  find_header-finds (suc n) zero m h b v = (
    m.cheap_idx,
    next m,
    here-IsFound n m b (
        ap is_null (
          ap (λ x. (m.header_pool x).heap) {x = m.cheap_idx} {y = (m.cheap_idx + 0) % max}
            (sym (
              ap (λ x. x % max) {x = m.cheap_idx + 0} {y = m.cheap_idx} (omega arith)
              ∙ mod-eq_of_lt b))
          ∙ v)),
  )
  find_header-finds (suc n) (suc d) m h b v =
      elim (Bool-cases (is_null (m.header_pool m.cheap_idx).heap)) [
        | inl free ↦ (m.cheap_idx, next m, here-IsFound n m b free)
        | inr taken ↦
            let r =
              find_header-finds n d (next m) (omega arith) (mod-lt (m.cheap_idx + 1) (omega arith))
                later in
            (
              r.0,
              r.1,
              record {
                search = rw taken r.2.search;
                small = r.2.small;
                free = r.2.free;
                same_pool = r.2.same_pool;
                same_number = r.2.same_number;
              },
            )
      ]
    where
      later : (m.header_pool (((m.cheap_idx + 1) % max + d) % max)).heap ≡ none
      later =
          ap (λ x. (m.header_pool x).heap)
            (mod-add-mod (m.cheap_idx + 1) max d
              ∙ ap (λ x. x % max) {x = m.cheap_idx + 1 + d} {y = m.cheap_idx + suc d} (omega arith))
          ∙ v

  find_header_lem :
      (m : Memory) (j : ℕ)
      → m.cheap_idx < max
      → j < max
      → (m.header_pool j).heap ≡ none
      → (id : ℕ) × (m' : Memory) × IsFound max max m id m'
  find_header_lem m j a b v =
      find_header-finds max gap m (ground arith) a (ap (λ x. (m.header_pool x).heap) reach ∙ v)
    where
      gap : ℕ
      gap = if ltb j m.cheap_idx then j + max - m.cheap_idx else j - m.cheap_idx

      reach : (m.cheap_idx + gap) % max ≡ j
      reach = elim (Bool-cases (ltb j m.cheap_idx)) [
        | inl behind ↦
            ap (λ x. x % max) {x = m.cheap_idx + gap} {y = j + max} (ground arith)
            ∙ add-mod_right j max
            ∙ mod-eq_of_lt b
        | inr ahead ↦
            ap (λ x. x % max) {x = m.cheap_idx + gap} {y = j} (ground arith) ∙ mod-eq_of_lt b
      ]

-- With fewer heaps than headers, a free header, memory from `malloc` for the area and room in it for
-- at least one block, `tk_create_heap` without KMEM_KEEP_UNINITIALIZED returns TK_OK and a header that
-- was free. The new heap is empty and its count is right, and no other header changes.
pub create_heap-HeapOk :
    (max int_size hsize dsize : ℕ) (opt : Opt) (area : ℕ) (old : ℕ → ℕ) (m : Memory) (free : ℕ)
    → opt.keep_uninitialized ≡ false
    → m.nheaps < max
    → m.cheap_idx < max
    → free < max
    → (m.header_pool free).heap ≡ none
    → 0 < hsize / (int_size + dsize)
    → (id : ℕ) × (m' : Memory) × (create_heap max int_size hsize dsize opt none (some area) old m
        ≡ done (tk_ok, some id, m'))
      × ((m.header_pool id).heap ≡ none)
      × (is_heap m' id ≡ true)
      × ((m'.header_pool id).blocks ≡ 0)
      × HeapOk (m'.header_pool id)
      × ((other : ℕ) → other ≢ id → m'.header_pool other ≡ m.header_pool other)
      × (m'.nheaps ≡ m.nheaps + 1)
unfolding create_heap create_at new_heap
create_heap-HeapOk max int_size hsize dsize opt area old m free fresh few start small empty room = (
  id,
  record (put_heap found.1 id (new_heap id area true (hsize / (int_size + dsize)) dsize opt old)) {
    nheaps = found.1.nheaps + 1;
  },
  ground (arith, found.2.search, few),
  found.2.free,
  ground arith,
  ground arith,
  record {
    start = ground (arith, room);
    counted =
        ground
          (arith, count_used-zeros (hsize / (int_size + dsize)) (hsize / (int_size + dsize)) old);
  },
  λ other n. ground (arith, found.2.same_pool),
  ground (arith, found.2.same_number),
)
  where
    found : (id : ℕ) × (m' : Memory) × IsFound max max m id m'
    found = find_header_lem max m free start small empty

    id : ℕ
    id = found.0

-- With KMEM_KEEP_UNINITIALIZED the count of a new heap depends on the word of the first block alone:
-- if that is zero then no block counts as used, and otherwise every block does.
pub new_heap_kept :
    (id address mxnum dsize : ℕ) (own : Bool) (opt : Opt) (old : ℕ → ℕ)
    → opt.keep_uninitialized ≡ true
    → ((new_heap id address own mxnum dsize opt old).blocks ≡ (if old 0 == 0 then 0 else mxnum))
      × ((new_heap id address own mxnum dsize opt old).used ≡ old)
unfolding new_heap
new_heap_kept id address mxnum dsize own opt old kept =
    (ground (arith, kept, count_kept_lem mxnum 0 (old 0) (0, 0)), ground arith)

-- A heap is destroyed when no block counts as used and refused with EBUSY otherwise; afterwards its
-- header is free.
pub destroy_heap_lem :
    (id : ℕ) (m : Memory)
    → is_heap m id ≡ true
    → (((m.header_pool id).blocks ≢ 0) × (destroy_heap id m ≡ (ebusy, m)))
      ⊎ (((m.header_pool id).blocks ≡ 0)
          × ((destroy_heap id m).0 ≡ tk_ok)
          × (((destroy_heap id m).1.header_pool id).heap ≡ none)
          × (is_heap (destroy_heap id m).1 id ≡ false))
unfolding destroy_heap
destroy_heap_lem id m valid = elim (Bool-cases ((m.header_pool id).blocks == 0)) [
  | inl empty ↦ inr (ground arith, ground arith, ground arith, ground arith)
  | inr used ↦ inl (ground arith, ground arith)
]
