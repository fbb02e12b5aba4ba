-- ===== src/Kernel/Threads.antt =====
-- The life of a thread in src/tk.c: creation, deletion, join, sleep and change of priority.
-- A call that waits in `tk_yield` is two functions: what runs before, and what runs once the
-- thread is chosen again.
use tinker.Base.{
  ℕ, zero, suc, ◌+◌, ◌-◌, ◌%◌, Bool, true, false, Option, none, some, List, length, bit_or, update,
  ltb, leb, ◌==◌, if◌then◌else◌,
}
use tinker.Kernel.State.{
  Tuning, Tcb, Kernel, null, bon_sched, e_none, ready, zombi_only, Outcome, done, exited, hangs,
  ◌>>=◌, put_tcb, put_slot, put_procs, inc16, dec16, Status, tk_ok, tk_error, tc_max_threads,
  tc_max_prio_levels, tc_threads_at_prio, tc_name_len, tc_nomem,
}
use tinker.Kernel.Family.{detach_children, try_detach_parent}

-- The control block of a new thread.
unfoldable pub fresh_tcb : Kernel → ℕ → List ℕ → ℕ → ℕ → ℕ → ℕ → Tcb
fresh_tcb k t name prio inpar stack stack_size = record (k.pool t) {
  thid = t;
  gid = some k.active;
  no_childs = 0;
  name = name;
  valid = true;
  state = ready;
  bon_kind = bon_sched;
  bon_entity = null;
  errno = tk_ok;
  stack_begin = some stack;
  stack_size = stack_size;
  wakeup_event = e_none;
  retval = inpar;
  prio = prio;
  idx = (k.rr prio).procs_at_prio;
}

-- Enter the block `t` in the pool, count it with its parent, and switch to it:
-- `_tk_construct_thread_scope` runs the new thread up to its first `tk_yield`.
unfoldable pub enter_thread : ℕ → Tcb → Kernel → Kernel
enter_thread t b k =
    let k' = put_tcb k t b in
    let k'' =
      put_tcb k' k.active
        (record (k'.pool k.active) { no_childs = (k'.pool k.active).no_childs + 1 }) in
    record k'' { procs_in_use = k.procs_in_use + 1; proc_idx = t; active = t }

-- `tk_create_thread` after its creator runs again. It reads the global `proc_idx` anew.
unfoldable pub create_finish : ℕ → Kernel → Kernel
create_finish prio k =
    let slot = (k.rr prio).procs_at_prio in
    let k' = put_tcb k k.proc_idx (record (k.pool k.proc_idx) { idx = slot }) in
    put_procs (put_slot k' prio slot k.proc_idx) prio (inc16 slot)

module _ (cfg : Tuning) where
  -- `do { idx++; idx %= TK_MAX_THREADS; } while (valid)`, on fuel.
  unfoldable pub next_free : ℕ → (ℕ → Tcb) → ℕ → Option ℕ
  next_free zero pool i = none
  next_free (suc fuel) pool i =
      let j = (i + 1) % cfg.max_threads in
      let rest = next_free fuel pool j in if (pool j).valid then rest else some j

  -- The three tests that end in `tk_exit`, as the bits that they set.
  unfoldable pub create_error : ℕ → Kernel → ℕ
  create_error prio k =
      bit_or
        (bit_or (if leb cfg.max_threads k.procs_in_use then tc_max_threads else 0)
          (if leb cfg.max_prio_levels prio then tc_max_prio_levels else 0))
        (if leb cfg.max_threads_at_prio (k.rr prio).procs_at_prio then tc_threads_at_prio else 0)

  -- What follows the choice of the slot `t`; `stack` is what `stalloc` returns.
  unfoldable pub create_in : ℕ → List ℕ → ℕ → ℕ → Option ℕ → ℕ → Kernel → Outcome (ℕ × Kernel)
  create_in t name prio inpar none stack_size k =
      if ltb (length name) cfg.thread_name_len then exited tc_nomem else exited tc_name_len
  create_in t name prio inpar (some stack) stack_size k =
      if ltb (length name) cfg.thread_name_len
      then done (t, enter_thread t (fresh_tcb k t name prio inpar stack stack_size) k)
      else exited tc_name_len

  -- `tk_create_thread` up to the first `tk_yield` of the new thread.
  unfoldable pub create_begin : List ℕ → ℕ → ℕ → Option ℕ → ℕ → Kernel → Outcome (ℕ × Kernel)
  create_begin name prio inpar stack stack_size k =
      if create_error prio k == 0
      then elim (next_free cfg.max_threads k.pool k.proc_idx) [
        | none ↦ hangs
        | some t ↦ create_in t name prio inpar stack stack_size k
      ]
      else exited (create_error prio k)

  -- `schedule[p][i + 1]`: past the end of a row C reads the next row.
  unfoldable pub next_slot : Kernel → ℕ → ℕ → ℕ
  next_slot k p i =
      if ltb (i + 1) cfg.max_threads_at_prio then k.schedule p (i + 1) else k.schedule (p + 1) 0

  -- One round: close the gap at `i`.
  unfoldable pub shift_slot : ℕ → ℕ → Kernel → Kernel
  unfolding next_slot
  shift_slot p i k =
      let t = next_slot k p i in
      let k' = put_slot k p i t in put_tcb k' t (record (k'.pool t) { idx = i })

  -- The rounds `i`, ..., `i + n - 1`.
  unfoldable pub shift_slots : ℕ → ℕ → ℕ → Kernel → Kernel
  unfolding shift_slot
  shift_slots p i zero k = k
  shift_slots p i (suc n) k = shift_slots p (i + 1) n (shift_slot p i k)

  -- Take the slot `i` out of the row `p`.
  unfoldable pub remove_slot : ℕ → ℕ → Kernel → Kernel
  unfolding shift_slots
  remove_slot p i k =
      let k' = shift_slots p i ((k.rr p).procs_at_prio - i) k in
      let n = dec16 (k'.rr p).procs_at_prio in
      record k' {
        rr = update k'.rr p (record {
          procs_at_prio = n;
          curr_idx = if leb n (k'.rr p).curr_idx then 0 else (k'.rr p).curr_idx;
        });
      }

  -- The part of `tk_delete_thread` under `if (bury_it)`.
  unfoldable pub bury : ℕ → Kernel → Outcome (Status × Kernel)
  unfolding remove_slot
  bury thid k =
      let p = (k.pool thid).prio in
      let i = (k.pool thid).idx in
      let k' = remove_slot p i (record k { procs_in_use = k.procs_in_use - 1 }) in
      if k.schedule p i == thid
      then done (tk_ok, put_tcb k' thid (record (k'.pool thid) { valid = false }))
      else exited 0x8002

  -- A thread that is not a zombie becomes one, and is buried only if its parent is told.
  unfoldable pub kill : ℕ → Kernel → Outcome (Bool × Kernel)
  unfolding detach_children try_detach_parent
  kill thid k =
      try_detach_parent thid false
        (detach_children cfg thid (put_tcb k thid (record (k.pool thid) { state = zombi_only })))

  unfoldable pub delete_thread : ℕ → Kernel → Outcome (Status × Kernel)
  delete_thread thid k =
      if (k.pool thid).valid
      then (if (k.pool thid).state.zombi
          then bury thid k
          else kill thid k >>= λ r. if r.0 then bury thid r.1 else done (tk_ok, r.1))
      else done (tk_error, k)
