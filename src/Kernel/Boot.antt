-- ===== src/Kernel/Boot.antt =====
-- The whole of `tk_create_thread`, the end of a thread, and the start and stop of the kernel:
-- `tk_create_kernel`, `_tk_destructor`, `tk_delete_kernel` of src/tk.c.
use tinker.Base.{
  ℕ, ◌-◌, true, false, Option, none, some, List, [], ◌∷◌, length, update, ltb, ◌==◌, if◌then◌else◌,
}
use tinker.Kernel.State.{
  Tuning, Tcb, Kernel, ready, zombi_only, null, bon_sched, e_none, Outcome, done, hangs, ◌>>=◌,
  put_tcb, put_slot, Status, tk_ok,
}
use tinker.Kernel.Family.{detach_children}
use tinker.Kernel.Threads.{create_begin, create_finish, delete_thread}
use tinker.Kernel.Dispatch.{yield}

-- Either the creator is the thread that runs next, and the call returns; or another thread runs
-- first, and `create_finish` is still to come.
pub data Created : Type 0 where
  created : ℕ → Kernel → Created
  suspended : ℕ → Kernel → Created

-- The control block that `tk_create_kernel` leaves in each place of the pool.
abbrev pub blank_tcb : Tcb → Tcb
blank_tcb b = record b {
  thid = 0;
  gid = some 0;
  no_childs = 0;
  valid = false;
  state = zombi_only;
  bon_kind = bon_sched;
  bon_entity = null;
  errno = tk_ok;
  stack_begin = none;
  stack_size = 0;
  wakeuptime = 0;
  wakeup_event = e_none;
  retval = 0;
}

-- "tk_root" and "idle"
abbrev pub root_name : List ℕ
root_name = 0x74 ∷ 0x6b ∷ 0x5f ∷ 0x72 ∷ 0x6f ∷ 0x6f ∷ 0x74 ∷ []

abbrev pub idle_name : List ℕ
idle_name = 0x69 ∷ 0x64 ∷ 0x6c ∷ 0x65 ∷ []

module _ (cfg : Tuning) where
  unfoldable pub create_thread : List ℕ → ℕ → ℕ → Option ℕ → ℕ → ℕ → Kernel → Outcome Created
  create_thread name prio inpar stack stack_size now k =
      create_begin cfg name prio inpar stack stack_size k >>= λ r. yield cfg now r.1 >>= λ k'.
      if k'.active == k.active
      then done (created r.0 (create_finish prio k'))
      else done (suspended r.0 k')

  -- The loops of `tk_create_kernel`, and the root thread.
  unfoldable pub blank_kernel : Kernel → Kernel
  blank_kernel k =
      let root = record (blank_tcb (k.pool 0)) { state = ready; valid = true; name = root_name } in
      record k {
        pool = λ i.
            if i == 0
            then root
            else if ltb i cfg.max_threads
            then blank_tcb (k.pool i)
            else k.pool i;
        procs_in_use = 1;
        proc_idx = 0;
        rr = λ p.
            if ltb p cfg.max_prio_levels
            then record { procs_at_prio = 0; curr_idx = 0 }
            else k.rr p;
        schedule = λ p i.
            if ltb p cfg.max_prio_levels
            then (if ltb i cfg.max_threads_at_prio then 0 else k.schedule p i)
            else k.schedule p i;
      }

  -- What follows the creation of the idle thread: it becomes its own parent, and the root thread
  -- gets the first slot of the first row.
  unfoldable pub adopt_idle : ℕ → Kernel → Kernel
  adopt_idle idle k =
      let g : ℕ = elim (k.pool idle).gid [ none ↦ idle | some p ↦ p ] in
      let k' = put_tcb k g (record (k.pool g) { no_childs = (k.pool g).no_childs - 1 }) in
      let k'' = put_tcb k' idle (record (k'.pool idle) { gid = some (k'.pool idle).thid }) in
      put_slot
        (record k'' {
          idle_thid = idle;
          rr = update k''.rr 0 (record (k''.rr 0) { procs_at_prio = 1 });
        })
        0 0 0

  -- The name of the root thread needs eight bytes; where the field is shorter, `strcpy` writes past it,
  -- which is not followed. The first `tk_yield`, of the idle thread, finds no thread in the schedule: the choice falls on
  -- the old value of `idle_Thid`, 0, which is the root thread.
  unfoldable pub create_kernel : Option ℕ → ℕ → Kernel → Outcome Kernel
  create_kernel stack now k =
      if ltb cfg.thread_name_len (length root_name)
      then hangs
      else create_thread idle_name (cfg.max_prio_levels - 1) 0 stack cfg.minimum_stack_size now
          (blank_kernel k)
        >>= λ c. elim c [ created t k' ↦ done (adopt_idle t k') | suspended t k' ↦ hangs ]

  unfoldable pub delete_kernel : Kernel → Outcome (Status × Kernel)
  delete_kernel k = delete_thread cfg k.idle_thid k

  -- `_tk_destructor` up to its loop of sleeps.
  unfoldable pub destructor : ℕ → Kernel → Kernel
  unfolding detach_children
  destructor retval k =
      detach_children cfg k.active
        (put_tcb k k.active (record (k.pool k.active) { state = zombi_only; retval = retval }))
