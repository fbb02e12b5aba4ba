-- ===== src/Kernel/Keep/Create.antt =====
-- `tk_create_thread` of src/tk.c, in its two halves.
use tinker.Base.{
  ℕ, ◌+◌, ◌<◌, ◌≡◌, ◌≢◌, refl, sym, ap, subst, ◌∙◌, Bool, true, false, some, List, length, lt→ltb,
  arith,
}
use tinker.Kernel.State.{Tuning, Tcb, Kernel, done}
use tinker.Kernel.Threads.{
  next_free, create_error, fresh_tcb, enter_thread, create_in, create_begin, create_finish,
}
use tinker.Kernel.Wait.{append_slot}
use tinker.Kernel.Keep.Free.{next_free_lem}
use tinker.Kernel.Rows.Defs.{procs, IsSane, RowsOk, also}
use tinker.Kernel.Rows.Place.{append_slot-RowsOk}

-- The rows do not depend on a block that was free.
pub enter_thread-RowsOk :
    {cfg : Tuning} {out : ℕ → Bool} (k : Kernel) (t : ℕ) (b : Tcb)
    → RowsOk cfg out k
    → (k.pool t).valid ≡ false
    → RowsOk cfg (also t out) (enter_thread t b k)
unfolding enter_thread
enter_thread-RowsOk {cfg} {out} k t b ok free = record {
  root = ok.root;
  room = ok.room;
  front = ok.front;
  tail = ok.tail;
  slot = λ q j x y. ground (arith, ok.slot q j x y);
  level = λ s x v o. ground (arith, ok.level s x);
  inside = λ s x v o n. ground (arith, ok.inside s x);
  home = λ s x v o n. ground (arith, ok.home s x);
  root_valid = ground (arith, ok.root_valid);
  root_listed = ground (arith, ok.root_listed, ok.root_valid);
  root_inside = ground (arith, ok.root_inside, ok.root_valid);
  root_home = ground (arith, ok.root_home, ok.root_valid);
}

-- What the first half leaves: a new thread `t`, ready and valid, in no row yet.
pub record IsBegun (cfg : Tuning) (out : ℕ → Bool) (prio t : ℕ) (k k' : Kernel) : Type 0 where
  pub small : t < cfg.max_threads
  pub was_free : (k.pool t).valid ≡ false
  pub live : (k'.pool t).valid ≡ true
  pub own : (k'.pool t).thid ≡ t
  pub parent : (k'.pool t).gid ≡ some k.active
  pub level : (k'.pool t).prio ≡ prio
  pub current : (k'.proc_idx ≡ t) × (k'.active ≡ t)
  pub counted : k'.procs_in_use ≡ k.procs_in_use + 1
  pub rows : RowsOk cfg (also t out) k'

-- With a free place in the pool, room at the priority, a short name and memory for the stack, the
-- first half of `tk_create_thread` returns: it neither ends the program nor searches for ever. It
-- takes a free place for the new thread, and the rows stay in order around it.
pub create_begin-IsBegun :
    {cfg : Tuning} {out : ℕ → Bool} (k : Kernel) (name : List ℕ)
    (prio inpar stack stack_size free : ℕ)
    → RowsOk cfg out k
    → k.procs_in_use < cfg.max_threads
    → k.proc_idx < cfg.max_threads
    → prio < cfg.max_prio_levels
    → procs k prio < cfg.max_threads_at_prio
    → length name < cfg.thread_name_len
    → free < cfg.max_threads
    → (k.pool free).valid ≡ false
    → (t : ℕ) × (k' : Kernel) × (create_begin cfg name prio inpar (some stack) stack_size k
        ≡ done (t, k'))
      × IsBegun cfg out prio t k k'
unfolding create_begin create_in
create_begin-IsBegun {cfg} {out} k name prio inpar stack stack_size free ok few start pl room short
      small unused =
    (
      t,
      k',
      rw (no_error, found.1, lt→ltb _ _ short),
      record {
        small = found.2;
        was_free = found.3;
        live = unfold enter_thread fresh_tcb in ground arith;
        own = unfold enter_thread fresh_tcb in ground arith;
        parent = unfold enter_thread fresh_tcb in ground arith;
        level = unfold enter_thread fresh_tcb in ground arith;
        current = unfold enter_thread in (refl, refl);
        counted = unfold enter_thread in refl;
        rows = enter_thread-RowsOk k t (fresh_tcb k t name prio inpar stack stack_size) ok found.3;
      },
    )
  where
    found :
        (t : ℕ) × (next_free cfg cfg.max_threads k.pool k.proc_idx ≡ some t)
        × (t < cfg.max_threads)
        × ((k.pool t).valid ≡ false)
    found = next_free_lem cfg k.pool k.proc_idx free start small unused

    t : ℕ
    t = found.0

    k' : Kernel
    k' = enter_thread t (fresh_tcb k t name prio inpar stack stack_size) k

    no_error : create_error cfg prio k ≡ 0
    no_error = unfold create_error in ground arith

-- The second half is the entry in the row of the priority that the block has.
create_finish-append :
    (p : ℕ) (k : Kernel)
    → (k.pool k.proc_idx).prio ≡ p
    → create_finish p k ≡ append_slot k.proc_idx p k
unfolding create_finish append_slot
create_finish-append p k e = subst (λ q. create_finish q k ≡ append_slot k.proc_idx q k) e refl

-- If no other creation has come between, so that the new thread is the only one that the rows still
-- lack, and its row has room for two, so that it is not full afterwards, the second half of
-- `tk_create_thread` puts it at the end of the row of its priority, and the rows are in order with it.
pub create_finish-RowsOk :
    {cfg : Tuning} {out : ℕ → Bool} (k : Kernel) (t p : ℕ)
    → IsSane cfg
    → RowsOk cfg (also t out) k
    → k.proc_idx ≡ t
    → (t < cfg.max_threads)
      × ((k.pool t).valid ≡ true)
      × ((k.pool t).thid ≡ t)
      × ((k.pool t).prio ≡ p)
    → out t ≡ false
    → t ≢ 0
    → p < cfg.max_prio_levels
    → procs k p + 1 < cfg.max_threads_at_prio
    → RowsOk cfg out (create_finish p k) × ((create_finish p k).schedule p (procs k p) ≡ t)
create_finish-RowsOk {cfg} {out} k t p sane ok e (small, live, own, level) here other pl room =
    subst (λ m. RowsOk cfg out m × (m.schedule p (procs k p) ≡ t)) (sym same)
      (
        append_slot-RowsOk cfg sane out t p k ok small live own here other pl room,
        unfold append_slot in ground arith,
      )
  where
    same : create_finish p k ≡ append_slot t p k
    same =
        create_finish-append p k (ap (λ x. (k.pool x).prio) e ∙ level)
        ∙ ap (λ x. append_slot x p k) e
