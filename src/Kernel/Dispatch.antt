-- ===== src/Kernel/Dispatch.antt =====
-- Choice of the next thread and the context switch: `_tk_next_runable_thread` of src/tk.c, and
-- src/tk_switch.c. The debug assertions are on. A switch is the new value of `active`.
use tinker.Base.{
  ℕ, zero, suc, ◌+◌, ◌-◌, ◌%◌, Bool, true, false, ◌&&◌, not, Option, none, some, update, ltb, leb,
  ◌==◌, if◌then◌else◌,
}
use tinker.Kernel.State.{
  Tuning, Kernel, e_timer, is_ready, Outcome, done, ◌>>=◌, assert_then, put_tcb,
}
use tinker.Kernel.Family.{try_detach_parent, opt_eq}
use tinker.Kernel.Threads.{delete_thread}

-- What the inner loop leaves: the thread it found, and `last_thid`.
abbrev pub Found : Type 0
Found = Option ℕ × Option ℕ

-- The inner loop: `n` tries left, at the slot `idx` of a row of `len` threads.
unfoldable pub scan_row : ℕ → ℕ → ℕ → ℕ → Option ℕ → Kernel → Outcome Found
scan_row p len idx zero last k = done (none, last)
scan_row p len idx (suc n) last k =
    let t = k.schedule p idx in
    let rest = scan_row p len ((idx + 1) % len) n (some (k.pool t).thid) k in
    assert_then (k.pool t).valid (
      assert_then (not (opt_eq last (k.pool t).thid))
        (if is_ready (k.pool t).state then done (some t, some (k.pool t).thid) else rest))

-- The outer loop: `n` levels left, from `p` on.
unfoldable pub scan_levels : ℕ → ℕ → Option ℕ → Kernel → Outcome (Option ℕ)
scan_levels zero p last k = done none
scan_levels (suc n) p last k =
    scan_row p (k.rr p).procs_at_prio (k.rr p).curr_idx (k.rr p).procs_at_prio last k >>= λ r.
    elim r.0 [ some t ↦ done (some t) | none ↦ scan_levels n (p + 1) r.1 k ]

abbrev pub or_idle : Option ℕ → ℕ → ℕ
or_idle none idle = idle
or_idle (some t) idle = t

module _ (cfg : Tuning) where
  unfoldable pub next_runable : Kernel → Outcome ℕ
  next_runable k = scan_levels cfg.max_prio_levels 0 none k >>= λ r. done (or_idle r k.idle_thid)

  -- `now` and `wakeuptime` are microseconds on a clock that has not wrapped, so that `tk_difftime` of
  -- them is not negative when `now` is not less. A sleeper whose time has come is ready, unless it also waits for a child or is dead.
  unfoldable pub wake_sleeper : ℕ → ℕ → Kernel → Kernel
  wake_sleeper now i k =
      if (k.pool i).state.sleep && leb (k.pool i).wakeuptime now
      then put_tcb k i (record (k.pool i) {
        state = record (k.pool i).state { sleep = false; queue = false };
        wakeup_event = e_timer;
      })
      else k

  -- Once its parent knows, a zombie is deleted.
  unfoldable pub reap_told : ℕ → Bool × Kernel → Outcome Kernel
  reap_told i (true, k) = delete_thread cfg i k >>= λ d. done d.1
  reap_told i (false, k) = done k

  -- A zombie that is not running is deleted once its parent knows.
  unfoldable pub reap : ℕ → Kernel → Outcome Kernel
  reap i k =
      if (k.pool i).state.zombi && not (i == k.active)
      then (try_detach_parent i false k >>= reap_told i)
      else done k

  -- The loop of `_tk_wakeup_timedout_threads` from `i` on, `n` rounds left.
  unfoldable pub wakeup_from : ℕ → ℕ → ℕ → Kernel → Outcome Kernel
  wakeup_from now i zero k = done k
  wakeup_from now i (suc n) k =
      if ltb 0 k.npreempt
      then done k
      else (if (k.pool i).valid then reap i (wake_sleeper now i k) else done k) >>= λ k'.
          wakeup_from now (i + 1) n k'

  unfoldable pub wakeup_timedout : ℕ → Kernel → Outcome Kernel
  wakeup_timedout now k = wakeup_from now 0 cfg.max_threads k

  unfoldable pub preemplist : ℕ → Kernel → Kernel
  preemplist t k = record k {
    npreempt = k.npreempt + 1;
    preemptlist = update k.preemptlist k.inpreempt t;
    inpreempt = (k.inpreempt + 1) % cfg.max_threads;
  }

  -- The entry that `tk_yield` takes out; the choice that follows overwrites `thread_to_run`.
  unfoldable pub take_preempted : Kernel → Outcome Kernel
  take_preempted k =
      if ltb 0 k.npreempt
      then assert_then (ltb k.npreempt 2) (
          done (record k {
            npreempt = k.npreempt - 1;
            thread_to_run = k.preemptlist k.outpreempt;
            outpreempt = (k.outpreempt + 1) % cfg.max_threads;
          }))
      else done k

  -- `tk_yield_event`, and the end of `tk_yield`: choose, and switch.
  unfoldable pub yield_event : Kernel → Outcome Kernel
  yield_event k = next_runable k >>= λ t. done (record k { thread_to_run = t; active = t })

  unfoldable pub yield : ℕ → Kernel → Outcome Kernel
  yield now k = wakeup_timedout now k >>= λ k'. take_preempted k' >>= λ k''. yield_event k''
