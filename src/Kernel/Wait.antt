-- ===== src/Kernel/Wait.antt =====
-- Calls of src/tk.c that wait or that move a thread: `tk_join`, `tk_msleep`, `tk_change_prio`.
-- A call that waits in `tk_yield` is two functions: what runs before, and what runs once the
-- thread is chosen again.
use tinker.Base.{
  ℕ, ◌+◌, ◌*◌, Bool, true, false, ◌&&◌, Option, none, some, bit_or, ltb, leb, ◌==◌, if◌then◌else◌,
}
use tinker.Kernel.State.{
  Tuning, Kernel, tcb, bon_sched, WakeEvent, e_none, e_childdeath, e_timer, e_itc, e_itc2, is_ready,
  Outcome, done, exited, ◌>>=◌, put_tcb, put_slot, put_procs, inc16, Status, tk_ok, esrch, einval,
  tc_max_prio_levels, tc_threads_at_prio, tc_tcb_invalid,
}
use tinker.Kernel.Family.{try_detach_parent, opt_eq}
use tinker.Kernel.Threads.{remove_slot}

-- What `tk_join` does at once: it returns a status and perhaps the value, or it waits.
pub data Joining : Type 0 where
  returned : Status → Option ℕ → Joining
  waiting : Joining

-- The child is dead: its value is read before it leaves its parent.
unfoldable pub join_zombie : ℕ → Kernel → Outcome (Joining × Kernel)
unfolding try_detach_parent
join_zombie pid k =
    try_detach_parent pid true k >>= λ r. done (returned tk_ok (some (k.pool pid).retval), r.1)

-- The child is alive: wait for its death.
unfoldable pub join_block : ℕ → Kernel → Kernel
join_block pid k =
    let me = k.pool k.active in
    put_tcb k k.active (record me {
      bon_kind = bon_sched;
      bon_entity = tcb pid;
      state = record me.state { term = true };
    })

-- `tk_join` up to its `tk_yield`. The value is what `*value_ptr` receives.
unfoldable pub join_begin : ℕ → Kernel → Outcome (Joining × Kernel)
unfolding join_zombie join_block
join_begin pid k =
    if opt_eq (k.pool pid).gid k.active
    then (if (k.pool pid).valid
        then (if (k.pool pid).state.zombi
            then join_zombie pid k
            else done (waiting, join_block pid k))
        else done (returned esrch none, k))
    else done (returned einval none, k)

abbrev pub is_childdeath : WakeEvent → Bool
is_childdeath e_none = false
is_childdeath e_childdeath = true
is_childdeath e_timer = false
is_childdeath e_itc = false
is_childdeath e_itc2 = false

-- `tk_join` after its `tk_yield`.
unfoldable pub join_resume : Kernel → Outcome (Status × ℕ)
join_resume k =
    if is_childdeath (k.pool k.active).wakeup_event
    then done (tk_ok, (k.pool k.active).retval)
    else exited 0x8002

-- `tk_msleep` up to its `tk_yield`; the clock is read in microseconds.
unfoldable pub msleep : ℕ → ℕ → Kernel → Kernel
msleep time_ms now_us k =
    let me = k.pool k.active in
    put_tcb k k.active
      (record me { wakeuptime = now_us + time_ms * 1000; state = record me.state { sleep = true } })

-- Whether the caller should yield afterwards.
unfoldable pub change_yields : ℕ → ℕ → Kernel → Bool
change_yields tid new_prio k =
    is_ready (k.pool tid).state
    && (if ltb (k.pool tid).prio new_prio then true else k.active == tid)

-- Append the thread to the row of its new priority.
unfoldable pub append_slot : ℕ → ℕ → Kernel → Kernel
append_slot tid p k =
    let n = (k.rr p).procs_at_prio in
    let k' = put_procs (put_slot k p n tid) p (inc16 n) in
    put_tcb k' tid (record (k'.pool tid) { prio = p; idx = n })

module _ (cfg : Tuning) where
  -- The tests of `tk_change_prio` that end in `tk_exit`.
  unfoldable pub change_error : ℕ → ℕ → Kernel → ℕ
  change_error tid new_prio k =
      bit_or
        (bit_or (if (k.pool tid).valid then 0 else tc_tcb_invalid)
          (if leb cfg.max_prio_levels new_prio then tc_max_prio_levels else 0))
        (if leb cfg.max_threads_at_prio (k.rr new_prio).procs_at_prio
          then tc_threads_at_prio
          else 0)

  unfoldable pub change_prio : ℕ → ℕ → Kernel → Outcome (Bool × Kernel)
  change_prio tid new_prio k =
      let old = k.pool tid in
      let moved = append_slot tid new_prio (remove_slot cfg old.prio old.idx k) in
      if change_error tid new_prio k == 0
      then (if old.prio == new_prio
          then done (false, k)
          else done (change_yields tid new_prio k, moved))
      else exited (change_error tid new_prio k)
