-- ===== src/Kernel/Life/Tests.antt =====
-- A run of the kernel of src/tk.c from its start on, with a creation and a change of priority.
use tinker.Base.{ℕ, ◌+◌, ◌<◌, ◌≡◌, refl, ◌⊎◌, false, none, some, [], ◌∷◌, ltb, arith}
use tinker.Kernel.State.{
  ready, Tuning, Kernel, zombi_only, null, bon_sched, e_none, Outcome, done, exited, hangs, tk_ok,
}
use tinker.Kernel.Threads.{
  next_free, create_error, create_in, enter_thread, fresh_tcb, create_begin, create_finish,
}
use tinker.Kernel.Dispatch.{
  scan_row, scan_levels, next_runable, wake_sleeper, reap, wakeup_from, wakeup_timedout,
  take_preempted, yield, yield_event,
}
use tinker.Kernel.Boot.{create_thread, blank_kernel, adopt_idle, create_kernel}
use tinker.Kernel.Rows.Defs.{procs, IsSane, RowsOk, nobody}
use tinker.Kernel.Choice.{IsBest, NoneReady}
use tinker.Kernel.Keep.Boot.{IsColdStart, create_kernel-RowsOk}
use tinker.Kernel.Keep.Yield.{NoZombies}
use tinker.Kernel.Life.Steps.{Reaches, here, then_step, begins, finishes, yields, kernel_in_order}

abbrev cfg : Tuning
cfg = record {
  max_threads = 4;
  max_prio_levels = 3;
  max_threads_at_prio = 4;
  thread_name_len = 8;
  minimum_stack_size = 1;
}

cfg-IsSane : IsSane cfg
cfg-IsSane = record { threads = omega arith; levels = omega arith; short = omega arith }

-- The memory of the program before its start.
abbrev cold : Kernel
cold = record {
  pool = λ t. record {
    thid = 0;
    gid = some 0;
    no_childs = 0;
    name = [];
    valid = false;
    state = zombi_only;
    bon_kind = bon_sched;
    bon_entity = null;
    errno = tk_ok;
    stack_begin = none;
    stack_size = 0;
    wakeuptime = 0;
    wakeup_event = e_none;
    retval = 0;
    prio = 0;
    idx = 0;
  };
  schedule = λ p i. 0;
  rr = λ p. record { procs_at_prio = 0; curr_idx = 0 };
  active = 0;
  thread_to_run = 0;
  procs_in_use = 0;
  proc_idx = 0;
  idle_thid = 0;
  npreempt = 0;
  inpreempt = 0;
  outpreempt = 0;
  preemptlist = λ _. 0;
}

cold-IsColdStart : IsColdStart cfg cold
cold-IsColdStart = record {
  names = omega arith;
  places = omega arith;
  row = omega arith;
  active = refl;
  idle = refl;
  quiet = refl;
  root = refl;
}

create_kernel-RowsOk_example :
    (k' : Kernel) × (create_kernel cfg (some 64) 0 cold ≡ done k')
    × RowsOk cfg nobody k'
    × NoZombies cfg k'
    × (k'.npreempt ≡ 0)
    × (k'.active ≡ 0)
    × (k'.idle_thid ≡ 1)
    × ((k'.pool 1).prio + 1 ≡ 3)
    × ((k'.pool 1).gid ≡ some 1)
    × ((s : ℕ) → s < 4 → (k'.pool s).valid ≡ ltb s 2)
    × ((s : ℕ) → s < 2 → (k'.pool s).state ≡ ready)
create_kernel-RowsOk_example = create_kernel-RowsOk cfg 64 0 cold cfg-IsSane cold-IsColdStart

abbrev value_of : Kernel → Outcome Kernel → Kernel
value_of k (done m) = m
value_of k (exited c) = k
value_of k hangs = k

abbrev begun_of : Kernel → Outcome (ℕ × Kernel) → Kernel
begun_of k (done r) = r.1
begun_of k (exited c) = k
begun_of k hangs = k

-- The kernel after its start, in the first half of a creation, after the yield of the new thread, and
-- after the second half.
abbrev booted : Kernel
booted = value_of cold (create_kernel cfg (some 64) 0 cold)

abbrev begun : Kernel
begun = begun_of cold (create_begin cfg (0x61 ∷ []) 1 7 (some 128) 1 booted)

abbrev back : Kernel
back = value_of cold (yield cfg 10 begun)

booted-done : create_kernel cfg (some 64) 0 cold ≡ done booted
unfolding create_kernel create_thread create_begin create_error blank_kernel next_free create_in
    yield wakeup_timedout wakeup_from enter_thread reap wake_sleeper fresh_tcb take_preempted
    yield_event next_runable scan_levels scan_row adopt_idle create_finish
booted-done = refl

begun-done : create_begin cfg (0x61 ∷ []) 1 7 (some 128) 1 booted ≡ done (2, begun)
unfolding create_kernel create_thread create_begin create_error blank_kernel next_free create_in
    yield wakeup_timedout wakeup_from enter_thread reap wake_sleeper fresh_tcb take_preempted
    yield_event next_runable scan_levels scan_row adopt_idle create_finish
begun-done = refl

back-done : yield cfg 10 begun ≡ done back
unfolding create_kernel create_thread create_begin create_error blank_kernel next_free create_in
    yield wakeup_timedout wakeup_from enter_thread reap wake_sleeper fresh_tcb take_preempted
    yield_event next_runable scan_levels scan_row adopt_idle create_finish
back-done = refl

back-room : procs back 1 + 1 < 4
unfolding create_kernel create_thread create_begin create_error blank_kernel next_free create_in
    yield wakeup_timedout wakeup_from enter_thread reap wake_sleeper fresh_tcb take_preempted
    yield_event next_runable scan_levels scan_row adopt_idle create_finish
back-room = omega arith

run :
    Reaches cfg
      (record { kernel = booted; pending = none })
      (record { kernel = create_finish 1 back; pending = none })
run =
    then_step
      (then_step (then_step here (begins (0x61 ∷ []) 1 7 (some 128) 1 2 begun-done))
        (yields 10 back-done))
      (finishes 2 1 back-room)

kernel_in_order_example :
    RowsOk cfg nobody (create_finish 1 back)
    × (((create_finish 1 back).pool 0).state.zombi ≡ false)
    × (t : ℕ) × (next_runable cfg (create_finish 1 back) ≡ done t)
    × (IsBest cfg nobody (create_finish 1 back) t
        ⊎ ((t ≡ (create_finish 1 back).idle_thid)
            × NoneReady cfg nobody (create_finish 1 back).pool))
kernel_in_order_example = kernel_in_order cfg 64 0 cold cfg-IsSane cold-IsColdStart booted-done run
