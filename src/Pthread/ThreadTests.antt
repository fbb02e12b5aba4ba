-- ===== src/Pthread/ThreadTests.antt =====
-- Threads of src/pthread_sched.c: a priority that is set and read, and two calls of pthread_once.
use tinker.Base.{
  ℕ, ◌<◌, ◌≡◌, ◌≢◌, refl, ◌⊎◌, ◌↔◌, true, false, none, some, [], ltb, ◌==◌, if◌then◌else◌, arith,
}
use tinker.Kernel.State.{
  Tuning, Tcb, Kernel, ready, zombi_only, null, bon_sched, e_none, done, tk_ok,
}
use tinker.Kernel.Boot.{root_name, idle_name}
use tinker.Kernel.Rows.Defs.{IsSane, RowsOk, nobody}
use tinker.Kernel.Keep.Delete.{IsListed}
use tinker.Pthread.Sched.{once_begin, setschedparam, getschedparam}
use tinker.Pthread.Params.{set_get_schedparam}
use tinker.Pthread.Once.{
  fresh, in_routine, back, has_run, OnceWorld, once_start, once_calls, OnceReaches, at_start,
  then_once, calls, once_runs_once, once_returns_early,
}

abbrev cfg : Tuning
cfg = record {
  max_threads = 4;
  max_prio_levels = 3;
  max_threads_at_prio = 4;
  thread_name_len = 8;
  minimum_stack_size = 1;
}

cfg-IsSane : IsSane cfg
cfg-IsSane = record { threads = omega arith; levels = omega arith; short = omega arith }

-- The block in a free place.
abbrev free_tcb : Tcb
free_tcb = record {
  thid = 0;
  gid = some 0;
  no_childs = 0;
  name = [];
  valid = false;
  state = zombi_only;
  bon_kind = bon_sched;
  bon_entity = null;
  errno = tk_ok;
  stack_begin = none;
  stack_size = 0;
  wakeuptime = 0;
  wakeup_event = e_none;
  retval = 0;
  prio = 0;
  idx = 0;
}

-- The root thread at priority 0, the idle thread at 2, and between them the thread 2.
abbrev three : Kernel
three = record {
  pool = λ t.
      if t == 0
      then record free_tcb { valid = true; state = ready; no_childs = 1; name = root_name }
      else if t == 1
      then record free_tcb {
        thid = 1;
        gid = some 1;
        valid = true;
        state = ready;
        prio = 2;
        name = idle_name;
      }
      else if t == 2
      then record free_tcb { thid = 2; valid = true; state = ready; prio = 1 }
      else free_tcb;
  schedule = λ p i. if i == 0 then (if p == 1 then 2 else if p == 2 then 1 else 0) else 0;
  rr = λ p.
      if ltb p 3
      then record { procs_at_prio = 1; curr_idx = 0 }
      else record { procs_at_prio = 0; curr_idx = 0 };
  active = 0;
  thread_to_run = 0;
  procs_in_use = 3;
  proc_idx = 2;
  idle_thid = 1;
  npreempt = 0;
  inpreempt = 0;
  outpreempt = 0;
  preemptlist = λ _. 0;
}

three-RowsOk : RowsOk cfg nobody three
three-RowsOk = record {
  root = 0;
  room = λ p h. ground arith;
  front = λ p h. ground arith;
  tail = λ p i h a b. ground arith;
  slot = λ q j a b. record {
    small = ground arith;
    is_valid = ground arith;
    own = ground arith;
    level = ground arith;
    listed = refl;
    place = λ n. ground arith;
    root_place = λ e. ground arith;
  };
  level = λ t a v o. ground arith;
  inside = λ t a v o n. ground arith;
  home = λ t a v o n. ground arith;
  root_valid = refl;
  root_listed = refl;
  root_inside = omega arith;
  root_home = refl;
}

three-IsListed : IsListed cfg nobody three 2
three-IsListed = record { small = omega arith; live = refl; here = refl; other = omega arith }

set_get_schedparam_example :
    (k' : Kernel) × (setschedparam cfg 2 2 5 three ≡ done k')
    × (getschedparam cfg 2 k' ≡ 2)
    × ((s : ℕ) → s < 4 → s ≢ 2 → getschedparam cfg s k' ≡ getschedparam cfg s three)
    × RowsOk cfg nobody k'
set_get_schedparam_example =
    set_get_schedparam cfg 2 2 5 three cfg-IsSane three-RowsOk (λ s a v. ground arith) refl
      three-IsListed (omega arith) (omega arith)

-- The thread 3 runs the routine.
abbrev one_call : OnceWorld
one_call = once_calls 3 once_start

one_call-Reaches : OnceReaches one_call
one_call-Reaches = then_once at_start (calls 3 refl)

runs : one_call.places 3 ≡ in_routine
unfolding once_calls once_begin
runs = refl

waits : one_call.places 5 ≡ fresh
unfolding once_calls once_begin
waits = refl

once_runs_once_example :
    ((t : ℕ) → one_call.places t ≡ fresh)
    ⊎ ((o : ℕ) × (has_run (one_call.places o) ≡ true)
        × ((t : ℕ) → t ≢ o → has_run (one_call.places t) ≡ false)
        × ((one_call.control.finished ≡ true) ↔ (one_call.places o ≡ back true)))
once_runs_once_example = once_runs_once one_call one_call-Reaches

early_return :
    ((once_calls 5 one_call).places 5 ≡ back false)
    × ((once_calls 5 one_call).places 3 ≡ in_routine)
    × ((once_calls 5 one_call).control.finished ≡ false)
early_return = once_returns_early one_call 3 5 one_call-Reaches runs waits
