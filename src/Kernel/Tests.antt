-- ===== src/Kernel/Tests.antt =====
-- Runs of the kernel of src/tk.c on a pool of four places, and the theorems at such states.
use tinker.Base.{
  ℕ, ◌<◌, ◌≡◌, ◌≢◌, refl, ◌⊎◌, inr, Bool, true, false, none, some, List, [], ◌∷◌, ltb, ◌==◌,
  if◌then◌else◌, arith,
}
use tinker.Kernel.State.{
  Tuning, Tcb, Kernel, ProcState, ready, zombi_only, null, bon_sched, e_none, done, tk_ok, Status,
}
use tinker.Kernel.Family.{detach}
use tinker.Kernel.Threads.{
  next_free, enter_thread, fresh_tcb, create_begin, create_finish, delete_thread,
}
use tinker.Kernel.Wait.{change_prio}
use tinker.Kernel.Dispatch.{scan_row, scan_levels, next_runable, yield, yield_event}
use tinker.Kernel.Boot.{delete_kernel, root_name, idle_name}
use tinker.Kernel.Rows.Defs.{IsSane, RowsOk, also, nobody}
use tinker.Kernel.Choice.{IsBest, NoneReady, next_runable-IsBest}
use tinker.Kernel.Keep.Delete.{IsListed, HasFamily, delete_thread-RowsOk}
use tinker.Kernel.Keep.Prio.{change_prio-RowsOk}
use tinker.Kernel.Keep.Free.{next_free_lem}
use tinker.Kernel.Keep.Create.{IsBegun, create_begin-IsBegun, create_finish-RowsOk}
use tinker.Kernel.Keep.Yield.{woken, NoZombies, yield-IsBest}
use tinker.Kernel.Rotation.{yield_event_again}
use tinker.Kernel.Flaws.{detach_keeps, delete_thread_moves_root, delete_kernel_keeps_idle}

abbrev cfg : Tuning
cfg = record {
  max_threads = 4;
  max_prio_levels = 3;
  max_threads_at_prio = 4;
  thread_name_len = 8;
  minimum_stack_size = 1;
}

cfg-IsSane : IsSane cfg
cfg-IsSane = record { threads = omega arith; levels = omega arith; short = omega arith }

-- The block in a free place.
abbrev free_tcb : Tcb
free_tcb = record {
  thid = 0;
  gid = some 0;
  no_childs = 0;
  name = [];
  valid = false;
  state = zombi_only;
  bon_kind = bon_sched;
  bon_entity = null;
  errno = tk_ok;
  stack_begin = none;
  stack_size = 0;
  wakeuptime = 0;
  wakeup_event = e_none;
  retval = 0;
  prio = 0;
  idx = 0;
}

abbrev sleeping : ProcState
sleeping = record ready { sleep = true }

-- The root thread at priority 0, the idle thread at 2, and between them its child 2 in the state `s`.
abbrev demo : ProcState → Kernel
demo s = record {
  pool = λ t.
      if t == 0
      then record free_tcb { valid = true; state = ready; no_childs = 1; name = root_name }
      else if t == 1
      then record free_tcb {
        thid = 1;
        gid = some 1;
        valid = true;
        state = ready;
        prio = 2;
        name = idle_name;
      }
      else if t == 2
      then record free_tcb { thid = 2; valid = true; state = s; prio = 1 }
      else free_tcb;
  schedule = λ p i. if i == 0 then (if p == 1 then 2 else if p == 2 then 1 else 0) else 0;
  rr = λ p.
      if ltb p 3
      then record { procs_at_prio = 1; curr_idx = 0 }
      else record { procs_at_prio = 0; curr_idx = 0 };
  active = 0;
  thread_to_run = 0;
  procs_in_use = 3;
  proc_idx = 2;
  idle_thid = 1;
  npreempt = 0;
  inpreempt = 0;
  outpreempt = 0;
  preemptlist = λ _. 0;
}

demo-RowsOk : (s : ProcState) → RowsOk cfg nobody (demo s)
demo-RowsOk s = record {
  root = 0;
  room = λ p h. ground arith;
  front = λ p h. ground arith;
  tail = λ p i h a b. ground arith;
  slot = λ q j a b. record {
    small = ground arith;
    is_valid = ground arith;
    own = ground arith;
    level = ground arith;
    listed = refl;
    place = λ n. ground arith;
    root_place = λ e. ground arith;
  };
  level = λ t a v o. ground arith;
  inside = λ t a v o n. ground arith;
  home = λ t a v o n. ground arith;
  root_valid = refl;
  root_listed = refl;
  root_inside = omega arith;
  root_home = refl;
}

-- Of the three ready threads the root thread runs.
choose_root : next_runable cfg (demo ready) ≡ done 0
unfolding next_runable scan_levels scan_row
choose_root = refl

demo-NoZombies : NoZombies cfg (demo sleeping)
demo-NoZombies s a v = ground arith

demo_two : (s : ProcState) → IsListed cfg nobody (demo s) 2
demo_two s = record { small = omega arith; live = refl; here = refl; other = ground arith }

demo_family : (s : ProcState) → HasFamily (demo s) 2
demo_family s =
    inr (0, refl, record { distinct = ground arith; live = refl; positive = omega arith })

next_runable-IsBest_example :
    (t : ℕ) × (next_runable cfg (demo ready) ≡ done t)
    × (IsBest cfg nobody (demo ready) t ⊎ ((t ≡ 1) × NoneReady cfg nobody (demo ready).pool))
next_runable-IsBest_example = next_runable-IsBest (demo ready) (demo-RowsOk ready)

yield-IsBest_example :
    (k' : Kernel) × (yield cfg 7 (demo sleeping) ≡ done k')
    × ((s : ℕ) → s < 4 → k'.pool s ≡ woken 7 ((demo sleeping).pool s))
    × RowsOk cfg nobody k'
    × (IsBest cfg nobody k' k'.active ⊎ ((k'.active ≡ 1) × NoneReady cfg nobody k'.pool))
yield-IsBest_example = yield-IsBest 7 (demo sleeping) (demo-RowsOk sleeping) demo-NoZombies refl

delete_thread-RowsOk_example :
    (k' : Kernel) × (delete_thread cfg 2 (demo zombi_only) ≡ done (tk_ok, k'))
    × RowsOk cfg nobody k'
    × ((true ≡ false) ⊎ ((k'.pool 2).valid ≡ false))
delete_thread-RowsOk_example =
    delete_thread-RowsOk (demo zombi_only) 2 cfg-IsSane (demo-RowsOk zombi_only)
      (demo_two zombi_only) (demo_family zombi_only)

change_prio-RowsOk_example :
    (y : Bool) × (k' : Kernel) × (change_prio cfg 2 0 (demo ready) ≡ done (y, k'))
    × RowsOk cfg nobody k'
    × ((k'.pool 2).prio ≡ 0)
    × ((s : ℕ) → s ≢ 2 → (k'.pool s).prio ≡ ((demo ready).pool s).prio)
change_prio-RowsOk_example =
    change_prio-RowsOk (demo ready) 2 0 cfg-IsSane (demo-RowsOk ready) (demo_two ready)
      (omega arith) (ground arith)

abbrev short_name : List ℕ
short_name = 0x41 ∷ []

create_begin-IsBegun_example :
    (t : ℕ) × (k' : Kernel) × (create_begin cfg short_name 1 0 (some 5) 9 (demo ready)
      ≡ done (t, k'))
    × IsBegun cfg nobody 1 t (demo ready) k'
create_begin-IsBegun_example =
    create_begin-IsBegun (demo ready) short_name 1 0 5 9 3 (demo-RowsOk ready) (omega arith)
      (omega arith) (omega arith) (ground arith) (omega arith) (omega arith) refl

-- The thread 3 has begun at priority 1.
abbrev begun : Kernel
begun = record (demo ready) {
  pool = λ t.
      if t == 3
      then record free_tcb { thid = 3; valid = true; state = ready; prio = 1 }
      else (demo ready).pool t;
  proc_idx = 3;
  procs_in_use = 4;
}

begun-RowsOk : RowsOk cfg (also 3 nobody) begun
begun-RowsOk = record {
  root = 0;
  room = λ p h. ground arith;
  front = λ p h. ground arith;
  tail = λ p i h a b. ground arith;
  slot = λ q j a b. record {
    small = ground arith;
    is_valid = ground arith;
    own = ground arith;
    level = ground arith;
    listed = ground arith;
    place = λ n. ground arith;
    root_place = λ e. ground arith;
  };
  level = λ t a v o. ground arith;
  inside = λ t a v o n. ground arith;
  home = λ t a v o n. ground arith;
  root_valid = refl;
  root_listed = refl;
  root_inside = omega arith;
  root_home = refl;
}

create_finish-RowsOk_example :
    RowsOk cfg nobody (create_finish 1 begun) × ((create_finish 1 begun).schedule 1 1 ≡ 3)
create_finish-RowsOk_example =
    create_finish-RowsOk begun 3 1 cfg-IsSane begun-RowsOk refl (omega arith, refl, refl, refl) refl
      (ground arith) (omega arith) (ground arith)

free_place_found :
    (t : ℕ) × (next_free cfg 4 (demo ready).pool 0 ≡ some t)
    × (t < 4)
    × (((demo ready).pool t).valid ≡ false)
free_place_found = next_free_lem cfg (demo ready).pool 0 3 (omega arith) (omega arith) refl

abbrev overlapped : Kernel
overlapped = enter_thread 3 (fresh_tcb (demo ready) 3 short_name 1 0 5 9) (demo ready)

-- A pool with another free place, in which a second creation begins.
abbrev wide : Tuning
wide = record cfg { max_threads = 5 }

abbrev begun_twice : Kernel
begun_twice = enter_thread 4 (fresh_tcb overlapped 4 short_name 2 0 6 9) overlapped

yields_root : yield_event cfg (demo ready) ≡ done (demo ready)
unfolding yield_event
yields_root = rw choose_root

demo_runs_again : yield_event cfg (demo ready) ≡ done (demo ready)
demo_runs_again = yield_event_again cfg (demo ready) yields_root

demo_stays_child :
    (s : Status) × (detach 2 (demo ready) ≡ done (s, demo ready))
    × (((demo ready).pool 2).gid ≡ none ⊎ (s ≢ tk_ok))
demo_stays_child = detach_keeps 2 (demo ready)

delete_thread_moves_root_example :
    (k' : Kernel) × (delete_thread cfg 2 (demo zombi_only) ≡ done (tk_ok, k'))
    × ((k'.pool 0).idx ≡ 0)
    × (k'.schedule 0 (demo-RowsOk zombi_only).root ≡ 0)
delete_thread_moves_root_example =
    delete_thread_moves_root (demo zombi_only) 2 (demo-RowsOk zombi_only) cfg-IsSane
      (demo_two zombi_only) refl (ground arith)

demo_keeps_idle :
    (k' : Kernel) × (delete_kernel cfg (demo ready) ≡ done (tk_ok, k'))
    × ((k'.pool 1).valid ≡ true)
    × ((k'.pool 1).state.zombi ≡ true)
demo_keeps_idle = delete_kernel_keeps_idle cfg (demo ready) refl refl refl refl
