-- ===== src/Itc/Tests.antt =====
-- The objects of src/tk_itc.c at small states.
use tinker.Base.{
  ℕ, ◌+◌, ◌<◌, ◌≡◌, ◌≢◌, ◌⊎◌, refl, true, false, Option, none, some, [], ◌∷◌, ◌==◌, if◌then◌else◌,
  arith, pos, negsuc, is_pos,
}
use tinker.Kernel.State.{
  Tcb, ready, bon_sched, null, e_none, done, hangs, tk_ok, err_full, err_blocklimit,
}
use tinker.Itc.State.{IpcFlags, Words, sem, s_queue, v_queue, Itc, World, put_itc}
use tinker.Itc.Shared.{remove_blocked, shift_blocked}
use tinker.Itc.Stages.{returned, waiting, unblocked, lock_begin, unlock_begin}
use tinker.Itc.Queue.{q_send, q_sent, q_receive, q_received, q_vsend}
use tinker.Itc.Direct.{sm_p_ny, sm_p_ny_returns}
use tinker.Itc.Stages.{enter_ring}
use tinker.Kernel.State.{Tuning, default_tuning}
use tinker.Itc.Ring.{waiter, IsRing}
use tinker.Itc.Removal.{IsRemoved, remove_blocked-IsRemoved}
use tinker.Itc.Exchange.{lock_begin_lem, unlock_begin_fifo}
use tinker.Itc.Posix.{sem_with, sem_wait, sem_post, sem_done, post_wait}
use tinker.Itc.Messages.{q_send_lem, q_receive_lem, q_vsend_elsewhere}
use tinker.Itc.Idle.{message, IsQueue}

abbrev no_flags : IpcFlags
no_flags = record { global = false; prior = false; nolimit = false; nowait = false }

-- A semaphore at which the threads 5, 6 and 7 wait, in a ring of four places that begins at 3.
abbrev demo_ring : Itc
demo_ring = record {
  token = negsuc 2;
  flags = no_flags;
  sizeof_q = 0;
  max_sizeof_m = 0;
  b_type = sem;
  blocked_procs =
      λ i. if i == 3 then some 5 else if i == 0 then some 6 else if i == 1 then some 7 else none;
  in_idx = 2;
  out_idx = 3;
  min_idx = 0;
  mout_idx = 0;
  q = λ i. (0, 0, 0, 0);
  qv = λ i. record { mb = none; s = 0 };
}

demo_ring-IsRing : IsRing 4 demo_ring 3
demo_ring-IsRing = record {
  out_small = omega arith;
  few = omega arith;
  end = refl;
  owed = λ h. refl;
  owns = λ e. absurd (omega arith);
}

demo_removed : (q' : Itc) × (remove_blocked 4 0 demo_ring ≡ some q')
unfolding remove_blocked shift_blocked
demo_removed = (_, refl)

-- The thread 6 stops waiting.
remove_blocked-IsRemoved_example :
    (q' : Itc) × (remove_blocked 4 0 demo_ring ≡ some q') × IsRemoved 4 demo_ring 2 1 q'
remove_blocked-IsRemoved_example =
    remove_blocked-IsRemoved 4 demo_ring 2 1 demo_ring-IsRing (omega arith)

abbrev waiting_tcb : ℕ → Tcb
waiting_tcb t = record {
  thid = t;
  gid = some 0;
  no_childs = 0;
  name = [];
  valid = true;
  state = record ready { queue = true };
  bon_kind = bon_sched;
  bon_entity = null;
  errno = tk_ok;
  stack_begin = some 1;
  stack_size = 8;
  wakeuptime = 0;
  wakeup_event = e_none;
  retval = 0;
  prio = 1;
  idx = t;
}

-- The object `q` has the number 1, and a fresh queue of messages the number 2.
abbrev demo : Itc → Itc → World
demo q last = record {
  kernel = record {
    pool = waiting_tcb;
    schedule = λ _ _. 0;
    rr = λ _. record { procs_at_prio = 0; curr_idx = 0 };
    active = 8;
    thread_to_run = 0;
    procs_in_use = 0;
    proc_idx = 0;
    idle_thid = 0;
    npreempt = 0;
    inpreempt = 0;
    outpreempt = 0;
    preemptlist = λ _. 0;
  };
  itc_array = λ i. if i == 1 then some q else if i == 2 then some last else none;
  itc_idx = 2;
}

-- A semaphore at which the thread 5 waits.
abbrev one_waits : Itc
one_waits = record demo_ring { token = negsuc 0; in_idx = 0 }

one_waits-IsRing : IsRing 4 one_waits 1
one_waits-IsRing = record {
  out_small = omega arith;
  few = omega arith;
  end = refl;
  owed = λ h. refl;
  owns = λ e. absurd (omega arith);
}

lock_begin_lem_example :
    ((is_pos one_waits.token ≡ true)
      × (lock_begin 4 1 0 9 (demo one_waits one_waits)
          ≡ done (
            returned tk_ok,
            put_itc (demo one_waits one_waits) 1 (record one_waits { token = negsuc 1 }),
          )))
    ⊎ ((is_pos one_waits.token ≡ false)
        × (2 < 4)
        × (mark : Option ℕ) × (w' : World) × (q' : Itc) × (lock_begin 4 1 0 9
              (demo one_waits one_waits)
            ≡ done (waiting mark, w'))
        × (w'.itc_array 1 ≡ some q')
        × IsRing 4 q' 2
        × (waiter 4 q' 1 ≡ some 8)
        × ((j : ℕ) → j < 1 → waiter 4 q' j ≡ waiter 4 one_waits j)
        × ((w'.kernel.pool 8).state.queue ≡ true))
    ⊎ ((is_pos one_waits.token ≡ false)
        × ◌≡◌ {A = ℕ} 2 4
        × (lock_begin 4 1 0 9 (demo one_waits one_waits)
            ≡ done (returned err_blocklimit, demo one_waits one_waits)))
lock_begin_lem_example =
    lock_begin_lem 4 1 0 9 (demo one_waits one_waits) one_waits 1 refl one_waits-IsRing

unlock_begin_fifo_example :
    (w' : World) × (q' : Itc) × (unlock_begin 4 5 1 (demo demo_ring demo_ring)
      ≡ done (waiting none, w'))
    × (w'.itc_array 1 ≡ some q')
    × IsRing 4 q' 2
    × ((j : ℕ) → waiter 4 q' j ≡ waiter 4 demo_ring (j + 1))
    × (w'.kernel.pool 5 ≡ unblocked (waiting_tcb 5))
    × ((s : ℕ) → s ≢ 5 → w'.kernel.pool s ≡ waiting_tcb s)
unlock_begin_fifo_example =
    unlock_begin_fifo 4 5 1 (demo demo_ring demo_ring) demo_ring 2 5 refl demo_ring-IsRing refl refl
      refl

-- A queue of three places with one message.
abbrev demo_queue : Itc
demo_queue = record demo_ring {
  token = pos 1;
  sizeof_q = 3;
  b_type = s_queue;
  in_idx = 3;
  min_idx = 0;
  mout_idx = 2;
  q = λ i. (i, 0, 0, 0);
}

demo_queue-IsQueue : IsQueue demo_queue 1
demo_queue-IsQueue = record {
  kind = refl;
  token = refl;
  fits = omega arith;
  first = omega arith;
  last = refl;
  nobody = refl;
}

abbrev hello : Words
hello = (1, 2, 3, 4)

q_send_lem_example :
    ((1 < demo_queue.sizeof_q)
      × (w' : World) × (q' : Itc) × (q_send 4 5 1 hello (demo demo_queue demo_ring)
          ≡ done (returned tk_ok, w'))
      × (q_sent 4 1 tk_ok w' ≡ done (tk_ok, w'))
      × (w'.itc_array 1 ≡ some q')
      × IsQueue q' 2
      × (message q' 1 ≡ hello)
      × ((j : ℕ) → j < 1 → message q' j ≡ message demo_queue j))
    ⊎ (◌≡◌ {A = ℕ} 1 demo_queue.sizeof_q
        × (q_send 4 5 1 hello (demo demo_queue demo_ring)
            ≡ done (returned err_full, demo demo_queue demo_ring)))
q_send_lem_example =
    q_send_lem 4 5 1 hello (demo demo_queue demo_ring) demo_queue 1 refl demo_queue-IsQueue

q_receive_lem_example :
    (w1 : World) × (w' : World) × (q' : Itc) × (q_receive 4 1 no_flags 0 9
        (demo demo_queue demo_ring)
      ≡ done (returned tk_ok, w1))
    × (q_received 4 1 tk_ok w1 ≡ done (tk_ok, some (2, 0, 0, 0), w'))
    × (w'.itc_array 1 ≡ some q')
    × IsQueue q' 0
    × ((j : ℕ) → message q' j ≡ message demo_queue (j + 1))
q_receive_lem_example =
    q_receive_lem 4 1 0 9 no_flags (demo demo_queue demo_ring) demo_queue 0 refl demo_queue-IsQueue

abbrev demo_vqueue : Itc
demo_vqueue = record demo_queue { token = pos 0; max_sizeof_m = 80; b_type = v_queue }

vsend_elsewhere_run : q_vsend 4 5 1 true (65 ∷ 0 ∷ []) 1 (demo demo_vqueue demo_vqueue) ≡ hangs
vsend_elsewhere_run =
    q_vsend_elsewhere 4 5 1 (65 ∷ 0 ∷ []) 1 (demo demo_vqueue demo_vqueue) demo_vqueue demo_vqueue
      refl refl refl refl (ground arith) refl refl

abbrev cfg : Tuning
cfg = default_tuning

-- A semaphore that has no token and nobody waiting.
abbrev empty_sem : Itc
empty_sem = record demo_ring { token = pos 0; in_idx = 3 }

empty_sm_returns :
    (w' : World) × (sm_p_ny 4 1 no_flags 0 9 (demo empty_sem demo_ring) ≡ done (tk_ok, w'))
    × (w'.itc_array 1 ≡ some (enter_ring 4 8 empty_sem))
    × ((w'.kernel.pool 8).state.queue ≡ true)
empty_sm_returns =
    sm_p_ny_returns 4 1 9 no_flags (demo empty_sem demo_ring) empty_sem refl refl refl refl refl

-- A token from a handler, taken by a thread.
post_wait_example :
    (w' : World) × (sem_post true cfg (λ t. t) 4 5 1 (demo empty_sem demo_ring)
      ≡ done (sem_done, w'))
    × (w'.itc_array 1 ≡ some (sem_with empty_sem 1))
    × (sem_wait false 4 1 9 w' ≡ done (sem_done, put_itc w' 1 (sem_with empty_sem 0)))
post_wait_example =
    post_wait true false cfg (λ t. t) 4 5 1 9 0 empty_sem (demo empty_sem demo_ring) refl
