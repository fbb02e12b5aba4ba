-- ===== src/Pthread/Tests.antt =====
-- A mutex for which two threads wait.
use tinker.Base.{
  ℕ, ◌+◌, ◌≤◌, ◌<◌, ◌≡◌, ◌≢◌, refl, true, false, none, some, [], ◌∷◌, ◌==◌, if◌then◌else◌, arith,
}
use tinker.Kernel.State.{Tcb, ready, bon_pmutex, mutex, e_none, done, tk_ok}
use tinker.Pthread.Mutex.{nobody, thread, Sync, woken_tcb, most_urgent, unlock_primitive}
use tinker.Pthread.Broadcast.{unlock_primitive_bcast}
use tinker.Pthread.Handover.{IsFirstBest, unlock_primitive_lem}
use tinker.Pthread.Rwlock.{
  outside, waits_reading, reading, writing, signal_readers, Section, rdlock, read_enter, read_block,
  write_enter, wrlock, rw_unlock,
}
use tinker.Pthread.Crowd.{Crowd, after, reads, writes, here, then_step, new_world}
use tinker.Pthread.Exclusive.{writer_alone}

-- The thread `t` has the priority 1, but 6 has the priority 0.
abbrev waiting_tcb : ℕ → Tcb
waiting_tcb t = record {
  thid = t;
  gid = some 0;
  no_childs = 0;
  name = [];
  valid = true;
  state = record ready { queue = true };
  bon_kind = bon_pmutex;
  bon_entity = mutex 3;
  errno = tk_ok;
  stack_begin = some 1;
  stack_size = 8;
  wakeuptime = 0;
  wakeup_event = e_none;
  retval = 0;
  prio = if t == 6 then 0 else 1;
  idx = t;
}

-- The threads 5 and 6 wait for the mutex 3, which 4 owns.
abbrev demo : Sync
demo = record {
  kernel = record {
    pool = waiting_tcb;
    schedule = λ _ _. 0;
    rr = λ _. record { procs_at_prio = 0; curr_idx = 0 };
    active = 4;
    thread_to_run = 0;
    procs_in_use = 0;
    proc_idx = 0;
    idle_thid = 0;
    npreempt = 0;
    inpreempt = 0;
    outpreempt = 0;
    preemptlist = λ _. 0;
  };
  mutexes = λ id. record {
    valid = true;
    owner = if id == 3 then thread 4 else nobody;
    blocked = λ i. i + 5;
    numb = if id == 3 then 2 else 0;
    link = none;
  };
}

-- 6 is more urgent than 5.
six_first : most_urgent 2 0 5 none (λ i. i + 5) waiting_tcb ≡ some 1
unfolding most_urgent
six_first = refl

unlock_primitive_lem_example :
    (j : ℕ) × (w' : Sync) × (unlock_primitive 5 3 false demo ≡ done (true, w'))
    × IsFirstBest (λ i. i + 5) waiting_tcb 0 2 j
    × ((w'.mutexes 3).owner ≡ thread (j + 5))
    × ((w'.mutexes 3).numb + 1 ≡ 2)
    × ((i : ℕ) → i < j → (w'.mutexes 3).blocked i ≡ i + 5)
    × ((i : ℕ) → j ≤ i → i + 1 < 2 → (w'.mutexes 3).blocked i ≡ i + 1 + 5)
    × (w'.kernel.pool (j + 5) ≡ woken_tcb (waiting_tcb (j + 5)))
    × ((t : ℕ) → t ≢ j + 5 → w'.kernel.pool t ≡ waiting_tcb t)
unlock_primitive_lem_example = unlock_primitive_lem 5 3 0 demo refl (omega arith) (omega arith)

unlock_primitive_bcast_example :
    (w' : Sync) × (unlock_primitive 5 3 true demo ≡ done (true, w'))
    × ((w'.mutexes 3).numb ≡ 0)
    × ((w'.mutexes 3).owner ≡ thread 4)
    × ((s : ℕ) → s < 2 → w'.kernel.pool (s + 5) ≡ woken_tcb (waiting_tcb (s + 5)))
    × ((t : ℕ) → ((s : ℕ) → s < 2 → s + 5 ≢ t) → w'.kernel.pool t ≡ waiting_tcb t)
unlock_primitive_bcast_example = unlock_primitive_bcast 5 3 demo refl (omega arith)

-- Thread 0 writes, and thread 1, which comes as a reader, waits.
abbrev writer_in : Crowd
writer_in =
    after new_world 0 (record {
      lock = record new_world.lock { writers_writing = 1 };
      place = writing;
      signals = [];
    })

abbrev reader_waits : Crowd
reader_waits = after writer_in 1 (record {
  lock = record writer_in.lock { blocked_readers = 1 };
  place = waits_reading 0;
  signals = [];
})

writer_comes :
    wrlock 2 new_world.lock
    ≡ done (record {
      lock = record new_world.lock { writers_writing = 1 };
      place = writing;
      signals = [];
    })
unfolding wrlock write_enter
writer_comes = refl

reader_comes :
    rdlock 2 writer_in.lock
    ≡ done (record {
      lock = record writer_in.lock { blocked_readers = 1 };
      place = waits_reading 0;
      signals = [];
    })
unfolding rdlock read_enter read_block
reader_comes = refl

writer_alone_example :
    (reader_waits.places 1 ≢ reading)
    × (reader_waits.places 1 ≢ writing)
    × ((s : Section) × (rw_unlock 2 reader_waits.lock ≡ done s))
writer_alone_example =
    writer_alone 5 2 (λ i. 2) reader_waits 0 1
      (then_step (then_step here (writes 0 _ (omega arith) refl writer_comes))
        (reads 1 _ (omega arith) refl reader_comes))
      (omega arith) (omega arith) (λ e. omega arith) refl

-- The last reader that leaves tells the readers, though only a writer waits.
last_reader_leaves :
    rw_unlock 2 (record new_world.lock { readers_reading = 1; blocked_writers = 1 })
    ≡ done (record {
      lock = record new_world.lock { blocked_writers = 1 };
      place = outside;
      signals = signal_readers ∷ [];
    })
unfolding rw_unlock
last_reader_leaves = refl
