-- ===== src/Pthread/Rwlock.antt =====
-- The locks of readers and writers of src/pthread_rwlock.c. A thread gives the processor away only in
-- the calls on the mutex and on the conditions, so that the code between two of these calls is one
-- function: from its state when such a call returns to its next one. The signals that it sends are a
-- list. `_PTHREAD_PRIOS` is the argument `prios`. The calls that only assert "Not implemented yet" are
-- left out.
use tinker.Base.{
  ℕ, zero, suc, ◌+◌, ◌-◌, Bool, not, ◌&&◌, ◌||◌, List, [], ◌∷◌, update, ltb, ◌==◌, if◌then◌else◌,
}
use tinker.Kernel.State.{Outcome, done, assert_then}

-- `pthread_rwlock_t_`, without the mutex and the conditions.
pub record Rwlock : Type 0 where
  pub readers_reading : ℕ
  pub writers_writing : ℕ
  pub blocked_writers : ℕ
  pub blocked_readers : ℕ
  pub bwriters_prio : ℕ → ℕ
  pub valid : Bool

pub data Signal : Type 0 where
  signal_readers signal_writers broadcast_readers : Signal

-- Where a thread stands: outside the lock, before it enters the queue of the readers, in
-- `pthread_cond_wait` as a reader (with its `blocked_writers_granted`) or as a writer, or inside.
pub data Place : Type 0 where
  outside : Place
  asked : (granted : ℕ) → Place
  waits_reading : (granted : ℕ) → Place
  waits_writing : Place
  reading writing : Place

-- The state after a section: the lock, the place of the thread, and its signals.
pub record Section : Type 0 where
  pub lock : Rwlock
  pub place : Place
  pub signals : List Signal

-- The sum of `bwriters_prio` from `prio` down to 0.
unfoldable pub granted_down : (prio : ℕ) → (ℕ → ℕ) → ℕ
granted_down zero writers = writers 0
granted_down (suc prio) writers = writers (suc prio) + granted_down prio writers

-- The sum of `n` entries of `bwriters_prio` from `prio` up.
unfoldable pub granted_up : (n prio : ℕ) → (ℕ → ℕ) → ℕ
granted_up zero prio writers = 0
granted_up (suc n) prio writers = writers prio + granted_up n (prio + 1) writers

-- The end of a reader's way to `pthread_cond_wait`.
unfoldable pub read_block : (granted : ℕ) → Rwlock → Section
read_block granted l = record {
  lock = record l { blocked_readers = l.blocked_readers + 1 };
  place = waits_reading granted;
  signals = [];
}

-- The test of the loop of `pthread_rwlock_rdlock`, and what follows it.
unfoldable pub read_enter : (granted : ℕ) → Rwlock → Section
read_enter granted l =
    let grants = not (granted == 0) in
    if not (not (l.writers_writing == 0) || grants)
    then record {
      lock = record l { readers_reading = l.readers_reading + 1 };
      place = reading;
      signals = [];
    }
    else if grants && l.writers_writing == 0 && l.readers_reading == 0
    then record { lock = l; place = asked granted; signals = signal_writers ∷ [] }
    else read_block granted l

-- `pthread_rwlock_rdlock` after it has the mutex.
unfoldable pub rdlock : (prio : ℕ) → Rwlock → Outcome Section
rdlock prio l =
    assert_then l.valid (
      done (read_enter (if l.blocked_writers == 0 then 0 else granted_down prio l.bwriters_prio) l))

-- `pthread_rwlock_rdlock` after `pthread_cond_wait`.
unfoldable pub read_wake : (prios prio granted : ℕ) → Rwlock → Section
read_wake prios prio granted l =
    let l' = record l { blocked_readers = l.blocked_readers - 1 } in
    read_enter
      (if l.blocked_writers == 0
        then 0
        else granted + granted_up (prios - prio) prio l.bwriters_prio)
      l'

-- The test of the loop of `pthread_rwlock_wrlock`, and what follows it.
unfoldable pub write_enter : (prio : ℕ) → Rwlock → Outcome Section
write_enter prio l =
    let w = l.bwriters_prio in
    if not (l.readers_reading == 0) || not (l.writers_writing == 0)
    then done (record {
      lock = record l {
        blocked_writers = l.blocked_writers + 1;
        bwriters_prio = update w prio (w prio + 1);
      };
      place = waits_writing;
      signals = [];
    })
    else assert_then (ltb (l.writers_writing + 1) 2) (
        done (record {
          lock = record l { writers_writing = l.writers_writing + 1 };
          place = writing;
          signals = [];
        }))

unfoldable pub wrlock : (prio : ℕ) → Rwlock → Outcome Section
wrlock prio l = assert_then l.valid (write_enter prio l)

-- `pthread_rwlock_wrlock` after `pthread_cond_wait`.
unfoldable pub write_wake : (prio : ℕ) → Rwlock → Outcome Section
write_wake prio l =
    let w = l.bwriters_prio in
    write_enter prio (record l {
      blocked_writers = l.blocked_writers - 1;
      bwriters_prio = update w prio (w prio - 1);
    })

-- The signals of a writer that leaves.
unfoldable pub write_signals : (prio : ℕ) → Rwlock → List Signal
write_signals prio l =
    if l.blocked_writers == 0
    then broadcast_readers ∷ []
    else if not (granted_down prio l.bwriters_prio == 0)
    then signal_writers ∷ []
    else if not (l.blocked_readers == 0)
    then broadcast_readers ∷ []
    else signal_writers ∷ []

-- `pthread_rwlock_unlock` after it has the mutex; without a reader or a writer inside it returns EINVAL
-- and changes nothing.
unfoldable pub rw_unlock : (prio : ℕ) → Rwlock → Outcome Section
rw_unlock prio l = assert_then l.valid (
    if l.readers_reading == 0 && l.writers_writing == 0
    then done (record { lock = l; place = outside; signals = [] })
    else assert_then (ltb l.writers_writing 2) (
        if not (l.writers_writing == 0)
        then done (record {
          lock = record l { writers_writing = 0 };
          place = outside;
          signals = write_signals prio l;
        })
        else done (record {
          lock = record l { readers_reading = l.readers_reading - 1 };
          place = outside;
          signals = signal_readers ∷ [];
        })))
