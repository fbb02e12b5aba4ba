-- ===== src/Pthread/Mutex.antt =====
-- The mutexes of src/pthread_sync.c and src/pthread_mutex.c. A call that waits in `pthread_yield`
-- returns whether it does.
use tinker.Base.{
  ℕ, zero, suc, ◌+◌, ◌-◌, Bool, true, false, Option, none, some, update, ltb, ◌==◌, if◌then◌else◌,
}
use tinker.Kernel.State.{
  Tcb, Kernel, null, mutex, bon_sched, bon_pmutex, e_itc, Outcome, done, hangs, assert_then,
  put_tcb,
}

-- The field `owner`: NULL, a thread, or the mark 1 of a condition.
pub data Owner : Type 0 where
  nobody : Owner
  thread : ℕ → Owner
  mark : Owner

-- The fields `linkOf` and `link`: none, or the number of a condition.
abbrev pub Link : Type 0
Link = Option ℕ

-- `pthread_mutex_t_`: `blocked` is the array `blocked.thread`, and `numb` its length.
pub record Mutex : Type 0 where
  pub valid : Bool
  pub owner : Owner
  pub blocked : ℕ → ℕ
  pub numb : ℕ
  pub link : Link

-- The kernel with the mutexes; a mutex is a number.
pub record Sync : Type 0 where
  pub kernel : Kernel
  pub mutexes : ℕ → Mutex

abbrev pub put_mutex : Sync → ℕ → Mutex → Sync
put_mutex w id m = record w { mutexes = update w.mutexes id m }

abbrev pub is_nobody : Owner → Bool
is_nobody nobody = true
is_nobody (thread t) = false
is_nobody mark = false

-- The control block of a thread that waits for the mutex `id`, and that of one that does no more.
abbrev pub wait_tcb : ℕ → Tcb → Tcb
wait_tcb id b = record b {
  bon_kind = bon_pmutex;
  bon_entity = mutex id;
  state = record b.state { queue = true };
}

abbrev pub woken_tcb : Tcb → Tcb
woken_tcb b = record b {
  bon_kind = bon_sched;
  bon_entity = null;
  state = record b.state { queue = false };
  wakeup_event = e_itc;
}

-- `_mutex_lock_primitive`
unfoldable pub lock_primitive : ℕ → Sync → Bool × Sync
lock_primitive id w =
    let m = w.mutexes id in
    let me = w.kernel.active in
    let free = put_mutex w id (record m { owner = thread me; numb = 0 }) in
    let waiting =
      put_mutex (record w { kernel = put_tcb w.kernel me (wait_tcb id (w.kernel.pool me)) }) id
        (record m { link = none; blocked = update m.blocked m.numb me; numb = m.numb + 1 }) in
    if is_nobody m.owner then (false, free) else (true, waiting)

-- The loop that looks for the most urgent thread: `n` rounds left, from `i` on.
unfoldable pub most_urgent : (n i prio : ℕ) → Option ℕ → (ℕ → ℕ) → (ℕ → Tcb) → Option ℕ
most_urgent zero i prio j blocked pool = j
most_urgent (suc n) i prio j blocked pool =
    if ltb (pool (blocked i)).prio prio
    then most_urgent n (i + 1) (pool (blocked i)).prio (some i) blocked pool
    else most_urgent n (i + 1) prio j blocked pool

-- The loop that closes the gap: `n` rounds left, from `i` on.
unfoldable pub close_gap : (n i : ℕ) → (ℕ → ℕ) → ℕ → ℕ
close_gap zero i blocked = blocked
close_gap (suc n) i blocked = close_gap n (i + 1) (update blocked i (blocked (i + 1)))

-- The loop that wakes every waiting thread: `n` rounds left, from `i` on.
unfoldable pub wake_all : (n i : ℕ) → (ℕ → ℕ) → Kernel → Kernel
wake_all zero i blocked k = k
wake_all (suc n) i blocked k =
    wake_all n (i + 1) blocked (put_tcb k (blocked i) (woken_tcb (k.pool (blocked i))))

-- The thread at the position `j` becomes the owner.
unfoldable pub hand_over : (id j : ℕ) → Sync → Sync
unfolding close_gap
hand_over id j w =
    let m = w.mutexes id in
    let t = m.blocked j in
    put_mutex (record w { kernel = put_tcb w.kernel t (woken_tcb (w.kernel.pool t)) }) id
      (record m {
        owner = thread t;
        blocked = close_gap (m.numb - j) j m.blocked;
        numb = m.numb - 1;
      })

-- `_mutex_unlock_primitive`. If no waiting thread has a priority below `levels`, the position is not
-- set, and there is no result.
unfoldable pub unlock_primitive : (levels id : ℕ) → (bcast : Bool) → Sync → Outcome (Bool × Sync)
unlock_primitive levels id bcast w =
    let m = w.mutexes id in
    if is_nobody m.owner
    then assert_then (m.numb == 0) (done (false, w))
    else if m.numb == 0
    then done (false, put_mutex w id (record m { owner = nobody }))
    else if bcast
    then done (
      true,
      put_mutex (record w { kernel = wake_all m.numb 0 m.blocked w.kernel }) id
          (record m { numb = 0 }),
    )
    else elim (most_urgent m.numb 0 levels none m.blocked w.kernel.pool) [
      | none ↦ hangs
      | some j ↦ done (true, hand_over id j w)
    ]

-- `pthread_mutex_lock` and `pthread_mutex_unlock` up to their `pthread_yield`.
unfoldable pub mutex_lock : ℕ → Sync → Outcome (Bool × Sync)
mutex_lock id w = assert_then (w.mutexes id).valid (done (lock_primitive id w))

unfoldable pub mutex_unlock : (levels id : ℕ) → Sync → Outcome (Bool × Sync)
mutex_unlock levels id w = assert_then (w.mutexes id).valid (unlock_primitive levels id false w)
