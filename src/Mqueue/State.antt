-- ===== src/Mqueue/State.antt =====
-- The pools of src/mqueue.c and its start. A buffer is its bytes by their places; since a sort moves
-- whole messages, each place of a queue has a buffer of its own. A semaphore is the number of its
-- tokens: `sem_wait` of src/semaphore.c takes one, and `sem_post` gives one, as long as no thread
-- waits; both write `errno`. The semaphore of a queue is `none` before `sem_init`: a call on it goes
-- to some other object, and has no result here. A `mqd_t` is an `int`. The pools have 100 places.
use tinker.Base.{
  ℕ, ◌+◌, ◌-◌, Bool, true, false, List, [], Option, ltb, leb, ◌==◌, if◌then◌else◌, update,
}
use tinker.Kernel.State.{Outcome, hangs}

-- `struct mq_attr`
pub record Attr : Type 0 where
  pub msgsize : ℕ
  pub maxmsg : ℕ

-- `OrderT`
pub record Order : Type 0 where
  pub time : ℕ
  pub prio : ℕ
  pub in_order : ℕ

-- `MessT`
pub record Mess : Type 0 where
  pub buffer : ℕ → ℕ
  pub msg_sz : ℕ
  pub order : Order

-- `MBox`
pub record Box : Type 0 where
  pub m_idx_in : ℕ
  pub m_idx_out : ℕ
  pub mess_array : ℕ → Mess
  pub last_in_order : ℕ

-- The `mq_name` of a queue is what stands before its first 0, or its QNAME_LEN characters.
pub record QueueD : Type 0 where
  pub taken : Bool
  pub mq_name : List ℕ
  pub mq_attr : Attr
  pub box : Box
  pub sem : Option ℕ

-- The flags of `mq_open`, one bit each: include/sys/fcntl.h.
pub record Oflags : Type 0 where
  pub rdonly : Bool
  pub wronly : Bool
  pub rdwr : Bool
  pub creat : Bool
  pub nonblock : Bool

-- `FileD`; a thread is its number.
pub record FileD : Type 0 where
  pub taken : Bool
  pub t_id : ℕ
  pub oflags : Oflags
  pub q_id : ℕ

pub data Errno : Type 0 where
  err_ok e_nametoolong e_inval e_mfile e_exist e_nfile e_noent e_badf e_msgsize e_again : Errno

-- The globals; `started` tells whether `mq_once` has run.
pub record Queues : Type 0 where
  pub queue_pool : ℕ → QueueD
  pub q_p_idx : ℕ
  pub file_pool : ℕ → FileD
  pub f_p_idx : ℕ
  pub pool_access_sem : ℕ
  pub started : Bool
  pub errno : Errno

abbrev pub number_of_queues : ℕ
number_of_queues = 100

abbrev pub number_of_files : ℕ
number_of_files = 100

abbrev pub create_only : ℕ
create_only = 101

abbrev pub qname_len : ℕ
qname_len = 24

-- `NUMB_MESS`
unfoldable pub numb_mess : QueueD → ℕ
numb_mess q =
    if leb q.box.m_idx_out q.box.m_idx_in
    then q.box.m_idx_in - q.box.m_idx_out
    else q.mq_attr.maxmsg - q.box.m_idx_out + q.box.m_idx_in

-- `assert(sem_wait(&poolAccessSem) == 0)`, then the rest; without a token the caller waits, and no
-- other call gives it one.
abbrev pub lock_pool {ℓ} : {A : Type ℓ} → Queues → (Queues → Outcome A) → Outcome A
lock_pool w rest =
    if w.pool_access_sem == 0
    then hangs
    else rest (record w { pool_access_sem = w.pool_access_sem - 1; errno = err_ok })

-- `assert(sem_post(&poolAccessSem) == 0)`
abbrev pub unlock_pool : Queues → Queues
unlock_pool w = record w { pool_access_sem = w.pool_access_sem + 1; errno = err_ok }

abbrev pub set_errno : Queues → Errno → Queues
set_errno w e = record w { errno = e }

abbrev pub put_queue : Queues → ℕ → QueueD → Queues
put_queue w i q = record w { queue_pool = update w.queue_pool i q }

abbrev pub put_file : Queues → ℕ → FileD → Queues
put_file w i f = record w { file_pool = update w.file_pool i f }

-- `initialize`; the names of the free places are empty.
abbrev pub initialize : Queues → Queues
initialize w = record w {
  queue_pool = λ i.
      if ltb i number_of_queues
      then record (w.queue_pool i) { taken = false; mq_name = [] }
      else w.queue_pool i;
  file_pool = λ i.
      if ltb i number_of_files then record (w.file_pool i) { taken = false } else w.file_pool i;
  pool_access_sem = 1;
  errno = err_ok;
}

-- `pthread_once(&mq_once, initialize)`
abbrev pub once : Queues → Queues
once w = if w.started then w else record (initialize w) { started = true }
