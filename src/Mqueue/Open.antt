-- ===== src/Mqueue/Open.antt =====
-- `mq_open` of src/mqueue.c. What the calls of `malloc` and `sem_init` return are arguments.
use tinker.Base.{
  ℕ, zero, suc, ◌+◌, ◌%◌, Bool, true, false, not, ◌&&◌, ◌||◌, List, [], ◌∷◌, length, ltb, ◌==◌,
  if◌then◌else◌, update, ℤ, pos, negsuc, Option, some, none,
}
use tinker.Kernel.State.{Outcome, done, assert_then, ◌>>=◌}
use tinker.Mqueue.State.{
  Attr, Mess, Box, QueueD, Oflags, Errno, e_nametoolong, e_inval, e_mfile, e_exist, e_nfile,
  e_noent, Queues, number_of_queues, number_of_files, create_only, qname_len, lock_pool,
  unlock_pool, set_errno, put_queue, put_file, once,
}
use tinker.Base.Names.{same_name}
use tinker.Mqueue.Transfer.{fail_after_post}

-- `errno = e`, then `sem_post`, which writes `errno` too.
abbrev pub fail_before_post : Queues → Errno → Queues
fail_before_post w e = unlock_pool (set_errno w e)

abbrev pub starts_with_slash : List ℕ → Bool
starts_with_slash [] = false
starts_with_slash (x ∷ s) = x == 47

-- The loop that seeks a place that is not taken, of `n` rounds: `i` and `j` where it ends.
unfoldable pub find_free : (n i j size : ℕ) → (ℕ → Bool) → ℕ × ℕ
find_free zero i j size taken = (i, j)
find_free (suc n) i j size taken =
    let rest = find_free n ((i + 1) % size) (j + 1) size taken in if taken i then rest else (i, j)

-- The loop that seeks a taken queue of that name, from `i` on.
unfoldable pub find_name : (n i : ℕ) → (ℕ → QueueD) → List ℕ → Option ℕ
find_name zero i pool name = none
find_name (suc n) i pool name =
    let rest = find_name n (i + 1) pool name in
    if (pool i).taken && same_name qname_len (pool i).mq_name name then some i else rest

-- What `malloc` and `sem_init` do in a call: whether there is memory for the array, what stands in it,
-- how many buffers there is memory for, what stands in these, and whether the semaphore is made.
pub record Supply : Type 0 where
  pub array_ok : Bool
  pub garbage : ℕ → Mess
  pub buffers : ℕ
  pub bytes : ℕ → ℕ → ℕ
  pub sem_ok : Bool

abbrev pub blank_mess : (ℕ → ℕ) → Mess
blank_mess bytes = record {
  buffer = bytes;
  msg_sz = 0;
  order = record { time = 0; prio = 0; in_order = 0 };
}

-- The loop over the messages of a new queue; `false` if a buffer is missing.
unfoldable pub fill : (n k : ℕ) → Supply → Box → Bool × Box
fill zero k s b = (true, b)
fill (suc n) k s b =
    let rest = fill n (k + 1) s (record b {
      mess_array = update b.mess_array k (blank_mess (s.bytes k));
      last_in_order = 0;
    }) in
    if ltb k s.buffers then rest else (false, b)

-- How the part of `mq_open` that creates ends: an error's -1, or `qId`.
pub data Made : Type 0 where
  refused : Queues → Made
  made : (qid : ℕ) → Queues → Made

-- The new queue, from the results of `malloc` on: `filled` is how the loop over the messages ends.
unfoldable pub furnish :
    (flags : Oflags) (a : Attr) (array_ok : Bool) (filled : Bool × Box) (sem_ok : Bool) (qid : ℕ)
    (q : QueueD)
    → Queues
    → Outcome Made
furnish flags a array_ok filled sem_ok qid q w =
    let q' = record q { mq_attr = a; box = filled.1 } in
    let fresh = record q' { box = record filled.1 { m_idx_in = 0; m_idx_out = 0 } } in
    if not array_ok
    then done (refused (fail_after_post (put_queue w qid (record q { mq_attr = a })) e_nfile))
    else if not filled.0
    then done (refused (fail_after_post (put_queue w qid q') e_nfile))
    else if flags.nonblock
    then done (made qid (put_queue w qid fresh))
    else assert_then sem_ok (done (made qid (put_queue w qid (record fresh { sem = some 0 }))))

-- The new queue of a name that no other has.
unfoldable pub make_queue :
    (name : List ℕ) (flags : Oflags) → Option Attr → Supply → (qid : ℕ) → Queues → Outcome Made
make_queue name flags attr s qid w =
    let q = record (w.queue_pool qid) { taken = true; mq_name = name } in
    elim attr [
      | none ↦ done (refused (set_errno (put_queue w qid q) e_inval))
      | some a ↦
          furnish flags a s.array_ok (fill a.maxmsg 0 s (record q.box { mess_array = s.garbage }))
            s.sem_ok qid q w
    ]

-- The branch of `O_CREAT`, after the loop that seeks a place ended at `i` and `j`.
unfoldable pub create_at :
    (name : List ℕ) (flags : Oflags) → Option Attr → Supply → Queues → (i j : ℕ) → Outcome Made
create_at name flags attr s w i j =
    let w' = put_queue w i (record (w.queue_pool i) { taken = true }) in
    if j == number_of_queues
    then done (refused (fail_before_post w e_mfile))
    else elim (find_name number_of_queues 0 w'.queue_pool name) [
      | some k ↦ done (refused (fail_after_post w' e_exist))
      | none ↦ make_queue name flags attr s j w'
    ]

-- The branch of `O_CREAT`.
unfoldable pub create_queue :
    (name : List ℕ) (flags : Oflags) → Option Attr → Supply → Queues → Outcome Made
create_queue name flags attr s w =
    let slot =
      find_free number_of_queues w.q_p_idx 0 number_of_queues (λ i. (w.queue_pool i).taken) in
    create_at name flags attr s w slot.0 slot.1

-- A descriptor for the queue `qid`, after the loop that seeks a place ended at `i` and `j`.
unfoldable pub file_at : (flags : Oflags) (self qid : ℕ) → Queues → (i j : ℕ) → ℤ × Queues
file_at flags self qid w i j =
    if j == number_of_files then (negsuc 0, fail_before_post w e_mfile) else (
      pos j,
      unlock_pool (put_file w i (record { taken = true; t_id = self; oflags = flags; q_id = qid })),
    )

unfoldable pub make_file : (flags : Oflags) (self qid : ℕ) → Queues → ℤ × Queues
make_file flags self qid w =
    let slot = find_free number_of_files w.f_p_idx 0 number_of_files (λ i. (w.file_pool i).taken) in
    file_at flags self qid w slot.0 slot.1

-- The part of `mq_open` that opens; `qid` is read only after `O_CREAT`.
unfoldable pub open_queue : (name : List ℕ) (flags : Oflags) (self qid : ℕ) → Queues → ℤ × Queues
open_queue name flags self qid w =
    if not (flags.rdonly || flags.wronly || flags.rdwr)
    then (pos create_only, unlock_pool w)
    else if flags.creat
    then make_file flags self qid w
    else elim (find_name number_of_queues 0 w.queue_pool name) [
      | none ↦ (negsuc 0, fail_after_post w e_noent)
      | some i ↦ make_file flags self i w
    ]

-- `mq_open` after the part that creates.
abbrev pub open_made : (name : List ℕ) (flags : Oflags) (self : ℕ) → Made → Outcome (ℤ × Queues)
open_made name flags self (refused w) = done (negsuc 0, w)
open_made name flags self (made qid w) = done (open_queue name flags self qid w)

-- `mq_open` under the lock of the pools.
unfoldable pub open_locked :
    (name : List ℕ) (flags : Oflags)
    → Option Attr
    → Supply
    → (self : ℕ) → Queues
    → Outcome (ℤ × Queues)
open_locked name flags attr s self w =
    if ltb qname_len (length name)
    then done (negsuc 0, fail_before_post w e_nametoolong)
    else if not (starts_with_slash name)
    then done (negsuc 0, fail_before_post w e_inval)
    else if flags.creat
    then create_queue name flags attr s w >>= open_made name flags self
    else done (open_queue name flags self 0 w)

unfoldable pub mq_open :
    (name : List ℕ) (flags : Oflags)
    → Option Attr
    → Supply
    → (self : ℕ) → Queues
    → Outcome (ℤ × Queues)
mq_open name flags attr s self w = lock_pool (once w) (open_locked name flags attr s self)
