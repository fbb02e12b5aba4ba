-- ===== src/Mqueue/Transfer.antt =====
-- `mq_send` and `mq_receive` of src/mqueue.c. `mq_receive` may wait for a message, so that it is two
-- functions: up to the wait, and after it.
use tinker.Base.{
  ℕ, zero, suc, ◌+◌, ◌%◌, Bool, false, not, ◌&&◌, ◌||◌, ltb, leb, ◌==◌, if◌then◌else◌, update, ℤ,
  pos, negsuc, Option, some, none,
}
use tinker.Kernel.State.{Outcome, done, hangs, ◌>>=◌}
use tinker.Mqueue.State.{
  Mess, QueueD, Errno, err_ok, e_badf, e_msgsize, e_again, Queues, number_of_files, numb_mess,
  lock_pool, unlock_pool, set_errno, put_queue, once,
}
use tinker.Mqueue.Sort.{sort_by_prio}

-- `memcpy(dst, src, n)`
abbrev pub memcpy : (dst src : ℕ → ℕ) (n : ℕ) → ℕ → ℕ
memcpy dst src n k = if ltb k n then src k else dst k

abbrev pub is_open : Queues → (self : ℕ) → ℤ → Bool
is_open w self (negsuc n) = false
is_open w self (pos mq) =
    ltb mq number_of_files && (w.file_pool mq).taken && (w.file_pool mq).t_id == self

abbrev pub file_of : ℤ → ℕ
file_of (pos mq) = mq
file_of (negsuc n) = 0

-- `sem_post`, then `errno = e; return (-1)`.
abbrev pub fail_after_post : Queues → Errno → Queues
fail_after_post w e = set_errno (unlock_pool w) e

-- `x - 1` in a `size_t` of 32 bits
abbrev pub size_pred : ℕ → ℕ
size_pred n = (n + 4294967295) % 4294967296

-- The tests of `mq_send`, in their order.
unfoldable pub send_error : Queues → (self : ℕ) → ℤ → (msglen : ℕ) → Option Errno
send_error w self mq msglen =
    let f = w.file_pool (file_of mq) in
    let q = w.queue_pool f.q_id in
    if not (is_open w self mq)
    then some e_badf
    else if not (f.oflags.wronly || f.oflags.rdwr)
    then some e_badf
    else if not q.taken
    then some e_badf
    else if not (leb msglen q.mq_attr.msgsize)
    then some e_msgsize
    else if not (ltb (numb_mess q) (size_pred q.mq_attr.maxmsg))
    then some e_again
    else none

-- The message written at `mIdxIn`, and the step of `mIdxIn`.
unfoldable pub enqueue : (now : ℕ) (msg : ℕ → ℕ) (msglen msgprio : ℕ) → QueueD → QueueD
enqueue now msg msglen msgprio q =
    let i = q.box.m_idx_in in
    let m = q.box.mess_array i in
    record q {
      box = record q.box {
        mess_array = update q.box.mess_array i (record {
          buffer = memcpy m.buffer msg msglen;
          msg_sz = msglen;
          order = record { time = now; prio = msgprio; in_order = q.box.last_in_order };
        });
        last_in_order = (q.box.last_in_order + 1) % 4294967296;
        m_idx_in = (i + 1) % q.mq_attr.maxmsg;
      };
    }

-- `mq_send` under the lock of the pools.
unfoldable pub send_locked :
    (before : Mess) (fresh : Option (ℕ → Mess)) (self now : ℕ)
    → ℤ
    → (msg : ℕ → ℕ) (msglen msgprio : ℕ) → Queues
    → Outcome (ℤ × Queues)
send_locked before fresh self now mq msg msglen msgprio w =
    let qid = (w.file_pool (file_of mq)).q_id in
    elim (send_error w self mq msglen) [
      | some e ↦ done (negsuc 0, fail_after_post w e)
      | none ↦
          sort_by_prio before fresh (enqueue now msg msglen msgprio (w.queue_pool qid)) >>= λ q.
          elim q.sem [
            | none ↦ hangs
            | some n ↦ done (pos 0, unlock_pool (put_queue w qid (record q { sem = some (n + 1) })))
          ]
    ]

unfoldable pub mq_send :
    (before : Mess) (fresh : Option (ℕ → Mess)) (self now : ℕ)
    → ℤ
    → (msg : ℕ → ℕ) (msglen msgprio : ℕ) → Queues
    → Outcome (ℤ × Queues)
mq_send before fresh self now mq msg msglen msgprio w =
    lock_pool (once w) (send_locked before fresh self now mq msg msglen msgprio)

-- The tests of `mq_receive`, in their order.
unfoldable pub receive_error : Queues → (self : ℕ) → ℤ → (buflen : ℕ) → Option Errno
receive_error w self mq buflen =
    let f = w.file_pool (file_of mq) in
    let q = w.queue_pool f.q_id in
    if not (is_open w self mq)
    then some e_badf
    else if not (f.oflags.rdonly || f.oflags.rdwr)
    then some e_badf
    else if not q.taken
    then some e_badf
    else if not (leb q.mq_attr.msgsize buflen)
    then some e_msgsize
    else if numb_mess q == 0 && f.oflags.nonblock
    then some e_again
    else none

-- `mq_receive` under the lock of the pools: an error's -1, or the queue.
unfoldable pub receive_locked : (self : ℕ) → ℤ → (buflen : ℕ) → Queues → Outcome (Option ℕ × Queues)
receive_locked self mq buflen w = elim (receive_error w self mq buflen) [
  | some e ↦ done (none, fail_after_post w e)
  | none ↦ done (some (w.file_pool (file_of mq)).q_id, unlock_pool w)
]

-- `mq_receive` up to its wait at the semaphore of the queue.
unfoldable pub receive_begin : (self : ℕ) → ℤ → (buflen : ℕ) → Queues → Outcome (Option ℕ × Queues)
receive_begin self mq buflen w = lock_pool (once w) (receive_locked self mq buflen)

-- What a receiver has: the bytes of its buffer, `*msgprio`, and the size that is returned.
pub record Received : Type 0 where
  pub bytes : ℕ → ℕ
  pub msgprio : ℕ
  pub size : ℕ

-- The message taken at `mIdxOut`, and the step of `mIdxOut`.
unfoldable pub dequeue : (buffer : ℕ → ℕ) → QueueD → Received × QueueD
dequeue buffer q =
    let m = q.box.mess_array q.box.m_idx_out in
    (
      record {
        bytes = memcpy buffer m.buffer m.msg_sz;
        msgprio = (q.box.mess_array q.box.m_idx_in).order.prio;
        size = m.msg_sz;
      },
      record q { box = record q.box { m_idx_out = (q.box.m_idx_out + 1) % q.mq_attr.maxmsg } },
    )

-- `mq_receive` from its wait on: `none` while the semaphore has no token.
unfoldable pub receive_end :
    (qid : ℕ) (buffer : ℕ → ℕ) → Queues → Outcome (Option (Received × Queues))
receive_end qid buffer w =
    let q = w.queue_pool qid in
    elim q.sem [
      | none ↦ hangs
      | some zero ↦ done none
      | some (suc n) ↦
          let got = dequeue buffer (record q { sem = some n }) in
          done (some (got.0, set_errno (put_queue w qid got.1) err_ok))
    ]

-- `mq_close`, which keeps the queue and the descriptor; `mq_getattr` and `mq_setattr` have the same body.
unfoldable pub mq_close : Queues → Outcome (ℤ × Queues)
mq_close w = lock_pool (once w) (λ v. done (pos 0, unlock_pool v))
