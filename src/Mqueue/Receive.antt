-- ===== src/Mqueue/Receive.antt =====
-- What `mq_receive` of src/mqueue.c does to a queue, and what it gives back of a message sent.
use tinker.Base.{
  ℕ, zero, suc, ◌+◌, ◌%◌, ◌<◌, ◌≡◌, refl, ap, ◌∙◌, true, update, ℤ, Option, some, none, arith,
}
use tinker.Kernel.State.{Outcome, done, hangs}
use tinker.Itc.Ring.{place, place_shift}
use tinker.Mqueue.State.{Mess, QueueD, err_ok, Queues, numb_mess, set_errno, put_queue}
use tinker.Mqueue.Places.{QueueOk, start, step_split, nth}
use tinker.Mqueue.Transfer.{
  memcpy, file_of, receive_error, receive_locked, receive_begin, Received, dequeue, receive_end,
}
use tinker.Mqueue.Send.{queue_of}
use tinker.Mqueue.Enqueue.{locked, lock_pool-once, unlock_pool-locked}

-- The state after a message has left the queue `qid`, which has `n` tokens left.
abbrev pub received_queue : QueueD → (n : ℕ) → QueueD
received_queue q n = record q {
  sem = some n;
  box = record q.box { m_idx_out = (q.box.m_idx_out + 1) % q.mq_attr.maxmsg };
}

abbrev pub received_state : Queues → (qid n : ℕ) → Queues
received_state w qid n = record w {
  queue_pool = update w.queue_pool qid (received_queue (w.queue_pool qid) n);
  errno = err_ok;
}

-- What the receiver of the message `m` has; `next` is the message at `mIdxIn`.
abbrev pub taken_of : (buffer : ℕ → ℕ) (m next : Mess) → Received
taken_of buffer m next = record {
  bytes = memcpy buffer m.buffer m.msg_sz;
  msgprio = next.order.prio;
  size = m.msg_sz;
}

module _ (q : QueueD) (n : ℕ) (ok : QueueOk q) (some_left : 0 < numb_mess q) where
  received_queue-QueueOk : QueueOk (received_queue q n)
  received_queue-QueueOk = record {
    in_small = ok.in_small;
    out_small =
        ground (arith, step_split q.box.m_idx_out q.mq_attr.maxmsg ok.out_small, ok.out_small);
  }

  received_queue-numb_mess : numb_mess (received_queue q n) + 1 ≡ numb_mess q
  unfolding numb_mess
  received_queue-numb_mess = ground (
    arith,
    step_split q.box.m_idx_out q.mq_attr.maxmsg ok.out_small,
    ok.in_small,
    ok.out_small,
    some_left,
  )

  received_queue-nth : (k : ℕ) → nth (received_queue q n) k ≡ nth q (k + 1)
  received_queue-nth k = ap q.box.mess_array (place_shift q.mq_attr.maxmsg q.box.m_idx_out k)

receive_error-locked :
    (self : ℕ) (mq : ℤ) (len : ℕ) (w : Queues)
    → receive_error (locked w) self mq len ≡ receive_error w self mq len
unfolding receive_error
receive_error-locked self mq len w = refl

receive_locked-done :
    (self : ℕ) (mq : ℤ) (len : ℕ) (w : Queues)
    → 0 < w.pool_access_sem
    → receive_error w self mq len ≡ none
    → receive_locked self mq len (locked w)
      ≡ done (some (w.file_pool (file_of mq)).q_id, set_errno w err_ok)
unfolding receive_locked
receive_locked-done self mq len w free h =
    rw (receive_locked, receive_error-locked self mq len w ∙ h)
      (ap (λ v. done (some (w.file_pool (file_of mq)).q_id, v))
        (unlock_pool-locked w w.queue_pool err_ok free))

-- `mq_receive` whose tests find no error goes on to the semaphore of the queue of the descriptor.
pub receive_begin_lem :
    (self : ℕ) (mq : ℤ) (len : ℕ) (w : Queues)
    → w.started ≡ true
    → 0 < w.pool_access_sem
    → receive_error w self mq len ≡ none
    → receive_begin self mq len w ≡ done (some (w.file_pool (file_of mq)).q_id, set_errno w err_ok)
unfolding receive_begin
receive_begin_lem self mq len w init free h =
    lock_pool-once w (receive_locked self mq len) init free
    ∙ receive_locked-done self mq len w free h

receive_end_lem :
    (qid n : ℕ) (buffer : ℕ → ℕ) (w : Queues)
    → QueueOk (w.queue_pool qid)
    → (w.queue_pool qid).sem ≡ some (suc n)
    → receive_end qid buffer w
      ≡ done (
          some (
            taken_of buffer
                (nth (w.queue_pool qid) 0)
                ((w.queue_pool qid).box.mess_array (w.queue_pool qid).box.m_idx_in),
            received_state w qid n,
          ))
unfolding receive_end dequeue
receive_end_lem qid n buffer w ok h =
    ap by_sem h
    ∙ ap (λ m. done (some (taken_of buffer m next, received_state w qid n)))
        (ap q.box.mess_array first)
  where
    q : QueueD
    q = w.queue_pool qid

    next : Mess
    next = q.box.mess_array q.box.m_idx_in

    first : q.box.m_idx_out ≡ place q.mq_attr.maxmsg q.box.m_idx_out 0
    first = start q ok

    by_sem : Option ℕ → Outcome (Option (Received × Queues))
    by_sem none = hangs
    by_sem (some zero) = done none
    by_sem (some (suc k)) =
        let got = dequeue buffer (record q { sem = some k }) in
        done (some (got.0, set_errno (put_queue w qid got.1) err_ok))

-- `mq_receive` at a queue that has a message and a token goes on at once: it gives the bytes and the
-- size of the first message, and the priority of what stands at `mIdxIn`. The other messages move up,
-- and of the rest only `errno` changes.
pub mq_receive_lem :
    (self : ℕ) (mq : ℤ) (len n : ℕ) (buffer : ℕ → ℕ) (w : Queues)
    → w.started ≡ true
    → 0 < w.pool_access_sem
    → receive_error w self mq len ≡ none
    → QueueOk (queue_of mq w)
    → 0 < numb_mess (queue_of mq w)
    → (queue_of mq w).sem ≡ some (suc n)
    → (receive_begin self mq len w
        ≡ done (some (w.file_pool (file_of mq)).q_id, set_errno w err_ok))
      × (receive_end (w.file_pool (file_of mq)).q_id buffer (set_errno w err_ok)
          ≡ done (
              some (
                taken_of buffer
                    (nth (queue_of mq w) 0)
                    ((queue_of mq w).box.mess_array (queue_of mq w).box.m_idx_in),
                received_state w (w.file_pool (file_of mq)).q_id n,
              )))
      × QueueOk (received_queue (queue_of mq w) n)
      × (numb_mess (received_queue (queue_of mq w) n) + 1 ≡ numb_mess (queue_of mq w))
      × ((k : ℕ) → nth (received_queue (queue_of mq w) n) k ≡ nth (queue_of mq w) (k + 1))
mq_receive_lem self mq len n buffer w init free h ok some_left g =
    let q : QueueD = queue_of mq w in
    (
      receive_begin_lem self mq len w init free h,
      receive_end_lem (w.file_pool (file_of mq)).q_id n buffer (set_errno w err_ok) ok g,
      received_queue-QueueOk q n ok some_left,
      received_queue-numb_mess q n ok some_left,
      received_queue-nth q n ok some_left,
    )
