-- ===== src/Mqueue/Send.antt =====
-- What `mq_send` of src/mqueue.c does to a queue.
use tinker.Base.{
  ℕ, ◌+◌, ◌<◌, ◌≡◌, refl, ap, ◌∙◌, Bool, true, false, not, ltb, leb, ◌==◌, ◌||◌, if◌then◌else◌,
  update, ℤ, pos, negsuc, Option, some, none, arith,
}
use tinker.Kernel.State.{done}
use tinker.Mqueue.State.{
  Mess, QueueD, Errno, err_ok, e_badf, e_msgsize, e_again, Queues, numb_mess, set_errno,
}
use tinker.Mqueue.Sort.{put_array, sort_by_prio}
use tinker.Mqueue.Places.{QueueOk, nth}
use tinker.Mqueue.Sorted.{sort_by_prio-single}
use tinker.Mqueue.Transfer.{file_of, size_pred, is_open, send_error, enqueue, send_locked, mq_send}
use tinker.Mqueue.Enqueue.{
  enqueue-QueueOk, enqueue-numb_mess, enqueue-nth, locked, lock_pool-once, unlock_pool-locked,
  sent_mess,
}

some_not_none {ℓ} : {A : Type ℓ} {x : A} → some x ≡ none → ⊥
some_not_none h = cc

-- The tests of a call one by one.
else_none :
    (c : Bool) (e : Errno) (rest : Option Errno)
    → (if c then some e else rest) ≡ none
    → (c ≡ false) × (rest ≡ none)
else_none true e rest h = absurd (some_not_none h)
else_none false e rest h = (refl, h)

-- The queue that `mq_send` and `mq_receive` find.
abbrev pub queue_of : ℤ → Queues → QueueD
queue_of mq w = w.queue_pool (w.file_pool (file_of mq)).q_id

module _ (self : ℕ) (mq : ℤ) (len : ℕ) (w : Queues) where
  send_error-room :
      QueueOk (queue_of mq w)
      → send_error w self mq len ≡ none
      → numb_mess (queue_of mq w) + 1 < (queue_of mq w).mq_attr.maxmsg
  unfolding send_error
  send_error-room ok h =
      let f = w.file_pool (file_of mq) in
      let t1 = else_none (not (is_open w self mq)) e_badf _ h in
      let t2 = else_none (not (f.oflags.wronly || f.oflags.rdwr)) e_badf _ t1.1 in
      let t3 = else_none (not (queue_of mq w).taken) e_badf _ t2.1 in
      let t4 = else_none (not (leb len (queue_of mq w).mq_attr.msgsize)) e_msgsize _ t3.1 in
      let t5 =
        else_none (not (ltb (numb_mess (queue_of mq w)) (size_pred (queue_of mq w).mq_attr.maxmsg)))
          e_again none t4.1 in
      ground (arith, t5.0, ok.in_small)

module _ (now : ℕ) (mq : ℤ) (msg : ℕ → ℕ) (msglen msgprio : ℕ) (w : Queues) where
  -- The queue before the sort, and the state after the call.
  abbrev pub extended : QueueD
  extended = enqueue now msg msglen msgprio (queue_of mq w)

  abbrev pub sent_queue : (arr : ℕ → Mess) (n : ℕ) → QueueD
  sent_queue arr n = record (put_array extended arr) { sem = some (n + 1) }

  abbrev pub sent_state : (arr : ℕ → Mess) (n : ℕ) → Queues
  sent_state arr n = record w {
    queue_pool = update w.queue_pool (w.file_pool (file_of mq)).q_id (sent_queue arr n);
    errno = err_ok;
  }

module _ (before : Mess) (fresh : ℕ → Mess) (self now : ℕ) (mq : ℤ) (msg : ℕ → ℕ)
    (msglen msgprio : ℕ) (w : Queues) (init : w.started ≡ true) (free : 0 < w.pool_access_sem) where
  send_error-locked : send_error (locked w) self mq msglen ≡ send_error w self mq msglen
  unfolding send_error
  send_error-locked = refl

  send_locked-error :
      (e : Errno)
      → send_error w self mq msglen ≡ some e
      → send_locked before (some fresh) self now mq msg msglen msgprio (locked w)
        ≡ done (negsuc 0, set_errno w e)
  unfolding send_locked
  send_locked-error e h =
      rw (send_locked, send_error-locked ∙ h)
        (ap (λ v. done (negsuc 0, v)) (unlock_pool-locked w w.queue_pool e free))

  -- `mq_send` that finds an error returns -1 with it in `errno` and changes nothing else.
  pub mq_send-error :
      (e : Errno)
      → send_error w self mq msglen ≡ some e
      → mq_send before (some fresh) self now mq msg msglen msgprio w
        ≡ done (negsuc 0, set_errno w e)
  unfolding mq_send
  mq_send-error e h =
      lock_pool-once w (send_locked before (some fresh) self now mq msg msglen msgprio) init free
      ∙ send_locked-error e h

  extended-sem : (extended now mq msg msglen msgprio w).sem ≡ (queue_of mq w).sem
  unfolding enqueue
  extended-sem = refl

  send_locked-done :
      (arr : ℕ → Mess) (n : ℕ)
      → send_error w self mq msglen ≡ none
      → sort_by_prio before (some fresh) (extended now mq msg msglen msgprio w)
        ≡ done (put_array (extended now mq msg msglen msgprio w) arr)
      → (queue_of mq w).sem ≡ some n
      → send_locked before (some fresh) self now mq msg msglen msgprio (locked w)
        ≡ done (pos 0, sent_state now mq msg msglen msgprio w arr n)
  unfolding send_locked
  send_locked-done arr n h e g =
      rw (send_locked, send_error-locked ∙ h, e, extended-sem ∙ g)
        (ap (λ v. done (pos 0, v))
          (unlock_pool-locked w (sent_state now mq msg msglen msgprio w arr n).queue_pool err_ok
            free))

  sent_queue-numb_mess :
      (arr : ℕ → Mess) (n : ℕ)
      → numb_mess (sent_queue now mq msg msglen msgprio w arr n)
        ≡ numb_mess (extended now mq msg msglen msgprio w)
  unfolding numb_mess
  sent_queue-numb_mess arr n = refl

  -- `mq_send` at a queue without messages needs nothing of what stands in front of them.
  pub mq_send-first :
      (n : ℕ)
      → QueueOk (queue_of mq w)
      → send_error w self mq msglen ≡ none
      → (queue_of mq w).sem ≡ some n
      → numb_mess (queue_of mq w) ≡ 0
      → (arr : ℕ → Mess) × (mq_send before (some fresh) self now mq msg msglen msgprio w
          ≡ done (pos 0, sent_state now mq msg msglen msgprio w arr n))
        × QueueOk (sent_queue now mq msg msglen msgprio w arr n)
        × (numb_mess (sent_queue now mq msg msglen msgprio w arr n) ≡ 1)
        × (nth (sent_queue now mq msg msglen msgprio w arr n) 0
            ≡ sent_mess now msg msglen msgprio (queue_of mq w))
  unfolding mq_send
  mq_send-first n ok h g none_yet =
      let q : QueueD = queue_of mq w in
      let room : numb_mess q + 1 < q.mq_attr.maxmsg = send_error-room self mq msglen w ok h in
      let ok' : QueueOk (extended now mq msg msglen msgprio w) =
        enqueue-QueueOk now msg msglen msgprio q ok room in
      let more : numb_mess (extended now mq msg msglen msgprio w) ≡ numb_mess q + 1 =
        enqueue-numb_mess now msg msglen msgprio q ok room in
      let r =
        sort_by_prio-single before fresh (extended now mq msg msglen msgprio w) ok' (omega arith) in
      (
        r.0,
        lock_pool-once w (send_locked before (some fresh) self now mq msg msglen msgprio) init free
            ∙ send_locked-done r.0 n h r.1 g,
        record { in_small = ok'.in_small; out_small = ok'.out_small },
        sent_queue-numb_mess r.0 n ∙ omega arith,
        r.2
            ∙ enqueue-nth now msg msglen msgprio q ok room 0 (omega arith)
            ∙ ap (λ x. if 0 == x then sent_mess now msg msglen msgprio q else nth q 0) none_yet,
      )
