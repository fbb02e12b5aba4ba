-- ===== src/Mqueue/Enqueue.antt =====
-- The lock of the queues of src/mqueue.c, and `mq_enqueue` under it.
use tinker.Base.{
  ℕ, ◌+◌, ◌-◌, ◌<◌, ◌≡◌, refl, sym, ap, ◌∙◌, inl, inr, true, ◌==◌, if◌then◌else◌, Bool-cases, ==→ne,
  ==→eq, update, update_self, update_ne, arith,
}
use tinker.Kernel.State.{Outcome}
use tinker.Itc.Ring.{place, place_inj}
use tinker.Mqueue.State.{
  Mess, QueueD, Errno, err_ok, Queues, numb_mess, lock_pool, unlock_pool, set_errno, once,
  initialize,
}
use tinker.Mqueue.Places.{QueueOk, step_split, nth, place-numb_mess}
use tinker.Mqueue.Sorted.{not_zero}
use tinker.Mqueue.Transfer.{memcpy, enqueue}

-- The pool locked.
abbrev pub locked : Queues → Queues
locked w = record w { pool_access_sem = w.pool_access_sem - 1; errno = err_ok }

pub once-started : (v : Queues) → v.started ≡ true → once v ≡ v
once-started v h = ap (λ b. if b then v else record (initialize v) { started = true }) h

pub lock_pool-once {ℓ} :
    {A : Type ℓ} (w : Queues) (rest : Queues → Outcome A)
    → w.started ≡ true
    → 0 < w.pool_access_sem
    → lock_pool (once w) rest ≡ rest (locked w)
lock_pool-once w rest init free =
    ap (λ v. lock_pool v rest) (once-started w init) ∙ rw (not_zero w.pool_access_sem free) refl

pub unlock_pool-locked :
    (w : Queues) (pool : ℕ → QueueD) (e : Errno)
    → 0 < w.pool_access_sem
    → set_errno (unlock_pool (record (locked w) { queue_pool = pool })) e
      ≡ record w { queue_pool = pool; errno = e }
unlock_pool-locked w pool e free =
    ap (λ n. record w { queue_pool = pool; pool_access_sem = n; errno = e })
      {x = w.pool_access_sem - 1 + 1} {y = w.pool_access_sem} (omega arith)

module _ (now : ℕ) (msg : ℕ → ℕ) (msglen msgprio : ℕ) (q : QueueD) where
  -- The message that `mq_send` writes.
  abbrev pub sent_mess : Mess
  sent_mess = record {
    buffer = memcpy (q.box.mess_array q.box.m_idx_in).buffer msg msglen;
    msg_sz = msglen;
    order = record { time = now; prio = msgprio; in_order = q.box.last_in_order };
  }

  -- The messages and the new one behind them.
  abbrev pub with_sent : ℕ → Mess
  with_sent k = if k == numb_mess q then sent_mess else nth q k

  module _ (ok : QueueOk q) (room : numb_mess q + 1 < q.mq_attr.maxmsg) where
    pub enqueue-QueueOk : QueueOk (enqueue now msg msglen msgprio q)
    unfolding enqueue
    enqueue-QueueOk = record {
      in_small =
          ground (arith, step_split q.box.m_idx_in q.mq_attr.maxmsg ok.in_small, ok.in_small);
      out_small = ok.out_small;
    }

    pub enqueue-numb_mess : numb_mess (enqueue now msg msglen msgprio q) ≡ numb_mess q + 1
    unfolding enqueue numb_mess
    enqueue-numb_mess = ground (
      arith,
      step_split q.box.m_idx_in q.mq_attr.maxmsg ok.in_small,
      ok.in_small,
      ok.out_small,
      room,
    )

    pub enqueue-nth :
        (k : ℕ) → k < numb_mess q + 1 → nth (enqueue now msg msglen msgprio q) k ≡ with_sent k
    unfolding enqueue
    enqueue-nth k h = elim (Bool-cases (k == numb_mess q)) [
      | inl last ↦ rw last (
          ap (update q.box.mess_array q.box.m_idx_in sent_mess) (
            ap (place q.mq_attr.maxmsg q.box.m_idx_out) (==→eq k (numb_mess q) last)
            ∙ place-numb_mess q ok)
          ∙ update_self q.box.mess_array q.box.m_idx_in sent_mess)
      | inr other ↦
          let apart = ==→ne k (numb_mess q) other in
          rw other (
            update_ne q.box.mess_array q.box.m_idx_in (place q.mq_attr.maxmsg q.box.m_idx_out k)
              sent_mess
              (λ e. apart (
                place_inj q.mq_attr.maxmsg q.box.m_idx_out k (numb_mess q) ok.out_small
                  (omega arith) (omega arith) (e ∙ sym (place-numb_mess q ok)))))
    ]
