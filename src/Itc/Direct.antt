-- ===== src/Itc/Direct.antt =====
-- src/tk_itcny.c: the stages and the calls for an interrupt handler, which do not yield. A caller that
-- should wait goes on at once.
use tinker.Base.{
  ℕ, ◌-◌, ◌≡◌, ap, ◌∙◌, true, false, ◌&&◌, not, none, some, ltb, if◌then◌else◌, inc_ℤ, abs, is_neg,
  is_pos, arith,
}
use tinker.Kernel.State.{
  Tuning, Status, tk_ok, err_objdel, err_objtype, err_full, Outcome, done, ◌>>=◌,
}
use tinker.Kernel.Dispatch.{preemplist}
use tinker.Itc.State.{IpcFlags, is_sem, is_s_queue, Words, Itc, World, put_itc, set_tcb}
use tinker.Itc.Stages.{
  Locking, returned, waiting, with_itc, enter_ring, blocked_tcb, unblocked, lock_begin, lock_resume,
  first_blocked, unlock_prior,
}
use tinker.Itc.Semaphore.{refuse}
use tinker.Itc.Idle.{third}
use tinker.Itc.Queue.{is_full, enter_words, check_stage}

-- `_lock_stage_ny`: what stands before the yield of `lock_stage`, and at once what stands behind it.
unfoldable pub lock_ny : (max qid timeout now : ℕ) → World → Outcome (Status × World)
unfolding lock_begin lock_resume
lock_ny max qid timeout now w = lock_begin max qid timeout now w >>= λ r. elim r.0 [
  | returned s ↦ done (s, r.1)
  | waiting mark ↦ lock_resume max qid mark r.1
]

module _ (cfg : Tuning) (address : ℕ → ℕ) where
  -- `tk_preemplist((tin_t) Him)`: the number that the list receives is the address of the block.
  abbrev pub preempt : ℕ → World → World
  preempt t w = record w { kernel = preemplist cfg (address t) w.kernel }

  unfoldable pub unlock_fifo_ny : (max qid : ℕ) → Itc → World → Outcome (Status × World)
  unfolding first_blocked
  unlock_fifo_ny max qid q w = first_blocked max (abs q.token) q w.kernel.pool >>= λ r.
      done (tk_ok, preempt r.0 (put_itc (set_tcb w r.0 (unblocked (w.kernel.pool r.0))) qid r.1))

  -- `_unlock_stage_ny`
  unfoldable pub unlock_ny : (max levels qid : ℕ) → World → Outcome (Status × World)
  unfolding unlock_fifo_ny unlock_prior
  unlock_ny max levels qid w = with_itc w qid (λ q.
      if is_neg q.token
      then (if q.flags.prior
          then (unlock_prior max levels qid q w >>= λ r. done (tk_ok, r.1))
          else unlock_fifo_ny max qid q w)
      else done (tk_ok, put_itc w qid (record q { token = inc_ℤ q.token })))

  unfoldable pub sm_v_ny : (max levels qid : ℕ) → World → Outcome (Status × World)
  unfolding unlock_ny
  sm_v_ny max levels qid w = elim (w.itc_array qid) [
    | none ↦ done (err_objdel, w)
    | some q ↦ if is_sem q.b_type then unlock_ny max levels qid w else done (err_objtype, w)
  ]

  -- `q_send_ny`, less the interrupt lock, which its early returns leave closed.
  unfoldable pub q_send_ny : (max levels qid : ℕ) → Words → World → Outcome (Status × World)
  unfolding unlock_ny check_stage
  q_send_ny max levels qid x w = elim (w.itc_array qid) [
    | none ↦ done (err_objdel, w)
    | some q ↦
        if not (is_s_queue q.b_type)
        then done (err_objtype, w)
        else if is_full q
        then done (err_full, w)
        else (unlock_ny max levels qid (put_itc w qid (enter_words x q)) >>= λ r.
            check_stage max qid r.1 >>= λ w'. done (r.0, w'))
  ]

unfoldable pub sm_p_ny :
    (max qid : ℕ) → IpcFlags → (timeout now : ℕ) → World → Outcome (Status × World)
unfolding lock_ny
sm_p_ny max qid flags timeout now w = elim (w.itc_array qid) [
  | none ↦ done (err_objdel, w)
  | some q ↦ elim (refuse is_sem flags.nowait q) [
    | some s ↦ done (s, w)
    | none ↦ lock_ny max qid timeout now w
  ]
]

-- At a semaphore without a token and with room in its ring, a handler's call without NOWAIT and with
-- no time limit returns TK_OK at once; it has taken nothing, and the thread that was interrupted now
-- stands in the ring.
pub sm_p_ny_returns :
    (max qid now : ℕ) (flags : IpcFlags) (w : World) (q : Itc)
    → w.itc_array qid ≡ some q
    → is_sem q.b_type ≡ true
    → is_pos q.token ≡ false
    → flags.nowait ≡ false
    → ltb (abs q.token) (max - 1) ≡ true
    → (w' : World) × (sm_p_ny max qid flags 0 now w ≡ done (tk_ok, w'))
      × (w'.itc_array qid ≡ some (enter_ring max w.kernel.active q))
      × ((w'.kernel.pool w.kernel.active).state.queue ≡ true)
unfolding sm_p_ny
sm_p_ny_returns max qid now flags w q here kind empty patient room = (
  set_tcb (put_itc w qid (enter_ring max w.kernel.active q)) w.kernel.active
      (blocked_tcb now 0 (w.kernel.pool w.kernel.active)),
  rw (here, sm_p_ny)
      (ap (λ s. elim s [ some r ↦ done (r, w) | none ↦ lock_ny max qid 0 now w ])
          (third _ _ none (is_sem q.b_type) (not (is_pos q.token) && flags.nowait) kind
            (ap (λ b. not b && flags.nowait) empty ∙ patient))
        ∙ unfold lock_ny in
          ap
            (λ (o : Outcome (Locking × World)). o >>= λ r. elim r.0 [
              | returned s ↦ done (s, r.1)
              | waiting mark ↦ lock_resume max qid mark r.1
            ])
            waits),
  ground arith,
  ground arith,
)
  where
    waits :
        lock_begin max qid 0 now w
        ≡ done (
          waiting none,
          set_tcb
              (put_itc w qid (enter_ring max w.kernel.active q))
              w.kernel.active
              (blocked_tcb now 0 (w.kernel.pool w.kernel.active)),
        )
    waits = unfold lock_begin in rw (here, with_itc, empty, room)
