-- ===== src/Itc/Stages.antt =====
-- `lock_stage` and `unlock_stage` of src/tk_itc.c. Each waits in `tk_yield`: a first function runs up
-- to it, and `lock_resume` runs once the thread is chosen again. A read of an object that is gone,
-- or of an empty place of the ring, has no result: `hangs`.
use tinker.Base.{
  ℕ, zero, suc, ◌+◌, ◌-◌, ◌%◌, Bool, true, false, ◌&&◌, not, Option, none, some, update, ltb, ◌==◌,
  if◌then◌else◌, inc_ℤ, dec_ℤ, abs, is_neg, is_pos,
}
use tinker.Kernel.State.{
  Tcb, is_ready, WakeEvent, e_none, e_childdeath, e_timer, e_itc, e_itc2, Status, tk_ok,
  err_timeout, err_blocklimit, Outcome, done, exited, hangs, ◌>>=◌, tc_err_assert,
}
use tinker.Itc.State.{Itc, World, put_itc, set_tcb}
use tinker.Itc.Shared.{back_idx, remove_blocked}

-- What a stage does at once: it returns, or it waits; after a wait with a time limit it knows `mark_idx`.
pub data Locking : Type 0 where
  returned : Status → Locking
  waiting : Option ℕ → Locking

abbrev pub is_timer : WakeEvent → Bool
is_timer e_none = false
is_timer e_childdeath = false
is_timer e_timer = true
is_timer e_itc = false
is_timer e_itc2 = false

abbrev pub is_itc2 : WakeEvent → Bool
is_itc2 e_none = false
is_itc2 e_childdeath = false
is_itc2 e_timer = false
is_itc2 e_itc = false
is_itc2 e_itc2 = true

-- The object, which has to be there.
abbrev pub with_itc {ℓ} : {A : Type ℓ} → World → ℕ → (Itc → Outcome A) → Outcome A
with_itc w qid f = elim (w.itc_array qid) [ none ↦ hangs | some q ↦ f q ]

-- `state & ~_____QST`, and the event E_ITC.
abbrev pub unblocked : Tcb → Tcb
unblocked b = record b {
  state = record b.state { queue = false; sleep = false; term = false };
  wakeup_event = e_itc;
}

-- The control block of a thread that starts to wait.
abbrev pub blocked_tcb : (now timeout : ℕ) → Tcb → Tcb
blocked_tcb now timeout b =
    if timeout == 0
    then record b { state = record b.state { queue = true }; wakeup_event = e_none }
    else record b {
      state = record b.state { queue = true; sleep = true };
      wakeuptime = now + timeout;
    }

module _ (max : ℕ) where
  -- The thread `me` enters the ring.
  abbrev pub enter_ring : ℕ → Itc → Itc
  enter_ring me q = record q {
    token = dec_ℤ q.token;
    blocked_procs = update q.blocked_procs q.in_idx (some me);
    in_idx = (q.in_idx + 1) % max;
  }

  -- `lock_stage` up to its `tk_yield`; `now` is `clock() / CLK_TCK * 1000`.
  unfoldable pub lock_begin : (qid timeout now : ℕ) → World → Outcome (Locking × World)
  lock_begin qid timeout now w = with_itc w qid (λ q.
      let me = w.kernel.active in
      let q' = enter_ring me q in
      let w' = set_tcb (put_itc w qid q') me (blocked_tcb now timeout (w.kernel.pool me)) in
      if is_pos q.token
      then done (returned tk_ok, put_itc w qid (record q { token = dec_ℤ q.token }))
      else if ltb (abs q.token) (max - 1)
      then done (waiting (if timeout == 0 then none else some q'.in_idx), w')
      else done (returned err_blocklimit, w))

  -- The loop of `lock_stage` that looks for further threads whose time is out, on fuel.
  unfoldable pub sweep : (fuel mark qid : ℕ) → Itc → World → Outcome World
  sweep zero mark qid q w = hangs
  sweep (suc fuel) mark qid q w = elim (q.blocked_procs mark) [
    | none ↦ hangs
    | some t ↦
        let b = w.kernel.pool t in
        let late = is_ready b.state && is_timer b.wakeup_event in
        let w' = if late then set_tcb w t (record b { wakeup_event = e_itc2 }) else w in
        elim (if late then remove_blocked max mark q else some q) [
          | none ↦ hangs
          | some q' ↦
              let w'' = put_itc w' qid q' in
              let next = (mark + 1) % max in
              let rest = sweep fuel next qid q' w'' in
              if mark == q'.in_idx
              then done w''
              else if is_neg q'.token && not (next == q'.in_idx)
              then rest
              else done w''
        ]
  ]

  -- `lock_stage` after the wait of a thread that the clock has woken.
  unfoldable pub lock_timeout : (mark qid : ℕ) → Itc → World → Outcome (Status × World)
  unfolding sweep
  lock_timeout mark qid q w =
      if is_neg q.token
      then elim (remove_blocked max (back_idx max mark) q) [
        | none ↦ hangs
        | some q' ↦
            if is_neg q'.token
            then (sweep (max + 1) q'.out_idx qid q' (put_itc w qid q') >>= λ w'.
                done (err_timeout, w'))
            else done (err_timeout, put_itc w qid q')
      ]
      else done (err_timeout, w)

  -- `lock_stage` after its `tk_yield`.
  unfoldable pub lock_resume : ℕ → Option ℕ → World → Outcome (Status × World)
  unfolding lock_timeout
  lock_resume qid none w = done (tk_ok, w)
  lock_resume qid (some mark) w =
      let event = (w.kernel.pool w.kernel.active).wakeup_event in
      if is_timer event
      then with_itc w qid (λ q. lock_timeout mark qid q w)
      else if is_itc2 event
      then done (err_timeout, w)
      else done (tk_ok, w)

  -- The loop of `unlock_stage` in the order of arrival, on fuel: the thread it ends at.
  unfoldable pub first_blocked : ℕ → Itc → (ℕ → Tcb) → Outcome (ℕ × Itc)
  first_blocked zero q pool = hangs
  first_blocked (suc fuel) q pool = elim (q.blocked_procs q.out_idx) [
    | none ↦ hangs
    | some t ↦
        let q' = record q { out_idx = (q.out_idx + 1) % max; token = inc_ℤ q.token } in
        let rest = first_blocked fuel q' pool in
        if not (pool t).state.queue && is_neg q'.token then rest else done (t, q')
  ]

  -- The loop of `unlock_stage` that looks for the most urgent thread, on fuel: `t_prio` and `t_idx`.
  unfoldable pub best_blocked :
      (fuel i t_prio : ℕ) → Option ℕ → Itc → (ℕ → Tcb) → Outcome (Option ℕ)
  best_blocked zero i t_prio t_idx q pool = hangs
  best_blocked (suc fuel) i t_prio t_idx q pool =
      if i == q.in_idx then done t_idx else elim (q.blocked_procs i) [
        | none ↦ hangs
        | some t ↦
            if ltb (pool t).prio t_prio
            then best_blocked fuel ((i + 1) % max) (pool t).prio (some i) q pool
            else best_blocked fuel ((i + 1) % max) t_prio t_idx q pool
      ]

  -- `unlock_stage` under PRIOR: the thread it unblocks leaves the ring.
  unfoldable pub unlock_at : (qid i : ℕ) → Itc → World → Outcome (Locking × World)
  unlock_at qid i q w = elim (q.blocked_procs i) [
    | none ↦ hangs
    | some t ↦ elim (remove_blocked max i q) [
      | none ↦ hangs
      | some q' ↦ done (waiting none, put_itc (set_tcb w t (unblocked (w.kernel.pool t))) qid q')
    ]
  ]

  unfoldable pub unlock_prior : (levels qid : ℕ) → Itc → World → Outcome (Locking × World)
  unfolding best_blocked unlock_at
  unlock_prior levels qid q w =
      if q.in_idx == q.out_idx
      then done (returned tk_ok, w)
      else best_blocked (max + 1) q.out_idx (levels + 2) none q w.kernel.pool >>= λ r. elim r [
        | none ↦ exited tc_err_assert
        | some i ↦ unlock_at qid i q w
      ]

  unfoldable pub unlock_fifo : ℕ → Itc → World → Outcome (Locking × World)
  unfolding first_blocked
  unlock_fifo qid q w = first_blocked (abs q.token) q w.kernel.pool >>= λ r.
      done (waiting none, put_itc (set_tcb w r.0 (unblocked (w.kernel.pool r.0))) qid r.1)

  -- `unlock_stage` up to its `tk_yield`, after which it returns ERR_OK.
  unfoldable pub unlock_begin : (levels qid : ℕ) → World → Outcome (Locking × World)
  unfolding unlock_prior unlock_fifo
  unlock_begin levels qid w = with_itc w qid (λ q.
      if is_neg q.token
      then (if q.flags.prior then unlock_prior levels qid q w else unlock_fifo qid q w)
      else done (returned tk_ok, put_itc w qid (record q { token = inc_ℤ q.token })))
