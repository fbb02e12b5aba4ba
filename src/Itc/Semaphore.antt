-- ===== src/Itc/Semaphore.antt =====
-- The semaphores of src/tk_itc.c. `malloc` is two tests: whether it returns memory for the object and
-- for its ring.
use tinker.Base.{
  ℕ, Bool, true, false, ◌&&◌, not, Option, none, some, update, if◌then◌else◌, pos, is_pos,
}
use tinker.Kernel.State.{
  Status, tk_ok, err_objdel, err_objtype, err_objfull, err_nosem, err_nomem, Outcome, done,
}
use tinker.Itc.State.{IpcFlags, ItcSet, sem, is_sem, Itc, World, put_itc}
use tinker.Itc.Shared.{seek_empty}
use tinker.Itc.Stages.{Locking, returned, lock_begin, unlock_begin, with_itc}

abbrev pub is_ok : Status → Bool
is_ok tk_ok = true
is_ok other = false

module _ (max_num : ℕ) where
  -- A new semaphore, in the place where `old` is what the memory holds.
  abbrev pub new_itc : (count : ℕ) → IpcFlags → Itc → Itc
  new_itc count flags old = record old {
    token = pos count;
    flags = flags;
    sizeof_q = 0;
    b_type = sem;
    blocked_procs = λ i. none;
    in_idx = 0;
    out_idx = 0;
  }

  -- `sm_create`: the status, and the number that `*qid` receives. If there is no memory for the ring,
  -- the place stays taken by what the first `malloc` returned.
  unfoldable pub sm_create :
      (count : ℕ) → IpcFlags → (object_ok ring_ok : Bool) → Itc → World → Status × World
  sm_create count flags object_ok ring_ok old w =
      let slot = seek_empty max_num max_num w.itc_idx w.itc_array in
      let w' = record w { itc_idx = slot.1 } in
      if not (is_ok slot.0)
      then (err_objfull, w')
      else if not object_ok
      then (err_nomem, w')
      else if not ring_ok
      then (err_nomem, put_itc w' slot.1 old)
      else (tk_ok, put_itc w' slot.1 (new_itc count flags old))

unfoldable pub sm_delete : ℕ → World → Outcome (Status × World)
sm_delete qid w =
    with_itc w qid (λ q. done (tk_ok, record w { itc_array = update w.itc_array qid none }))

-- The tests of `sm_p` and `q_receive` before they wait, for an object that should have the kind `kind`.
abbrev pub refuse : (ItcSet → Bool) → Bool → Itc → Option Status
refuse kind nowait q =
    if not (kind q.b_type)
    then some err_objtype
    else if not (is_pos q.token) && nowait
    then some err_nosem
    else none

-- `sm_p` up to its wait.
unfoldable pub sm_p :
    (max qid : ℕ) → IpcFlags → (timeout now : ℕ) → World → Outcome (Locking × World)
unfolding lock_begin
sm_p max qid flags timeout now w = elim (w.itc_array qid) [
  | none ↦ done (returned err_objdel, w)
  | some q ↦ elim (refuse is_sem flags.nowait q) [
    | some s ↦ done (returned s, w)
    | none ↦ lock_begin max qid timeout now w
  ]
]

-- `sm_v` up to its wait.
unfoldable pub sm_v : (max levels qid : ℕ) → World → Outcome (Locking × World)
unfolding unlock_begin
sm_v max levels qid w = elim (w.itc_array qid) [
  | none ↦ done (returned err_objdel, w)
  | some q ↦
      if is_sem q.b_type then unlock_begin max levels qid w else done (returned err_objtype, w)
]
