-- ===== src/Itc/DirectCalls.antt =====
-- The rest of src/tk_itcny.c: the calls that are those of src/tk_itc.c but for the stage that they
-- call. The calls that create and delete have the same code in both files.
use tinker.Base.{ℕ, Bool, not, Option, none, some, List, [], ltb, if◌then◌else◌}
use tinker.Kernel.State.{
  Tuning, Status, err_objdel, err_objtype, err_full, err_bufsiz, err_nomem, Outcome, done, hangs,
  ◌>>=◌,
}
use tinker.Itc.State.{IpcFlags, is_s_queue, is_v_queue, Words, Itc, World, put_itc}
use tinker.Itc.Stages.{with_itc}
use tinker.Itc.Semaphore.{refuse, sm_create, sm_delete}
use tinker.Itc.Queue.{
  is_full, set_mb, copy_message, check_stage, q_create, q_vcreate, q_delete, q_vdelete, q_received,
  q_vreceived,
}
use tinker.Itc.Direct.{lock_ny, unlock_ny}

unfoldable pub sm_create_ny :
    (max_num count : ℕ) → IpcFlags → (object_ok ring_ok : Bool) → Itc → World → Status × World
sm_create_ny max_num count flags object_ok ring_ok old w =
    sm_create max_num count flags object_ok ring_ok old w

unfoldable pub sm_delete_ny : ℕ → World → Outcome (Status × World)
sm_delete_ny qid w = sm_delete qid w

unfoldable pub q_create_ny :
    (max_num count : ℕ)
    → IpcFlags
    → (object_ok ring_ok words_ok : Bool) → Itc
    → World
    → Status × World
q_create_ny max_num count flags object_ok ring_ok words_ok old w =
    q_create max_num count flags object_ok ring_ok words_ok old w

unfoldable pub q_vcreate_ny :
    (max_num count mmlen : ℕ)
    → IpcFlags
    → (object_ok ring_ok messages_ok : Bool) → Itc
    → World
    → Status × World
q_vcreate_ny max_num count mmlen flags object_ok ring_ok messages_ok old w =
    q_vcreate max_num count mmlen flags object_ok ring_ok messages_ok old w

unfoldable pub q_delete_ny : ℕ → World → Outcome (Status × World)
q_delete_ny qid w = q_delete qid w

unfoldable pub q_vdelete_ny : ℕ → World → Outcome (Status × World)
q_vdelete_ny qid w = q_vdelete qid w

unfoldable pub q_receive_ny :
    (max qid : ℕ) → IpcFlags → (timeout now : ℕ) → World → Outcome (Status × Option Words × World)
q_receive_ny max qid flags timeout now w = elim (w.itc_array qid) [
  | none ↦ done (err_objdel, none, w)
  | some q ↦ elim (refuse is_s_queue flags.nowait q) [
    | some s ↦ done (s, none, w)
    | none ↦ lock_ny max qid timeout now w >>= λ r. q_received max qid r.0 r.1
  ]
]

unfoldable pub q_vreceive_ny :
    (max qid : ℕ)
    → IpcFlags
    → (timeout now buf_len : ℕ) → World
    → Outcome (Status × Option (List ℕ × ℕ) × World)
q_vreceive_ny max qid flags timeout now buf_len w = elim (w.itc_array qid) [
  | none ↦ done (err_objdel, none, w)
  | some q ↦ elim (refuse is_v_queue flags.nowait q) [
    | some s ↦ done (s, none, w)
    | none ↦
        if ltb q.max_sizeof_m buf_len
        then done (err_bufsiz, none, w)
        else (lock_ny max qid timeout now w >>= λ r. q_vreceived max qid r.0 r.1)
  ]
]

module _ (cfg : Tuning) (address : ℕ → ℕ) (max levels qid : ℕ) where
  -- The copy of `q_vsend_ny`, its stage and the test that follows.
  unfoldable pub vsend_copy_ny : (msg : List ℕ) → (msg_len : ℕ) → World → Outcome (Status × World)
  vsend_copy_ny msg msg_len w = with_itc w qid (λ q. elim (q.qv q.min_idx).mb [
    | none ↦ hangs
    | some old ↦
        unlock_ny cfg address max levels qid (put_itc w qid (copy_message msg msg_len q)) >>= λ r.
        check_stage max qid r.1 >>= λ w'. done (r.0, w')
  ])

  unfoldable pub q_vsend_ny :
      (malloc_ok : Bool) → (msg : List ℕ) → (msg_len : ℕ) → World → Outcome (Status × World)
  q_vsend_ny malloc_ok msg msg_len w = elim (w.itc_array qid) [
    | none ↦ done (err_objdel, w)
    | some q ↦
        if not (is_v_queue q.b_type)
        then done (err_objtype, w)
        else if is_full q
        then done (err_full, w)
        else with_itc w w.itc_idx (λ last.
          if not (is_v_queue last.b_type)
          then hangs
          else if malloc_ok
          then vsend_copy_ny msg msg_len (put_itc w w.itc_idx (set_mb q.min_idx (some []) last))
          else done (err_nomem, put_itc w w.itc_idx (set_mb q.min_idx none last)))
  ]
