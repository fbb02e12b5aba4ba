-- ===== src/Itc/Queue.antt =====
-- The queues of src/tk_itc.c: messages of four words (`q_create`, ...) and messages of any length
-- (`q_vcreate`, ...). A call that waits is two functions: what runs before the wait, and what runs
-- once its stage has returned.
use tinker.Base.{
  ℕ, ◌+◌, ◌%◌, Bool, true, false, ◌&&◌, not, Option, none, some, List, [], update, ltb, leb,
  if◌then◌else◌, pos, negsuc,
}
use tinker.Kernel.State.{
  Status, tk_ok, err_objdel, err_objtype, err_nomem, err_full, err_bufsiz, Outcome, done, exited,
  hangs, ◌>>=◌, tc_err_assert,
}
use tinker.Itc.State.{
  IpcFlags, s_queue, v_queue, is_s_queue, is_v_queue, Words, Message, Itc, World, put_itc,
}
use tinker.Itc.Shared.{prove_concistency}
use tinker.Itc.Stages.{Locking, returned, lock_begin, unlock_begin, with_itc}
use tinker.Itc.Semaphore.{is_ok, sm_create, sm_delete, refuse}

-- `token > 0` and not `token < sizeof_q`.
abbrev pub is_full : Itc → Bool
is_full q = elim q.token [ pos n ↦ ltb 0 n && leb q.sizeof_q n | negsuc n ↦ false ]

-- The object that `sm_create` left becomes a queue; `calloc` returns zeros, or NULL.
abbrev pub no_message : Message
no_message = record { mb = none; s = 0 }

abbrev pub drop_itc : World → World
drop_itc w = record w { itc_array = update w.itc_array w.itc_idx none }

-- The test that follows both stages: `assert(0)` if the token and the ring disagree.
unfoldable pub check_stage : (max qid : ℕ) → World → Outcome World
check_stage max qid w = with_itc w qid (λ q. elim (prove_concistency max q w.kernel.pool) [
  | none ↦ hangs
  | some true ↦ done w
  | some false ↦ exited tc_err_assert
])

module _ (max_num : ℕ) where
  unfoldable pub q_create :
      (count : ℕ) → IpcFlags → (object_ok ring_ok words_ok : Bool) → Itc → World → Status × World
  q_create count flags object_ok ring_ok words_ok old w =
      let r = sm_create max_num 0 flags object_ok ring_ok old w in
      if not (is_ok r.0) then r else elim (r.1.itc_array r.1.itc_idx) [
        | none ↦ r
        | some q ↦
            if words_ok
            then (
              tk_ok,
              put_itc r.1 r.1.itc_idx (record q {
                q = λ i. (0, 0, 0, 0);
                sizeof_q = count;
                b_type = s_queue;
                min_idx = 0;
                mout_idx = 0;
              }),
            )
            else (err_nomem, drop_itc r.1)
      ]

  unfoldable pub q_vcreate :
      (count mmlen : ℕ)
      → IpcFlags
      → (object_ok ring_ok messages_ok : Bool) → Itc
      → World
      → Status × World
  q_vcreate count mmlen flags object_ok ring_ok messages_ok old w =
      let r = sm_create max_num 0 flags object_ok ring_ok old w in
      if not (is_ok r.0) then r else elim (r.1.itc_array r.1.itc_idx) [
        | none ↦ r
        | some q ↦
            if messages_ok
            then (
              tk_ok,
              put_itc r.1 r.1.itc_idx (record q {
                qv = λ i. no_message;
                sizeof_q = count;
                max_sizeof_m = mmlen;
                b_type = v_queue;
                min_idx = 0;
                mout_idx = 0;
              }),
            )
            else (err_nomem, drop_itc r.1)
      ]

-- `q_delete` and `q_vdelete` free the messages and delete the semaphore.
unfoldable pub q_delete : ℕ → World → Outcome (Status × World)
q_delete qid w = sm_delete qid w

unfoldable pub q_vdelete : ℕ → World → Outcome (Status × World)
q_vdelete qid w = sm_delete qid w

-- `q_receive` up to the wait of its stage.
unfoldable pub q_receive :
    (max qid : ℕ) → IpcFlags → (timeout now : ℕ) → World → Outcome (Locking × World)
q_receive max qid flags timeout now w = elim (w.itc_array qid) [
  | none ↦ done (returned err_objdel, w)
  | some q ↦ elim (refuse is_s_queue flags.nowait q) [
    | some s ↦ done (returned s, w)
    | none ↦ lock_begin max qid timeout now w
  ]
]

-- The message leaves the queue.
abbrev pub take_words : Itc → Itc
take_words q = record q { mout_idx = (q.mout_idx + 1) % q.sizeof_q }

-- `q_receive` once its stage has returned `rc`.
unfoldable pub q_received : (max qid : ℕ) → Status → World → Outcome (Status × Option Words × World)
unfolding check_stage
q_received max qid rc w = check_stage max qid w >>= λ w'.
    if is_ok rc
    then with_itc w' qid (λ q. done (tk_ok, some (q.q q.mout_idx), put_itc w' qid (take_words q)))
    else done (rc, none, w')

-- The message enters the queue.
abbrev pub enter_words : Words → Itc → Itc
enter_words x q = record q { q = update q.q q.min_idx x; min_idx = (q.min_idx + 1) % q.sizeof_q }

-- `q_send` up to the wait of its stage.
unfoldable pub q_send : (max levels qid : ℕ) → Words → World → Outcome (Locking × World)
q_send max levels qid x w = elim (w.itc_array qid) [
  | none ↦ done (returned err_objdel, w)
  | some q ↦
      if not (is_s_queue q.b_type)
      then done (returned err_objtype, w)
      else if is_full q
      then done (returned err_full, w)
      else unlock_begin max levels qid (put_itc w qid (enter_words x q))
]

-- `q_send` once its stage has returned `rc`.
unfoldable pub q_sent : (max qid : ℕ) → Status → World → Outcome (Status × World)
unfolding check_stage
q_sent max qid rc w = check_stage max qid w >>= λ w'. done (rc, w')

-- `q_vreceive` up to the wait of its stage.
unfoldable pub q_vreceive :
    (max qid : ℕ) → IpcFlags → (timeout now buf_len : ℕ) → World → Outcome (Locking × World)
q_vreceive max qid flags timeout now buf_len w = elim (w.itc_array qid) [
  | none ↦ done (returned err_objdel, w)
  | some q ↦ elim (refuse is_v_queue flags.nowait q) [
    | some s ↦ done (returned s, w)
    | none ↦
        if ltb q.max_sizeof_m buf_len
        then done (returned err_bufsiz, w)
        else lock_begin max qid timeout now w
  ]
]

-- `q_vreceive` once its stage has returned `rc`: the bytes at `mb`, and `s`. The message is freed, and
-- its pointer stays.
unfoldable pub q_vreceived :
    (max qid : ℕ) → Status → World → Outcome (Status × Option (List ℕ × ℕ) × World)
unfolding check_stage
q_vreceived max qid rc w = check_stage max qid w >>= λ w'.
    if is_ok rc
    then with_itc w' qid (λ q. elim (q.qv q.mout_idx).mb [
      | none ↦ hangs
      | some bytes ↦ done (tk_ok, some (bytes, (q.qv q.mout_idx).s), put_itc w' qid (take_words q))
    ])
    else done (rc, none, w')

-- The pointer that `malloc` returns is written in the place `i` of a queue.
abbrev pub set_mb : ℕ → Option (List ℕ) → Itc → Itc
set_mb i mb q = record q { qv = update q.qv i (record (q.qv i) { mb = mb }) }

-- The bytes are copied to where the pointer of the queue points.
abbrev pub copy_message : (msg : List ℕ) → (msg_len : ℕ) → Itc → Itc
copy_message msg msg_len q = record q {
  qv = update q.qv q.min_idx (record { mb = some msg; s = msg_len });
  min_idx = (q.min_idx + 1) % q.sizeof_q;
}

-- The copy of `q_vsend` and its stage. Without a place to copy to there is no result.
unfoldable pub vsend_copy :
    (max levels qid : ℕ) → (msg : List ℕ) → (msg_len : ℕ) → World → Outcome (Locking × World)
vsend_copy max levels qid msg msg_len w = with_itc w qid (λ q. elim (q.qv q.min_idx).mb [
  | none ↦ hangs
  | some old ↦ unlock_begin max levels qid (put_itc w qid (copy_message msg msg_len q))
])

-- `q_vsend` up to the wait of its stage. It writes the new pointer in `__itc_array[__itc_idx]`, the
-- place that a search for an empty one looked at last, and not in the queue `qid`. If no queue of
-- this kind is there, the write has no result. `msg` are the `msg_len + 1` bytes.
unfoldable pub q_vsend :
    (max levels qid : ℕ)
    → (malloc_ok : Bool) → (msg : List ℕ) → (msg_len : ℕ) → World
    → Outcome (Locking × World)
unfolding vsend_copy
q_vsend max levels qid malloc_ok msg msg_len w = elim (w.itc_array qid) [
  | none ↦ done (returned err_objdel, w)
  | some q ↦
      if not (is_v_queue q.b_type)
      then done (returned err_objtype, w)
      else if is_full q
      then done (returned err_full, w)
      else with_itc w w.itc_idx (λ last.
        if not (is_v_queue last.b_type)
        then hangs
        else if malloc_ok
        then vsend_copy max levels qid msg msg_len
            (put_itc w w.itc_idx (set_mb q.min_idx (some []) last))
        else done (returned err_nomem, put_itc w w.itc_idx (set_mb q.min_idx none last)))
]

-- `q_vsend` once its stage has returned `rc`.
unfoldable pub q_vsent : (max qid : ℕ) → Status → World → Outcome (Status × World)
unfolding check_stage
q_vsent max qid rc w = check_stage max qid w >>= λ w'. done (rc, w')
