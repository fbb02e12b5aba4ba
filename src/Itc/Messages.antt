-- ===== src/Itc/Messages.antt =====
-- The queues of src/tk_itc.c on the list of their messages.
use tinker.Base.{
  ℕ, suc, ◌+◌, ◌%◌, ◌<◌, ◌≡◌, ◌≢◌, sym, ap, ◌∙◌, ◌⊎◌, inl, inr, true, false, ◌&&◌, not, Option,
  none, some, List, [], update, ltb, leb, if◌then◌else◌, Bool-cases, mod-lt, mod-eq_of_lt, arith,
  update_ne, update_self, ltb→lt, ltb→le, ℤ, pos, negsuc, inc_ℤ, dec_ℤ, is_pos,
}
use tinker.Kernel.State.{done, hangs, ◌>>=◌, tk_ok, err_full}
use tinker.Itc.State.{IpcFlags, v_queue, is_s_queue, is_v_queue, Words, Itc, World, put_itc}
use tinker.Itc.Stages.{returned, lock_begin, unlock_begin, with_itc}
use tinker.Itc.Queue.{
  is_full, enter_words, take_words, q_send, q_sent, q_receive, q_received, set_mb, copy_message,
  vsend_copy, q_vsend,
}
use tinker.Itc.Ring.{place, place_inj, place_next, place_shift}
use tinker.Itc.Idle.{message, IsQueue, check_stage-nobody, third, second, unlock_begin-nobody}

-- A message sent to a queue of `c` messages with room for one more is accepted: it stands behind the
-- others, which keep their order. A full queue refuses it with ERR_FULL and stays as it was.
pub q_send_lem :
    (max levels qid : ℕ) (x : Words) (w : World) (q : Itc) (c : ℕ)
    → w.itc_array qid ≡ some q
    → IsQueue q c
    → ((c < q.sizeof_q)
        × (w' : World) × (q' : Itc) × (q_send max levels qid x w ≡ done (returned tk_ok, w'))
        × (q_sent max qid tk_ok w' ≡ done (tk_ok, w'))
        × (w'.itc_array qid ≡ some q')
        × IsQueue q' (c + 1)
        × (message q' c ≡ x)
        × ((j : ℕ) → j < c → message q' j ≡ message q j))
      ⊎ ((c ≡ q.sizeof_q) × (q_send max levels qid x w ≡ done (returned err_full, w)))
unfolding q_send q_sent
q_send_lem max levels qid x w q c here ok = elim (Bool-cases (ltb c q.sizeof_q)) [
  | inl less ↦
      let room : c < q.sizeof_q = ltb→lt _ _ less in
      inl (
        room,
        put_itc (put_itc w qid (enter_words x q)) qid q',
        q',
        rw (here, q_send)
              (third _ _ _ (is_s_queue q.b_type) (is_full q) (ap is_s_queue ok.kind) (roomy room))
            ∙ unlocked,
        ap (λ o. o >>= λ r. done (tk_ok, r))
            (check_stage-nobody max qid (c + 1) (put_itc sent qid q') q'
              (update_self sent.itc_array qid (some q')) token ok.nobody),
        update_self sent.itc_array qid (some q'),
        record {
          kind = ok.kind;
          token = token;
          fits = omega arith;
          first = ok.first;
          last = ap (λ y. (y + 1) % q.sizeof_q) ok.last ∙ place_next q.sizeof_q q.mout_idx c;
          nobody = ok.nobody;
        },
        ap (λ y. update q.q y x (place q.sizeof_q q.mout_idx c)) ok.last
            ∙ update_self q.q (place q.sizeof_q q.mout_idx c) x,
        λ j a.
            update_ne q.q q.min_idx (place q.sizeof_q q.mout_idx j) x
              (λ e. apart j a (e ∙ ok.last) room),
      )
  | inr more ↦
      let full : c ≡ q.sizeof_q = omega (arith, ok.fits, ltb→le _ _ more) in
      inr (
        full,
        rw (here, q_send)
            (second _ _ _ (is_s_queue q.b_type) (is_full q) (ap is_s_queue ok.kind) (filled full)),
      )
]
  where
    q' : Itc
    q' = record (enter_words x q) { token = inc_ℤ q.token }

    token : q'.token ≡ pos (c + 1)
    token = ap inc_ℤ ok.token ∙ ap pos {x = suc c} {y = c + 1} (omega arith)

    owed :
        (t : ℤ)
        → t ≡ pos c
        → (elim t [ pos n ↦ ltb 0 n && leb q.sizeof_q n | negsuc n ↦ false ]) ≡ leb q.sizeof_q c
    owed t e =
        ap (λ (s : ℤ). elim s [ pos n ↦ ltb 0 n && leb q.sizeof_q n | negsuc n ↦ false ]) e
        ∙ ground (arith, ok.first)

    roomy : c < q.sizeof_q → is_full q ≡ false
    roomy h = owed q.token ok.token ∙ ground arith

    filled : c ≡ q.sizeof_q → is_full q ≡ true
    filled h = owed q.token ok.token ∙ ground arith

    sent : World
    sent = put_itc w qid (enter_words x q)

    unlocked : unlock_begin max levels qid sent ≡ done (returned tk_ok, put_itc sent qid q')
    unlocked =
        unlock_begin-nobody max levels qid c sent (enter_words x q)
          (update_self w.itc_array qid (some (enter_words x q))) ok.token

    apart :
        (j : ℕ)
        → j < c
        → place q.sizeof_q q.mout_idx j ≡ place q.sizeof_q q.mout_idx c
        → c < q.sizeof_q
        → ⊥
    apart j a e room =
        omega (arith, place_inj q.sizeof_q q.mout_idx j c ok.first (omega arith) room e)

-- A positive token goes down.
lock_begin-owned :
    (max qid timeout now : ℕ) (w : World) (q : Itc)
    → w.itc_array qid ≡ some q
    → is_pos q.token ≡ true
    → lock_begin max qid timeout now w
      ≡ done (returned tk_ok, put_itc w qid (record q { token = dec_ℤ q.token }))
unfolding lock_begin
lock_begin-owned max qid timeout now w q here e = rw (here, with_itc, e)

oldest : (q : Itc) → q.mout_idx < q.sizeof_q → q.mout_idx ≡ place q.sizeof_q q.mout_idx 0
oldest q h =
    sym (mod-eq_of_lt h)
    ∙ ap (λ x. x % q.sizeof_q) {x = q.mout_idx} {y = q.mout_idx + 0} (omega arith)

-- A queue of `c + 1` messages gives the oldest one at once, whatever the time limit; the others keep
-- their order.
pub q_receive_lem :
    (max qid timeout now : ℕ) (flags : IpcFlags) (w : World) (q : Itc) (c : ℕ)
    → w.itc_array qid ≡ some q
    → IsQueue q (c + 1)
    → (w1 : World) × (w' : World) × (q' : Itc) × (q_receive max qid flags timeout now w
        ≡ done (returned tk_ok, w1))
      × (q_received max qid tk_ok w1 ≡ done (tk_ok, some (message q 0), w'))
      × (w'.itc_array qid ≡ some q')
      × IsQueue q' c
      × ((j : ℕ) → message q' j ≡ message q (j + 1))
unfolding q_receive q_received
q_receive_lem max qid timeout now flags w q c here ok =
    let q1 : Itc = record q { token = dec_ℤ q.token } in
    let w1 : World = put_itc w qid q1 in
    let token : q.token ≡ pos (suc c) = ok.token ∙ ap pos {x = c + 1} {y = suc c} (omega arith) in
    (
      w1,
      put_itc w1 qid (take_words q1),
      take_words q1,
      rw (here, q_receive)
          (ap
              (λ s. elim s [
                | some r ↦ done (returned r, w)
                | none ↦ lock_begin max qid timeout now w
              ])
              (third _ _ none (is_s_queue q.b_type) (not (is_pos q.token) && flags.nowait)
                (ap is_s_queue ok.kind) (ap (λ t. not (is_pos t) && flags.nowait) token))
            ∙ lock_begin-owned max qid timeout now w q here (ap is_pos token)),
      ap
            (λ o. o >>= λ r.
              with_itc r qid
                (λ x. done (tk_ok, some (x.q x.mout_idx), put_itc r qid (take_words x))))
            (check_stage-nobody max qid c w1 q1 (update_self w.itc_array qid (some q1))
              (ap dec_ℤ token) ok.nobody)
          ∙ ap
              (λ (o : Option Itc). elim o [
                | none ↦ hangs
                | some x ↦ done (tk_ok, some (x.q x.mout_idx), put_itc w1 qid (take_words x))
              ])
              (update_self w.itc_array qid (some q1))
          ∙ ap (λ y. done (tk_ok, some (q.q y), put_itc w1 qid (take_words q1)))
              (oldest q ok.first),
      update_self w1.itc_array qid (some (take_words q1)),
      record {
        kind = ok.kind;
        token = ap dec_ℤ token;
        fits = omega (arith, ok.fits);
        first = mod-lt (q.mout_idx + 1) (omega (arith, ok.fits));
        last = ok.last ∙ sym (place_shift q.sizeof_q q.mout_idx c);
        nobody = ok.nobody;
      },
      λ j. ap q.q (place_shift q.sizeof_q q.mout_idx j),
    )

-- A message sent by `q_vsend` to a queue of messages that is not full, whose next place holds NULL, and
-- that is not the queue of messages in `__itc_array[__itc_idx]`, has no result even if there is memory:
-- the memory is put in that other queue, and the copy goes to NULL.
pub q_vsend_elsewhere :
    (max levels qid : ℕ) (msg : List ℕ) (msg_len : ℕ) (w : World) (q last : Itc)
    → w.itc_array qid ≡ some q
    → q.b_type ≡ v_queue
    → is_full q ≡ false
    → (q.qv q.min_idx).mb ≡ none
    → qid ≢ w.itc_idx
    → w.itc_array w.itc_idx ≡ some last
    → last.b_type ≡ v_queue
    → q_vsend max levels qid true msg msg_len w ≡ hangs
unfolding q_vsend
q_vsend_elsewhere max levels qid msg msg_len w q last here kind room fresh apart there kind' =
    rw (here, q_vsend) (third _ _ _ (is_v_queue q.b_type) (is_full q) (ap is_v_queue kind) room)
    ∙ given
  where
    w2 : World
    w2 = put_itc w w.itc_idx (set_mb q.min_idx (some []) last)

    still : w2.itc_array qid ≡ some q
    still =
        update_ne w.itc_array w.itc_idx qid (some (set_mb q.min_idx (some []) last)) apart ∙ here

    copied : vsend_copy max levels qid msg msg_len w2 ≡ hangs
    copied =
        unfold vsend_copy in
        (rw (still, with_itc)
          (ap
            (λ (m : Option (List ℕ)). elim m [
              | none ↦ hangs
              | some old ↦ unlock_begin max levels qid (put_itc w2 qid (copy_message msg msg_len q))
            ])
            fresh))

    given :
        with_itc w w.itc_idx (λ l.
          if not (is_v_queue l.b_type)
          then hangs
          else vsend_copy max levels qid msg msg_len
              (put_itc w w.itc_idx (set_mb q.min_idx (some []) l)))
        ≡ hangs
    given =
        rw (there, with_itc)
          (ap (λ k. if not (is_v_queue k) then hangs else vsend_copy max levels qid msg msg_len w2)
              kind'
            ∙ copied)
