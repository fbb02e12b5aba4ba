-- ===== src/Itc/Exchange.antt =====
-- `lock_stage` and `unlock_stage` of src/tk_itc.c on the list of the waiting threads.
use tinker.Base.{
  ℕ, zero, suc, ◌+◌, ◌-◌, ◌%◌, ◌<◌, ◌≡◌, ◌≢◌, sym, ap, ◌∙◌, ◌⊎◌, inl, inr, true, false, Option,
  none, some, update, ltb, ◌==◌, if◌then◌else◌, Bool-cases, mod-lt, mod-eq_of_lt, arith, update_ne,
  update_self, ==→eq, ltb→lt, ltb→le, ℤ, pos, negsuc, inc_ℤ, dec_ℤ, abs, is_neg, is_pos,
}
use tinker.Kernel.State.{done, tk_ok, err_blocklimit}
use tinker.Itc.State.{Itc, World, put_itc, set_tcb}
use tinker.Itc.Stages.{
  returned, waiting, blocked_tcb, unblocked, enter_ring, lock_begin, first_blocked, unlock_fifo,
  unlock_prior, unlock_begin, with_itc,
}
use tinker.Itc.Ring.{place, waiter, IsRing, place_inj, place_next, place_shift}
use tinker.Itc.Removal.{inc_owed, inc_owns}

dec_owed : (n : ℕ) → n ≢ 0 → dec_ℤ (negsuc (n - 1)) ≡ negsuc (n + 1 - 1)
dec_owed n h = ap negsuc {x = suc (n - 1)} {y = n + 1 - 1} (omega arith)

module _ (max : ℕ) (q : Itc) (n : ℕ) (ok : IsRing max q n) where
  -- The token of a ring from which nothing can be taken.
  token_of : is_pos q.token ≡ false → (abs q.token ≡ n) × (dec_ℤ q.token ≡ negsuc (n + 1 - 1))
  token_of h = elim (Bool-cases (n == 0)) [
    | inl none_waits ↦ settle q.token h (ok.owns (==→eq _ _ none_waits)) (==→eq _ _ none_waits)
    | inr some_wait ↦ (
      ap abs (ok.owed (ground arith)) ∙ ground arith,
      ap dec_ℤ (ok.owed (ground arith)) ∙ dec_owed n (ground arith),
    )
  ]
    where
      settle :
          (t : ℤ)
          → is_pos t ≡ false
          → is_neg t ≡ false
          → n ≡ 0
          → (abs t ≡ n) × (dec_ℤ t ≡ negsuc (n + 1 - 1))
      settle (pos zero) a b e = (sym e, ap negsuc {x = 0} {y = n + 1 - 1} (omega arith))
      settle (pos (suc m)) a b e = absurd (ground arith)
      settle (negsuc m) a b e = absurd (ground arith)

  pub enter_ring-IsRing :
      (me : ℕ)
      → is_pos q.token ≡ false
      → n + 1 < max
      → IsRing max (enter_ring max me q) (n + 1)
        × (waiter max (enter_ring max me q) n ≡ some me)
        × ((j : ℕ) → j < n → waiter max (enter_ring max me q) j ≡ waiter max q j)
  enter_ring-IsRing me h room = (
    record {
      out_small = ok.out_small;
      few = room;
      end = ap (λ x. (x + 1) % max) ok.end ∙ place_next max q.out_idx n;
      owed = λ a. (token_of h).1;
      owns = λ e. absurd (omega arith);
    },
    ap (λ x. update q.blocked_procs x (some me) (place max q.out_idx n)) ok.end
        ∙ update_self q.blocked_procs (place max q.out_idx n) (some me),
    λ j a.
        update_ne q.blocked_procs q.in_idx (place max q.out_idx j) (some me)
          (λ e. apart j a (e ∙ ok.end)),
  )
    where
      apart : (j : ℕ) → j < n → place max q.out_idx j ≢ place max q.out_idx n
      apart j a e =
          absurd (
            omega
              (arith, place_inj max q.out_idx j n ok.out_small (omega (arith, ok.few)) ok.few e))

-- `lock_stage` at an object where `n` threads wait. With a positive token it takes one and returns;
-- else, with room in the ring, the caller waits behind the others, who keep their order, and
-- otherwise nothing changes and the call returns ERR_BLOCKLIMIT.
pub lock_begin_lem :
    (max qid timeout now : ℕ) (w : World) (q : Itc) (n : ℕ)
    → w.itc_array qid ≡ some q
    → IsRing max q n
    → ((is_pos q.token ≡ true)
        × (lock_begin max qid timeout now w
            ≡ done (returned tk_ok, put_itc w qid (record q { token = dec_ℤ q.token }))))
      ⊎ ((is_pos q.token ≡ false)
          × (n + 1 < max)
          × (mark : Option ℕ) × (w' : World) × (q' : Itc) × (lock_begin max qid timeout now w
              ≡ done (waiting mark, w'))
          × (w'.itc_array qid ≡ some q')
          × IsRing max q' (n + 1)
          × (waiter max q' n ≡ some w.kernel.active)
          × ((j : ℕ) → j < n → waiter max q' j ≡ waiter max q j)
          × ((w'.kernel.pool w.kernel.active).state.queue ≡ true))
      ⊎ ((is_pos q.token ≡ false)
          × (n + 1 ≡ max)
          × (lock_begin max qid timeout now w ≡ done (returned err_blocklimit, w)))
unfolding lock_begin
lock_begin_lem max qid timeout now w q n here ok = elim (Bool-cases (is_pos q.token)) [
  | inl h ↦ inl (h, rw (here, with_itc, h))
  | inr h ↦ elim (Bool-cases (ltb (n + 1) max)) [
    | inl less ↦
        let entered = enter_ring-IsRing max q n ok w.kernel.active h (ltb→lt _ _ less) in
        inr (
          inl (
            h,
            ltb→lt _ _ less,
            (if timeout == 0 then none else some (enter_ring max w.kernel.active q).in_idx),
            set_tcb (put_itc w qid (enter_ring max w.kernel.active q)) w.kernel.active
                (blocked_tcb now timeout (w.kernel.pool w.kernel.active)),
            enter_ring max w.kernel.active q,
            rw (here, with_itc, h) (ground (arith, (token_of max q n ok h).0, less)),
            ground arith,
            entered.0,
            entered.1,
            entered.2,
            ground arith,
          ))
    | inr more ↦
        let full : n + 1 ≡ max = omega (arith, ok.few, ltb→le _ _ more) in
        inr
          (inr (h, full, rw (here, with_itc, h) (ground (arith, (token_of max q n ok h).0, full))))
  ]
]

-- `unlock_stage` in the order of arrival, at an object where `n + 1` threads wait and the first of
-- them, `t`, is still blocked: it is made ready, leaves the ring, and the others keep their order.
pub unlock_begin_fifo :
    (max levels qid : ℕ) (w : World) (q : Itc) (n t : ℕ)
    → w.itc_array qid ≡ some q
    → IsRing max q (n + 1)
    → q.flags.prior ≡ false
    → waiter max q 0 ≡ some t
    → (w.kernel.pool t).state.queue ≡ true
    → (w' : World) × (q' : Itc) × (unlock_begin max levels qid w ≡ done (waiting none, w'))
      × (w'.itc_array qid ≡ some q')
      × IsRing max q' n
      × ((j : ℕ) → waiter max q' j ≡ waiter max q (j + 1))
      × (w'.kernel.pool t ≡ unblocked (w.kernel.pool t))
      × ((s : ℕ) → s ≢ t → w'.kernel.pool s ≡ w.kernel.pool s)
unfolding unlock_begin
unlock_begin_fifo max levels qid w q n t here ok fifo head asleep = (
  put_itc (set_tcb w t (unblocked (w.kernel.pool t))) qid q',
  q',
  rw (here, with_itc, owes)
      (ap (λ b. if b then unlock_prior max levels qid q w else unlock_fifo max qid q w) fifo
        ∙ unfold unlock_fifo in rw first),
  ground arith,
  record {
    out_small = mod-lt (q.out_idx + 1) (omega (arith, ok.few));
    few = omega (arith, ok.few);
    end = ok.end ∙ sym (place_shift max q.out_idx n);
    owed = λ h. ap inc_ℤ token ∙ inc_owed n h;
    owns = λ h. ap (λ x. is_neg (inc_ℤ x)) token ∙ inc_owns n h;
  },
  λ j. ap q.blocked_procs (place_shift max q.out_idx j),
  ground arith,
  λ s h. ground arith,
)
  where
    q' : Itc
    q' = record q { out_idx = (q.out_idx + 1) % max; token = inc_ℤ q.token }

    token : q.token ≡ negsuc (n + 1 - 1)
    token = ok.owed (omega arith)

    owes : is_neg q.token ≡ true
    owes = ap is_neg token

    at_head : q.blocked_procs q.out_idx ≡ some t
    at_head =
        ap q.blocked_procs (
          sym (mod-eq_of_lt ok.out_small)
          ∙ ap (λ x. x % max) {x = q.out_idx} {y = q.out_idx + 0} (omega arith))
        ∙ head

    first : first_blocked max (abs q.token) q w.kernel.pool ≡ done (t, q')
    first =
        ap (λ x. first_blocked max (abs x) q w.kernel.pool) token
        ∙ unfold first_blocked in rw (at_head, asleep)
