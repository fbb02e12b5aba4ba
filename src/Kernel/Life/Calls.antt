-- ===== src/Kernel/Life/Calls.antt =====
-- The other calls of src/tk.c that keep the rows in order: a change of priority, a join, a sleep, a
-- detachment, the end of a thread, and the two halves of a creation.
use tinker.Base.{
  ℕ, ◌+◌, ◌<◌, ◌≡◌, ◌≢◌, refl, subst, inl, inr, Bool, true, false, Option, none, some, ◌==◌,
  Bool-cases, arith,
}
use tinker.Kernel.State.{
  Tuning, Kernel, done, Status, tk_ok, einval, put_tcb, zombi_only, >>=-eq-done, ◌>>=◌,
}
use tinker.Kernel.Family.{opt_eq, try_detach_parent, detach}
use tinker.Kernel.Threads.{remove_slot}
use tinker.Kernel.Wait.{
  Joining, join_zombie, join_block, join_begin, msleep, change_error, append_slot, change_prio,
}
use tinker.Kernel.Boot.{destructor}
use tinker.Kernel.Rows.Defs.{procs, IsSane, RowsOk}
use tinker.Kernel.Rows.Place.{SameRows, SameRows-trans}
use tinker.Kernel.Rows.Kin.{detach_children-SameRows, try_detach_parent-SameRows}
use tinker.Kernel.Keep.Prio.{change_prio-RowsOk}
use tinker.Kernel.Life.Face.{
  Spares, Spares-refl, Spares-trans, detach_children-Spares, try_detach_parent-Spares,
  remove_slot-Spares,
}
use tinker.Kernel.Life.Orderly.{
  is_apart, IsOrderly, SparesApart, Keeps, Keeps-refl, spared-IsOrderly, SameRows-IsOrderly,
  apart-ne,
}

module _ {cfg : Tuning} (sane : IsSane cfg) (out : ℕ → Bool) where
  -- A call that the rows do not see.
  pub unseen-Keeps :
      {k k' : Kernel}
      → IsOrderly cfg out k
      → SameRows k k'
      → SparesApart out k k'
      → Keeps cfg out k k'
  unseen-Keeps ok same spared = (SameRows-IsOrderly sane out ok same spared, spared)

  unchanged-Keeps : {k k' : Kernel} → IsOrderly cfg out k → k ≡ k' → Keeps cfg out k k'
  unchanged-Keeps {k} ok e = subst (Keeps cfg out k) e (Keeps-refl sane out k ok)

  pub try_detach_parent-Keeps :
      (t : ℕ) (force : Bool) (k : Kernel) {r : Bool × Kernel}
      → IsOrderly cfg out k
      → try_detach_parent t force k ≡ done r
      → Keeps cfg out k r.1
  try_detach_parent-Keeps t force k ok e =
      unseen-Keeps ok (try_detach_parent-SameRows t force k e)
        (λ s a. try_detach_parent-Spares s t force k e)

  pub msleep-Keeps :
      (ms us : ℕ) (k : Kernel) → IsOrderly cfg out k → Keeps cfg out k (msleep ms us k)
  unfolding msleep
  msleep-Keeps ms us k ok =
      unseen-Keeps ok (record { schedule = refl; rr = refl; seats = λ s. ground arith })
        (λ s a. record { same = ground arith; latest = refl })

  join_zombie-Keeps :
      (pid : ℕ) (k : Kernel) {r : Joining × Kernel}
      → IsOrderly cfg out k
      → join_zombie pid k ≡ done r
      → Keeps cfg out k r.1
  unfolding join_zombie
  join_zombie-Keeps pid k ok e =
      let d =
        >>=-eq-done (try_detach_parent pid true k)
          (λ (q : Bool × Kernel). done (Joining.returned tk_ok (some (k.pool pid).retval), q.1))
          e in
      subst (Keeps cfg out k) (cc (d.2)) (try_detach_parent-Keeps pid true k ok d.1)

  pub join_begin-Keeps :
      (pid : ℕ) (k : Kernel) {r : Joining × Kernel}
      → IsOrderly cfg out k
      → join_begin pid k ≡ done r
      → Keeps cfg out k r.1
  unfolding join_begin join_block
  join_begin-Keeps pid k {r} ok e = elim (Bool-cases (opt_eq (k.pool pid).gid k.active)) [
    | inr stranger ↦ unchanged-Keeps ok (ground arith)
    | inl child ↦ elim (Bool-cases (k.pool pid).valid) [
      | inr gone ↦ unchanged-Keeps ok (ground arith)
      | inl live ↦ elim (Bool-cases (k.pool pid).state.zombi) [
        | inl dead ↦ join_zombie-Keeps pid k {r = r} ok (ground arith)
        | inr alive ↦ subst (Keeps cfg out k) (ground arith) (
            unseen-Keeps {k' = join_block pid k} ok
              (record { schedule = refl; rr = refl; seats = λ s. ground arith })
              (λ s a. record { same = ground arith; latest = refl }))
      ]
    ]
  ]

  pub detach-Keeps :
      (t : ℕ) (k : Kernel) {r : Status × Kernel}
      → IsOrderly cfg out k
      → detach t k ≡ done r
      → Keeps cfg out k r.1
  unfolding detach
  detach-Keeps t k {r} ok e = elim (Bool-cases (k.pool t).valid) [
    | inr gone ↦ unchanged-Keeps ok (ground arith)
    | inl live ↦ settle (k.pool t).gid (rw live at e)
  ]
    where
      settle :
          (g : Option ℕ)
          → (elim g [
            | some x ↦ done (einval, k)
            | none ↦ try_detach_parent t true k >>= λ q. done (tk_ok, q.1)
          ])
            ≡ done r
          → Keeps cfg out k r.1
      settle (some x) h = unchanged-Keeps ok (cc)
      settle none h =
          let d =
            >>=-eq-done (try_detach_parent t true k) (λ (q : Bool × Kernel). done (tk_ok, q.1)) h in
          subst (Keeps cfg out k) (cc (d.2)) (try_detach_parent-Keeps t true k ok d.1)

  pub destructor-Keeps :
      (retval : ℕ) (k : Kernel)
      → is_apart out k.active ≡ false
      → IsOrderly cfg out k
      → Keeps cfg out k (destructor cfg retval k)
  unfolding destructor
  destructor-Keeps retval k a ok =
      let ended : Kernel =
        put_tcb k k.active (record (k.pool k.active) { state = zombi_only; retval = retval }) in
      unseen-Keeps ok
        (SameRows-trans {l = ended}
          (record { schedule = refl; rr = refl; seats = λ s. ground arith })
          (detach_children-SameRows cfg k.active ended))
        (λ s b.
          Spares-trans {l = ended}
            (record { same = ground (arith, apart-ne sane out s k.active b a); latest = refl })
            (detach_children-Spares s cfg k.active ended))

  -- A row that the thread moves to has room for one more.
  pub change_prio-Keeps :
      (t p : ℕ) (k : Kernel) {r : Bool × Kernel}
      → t < cfg.max_threads
      → is_apart out t ≡ false
      → procs k p + 1 < cfg.max_threads_at_prio
      → IsOrderly cfg out k
      → change_prio cfg t p k ≡ done r
      → Keeps cfg out k r.1
  unfolding change_prio
  change_prio-Keeps t p k {r} small a room ok e = (
    spared-IsOrderly sane out ok (subst (λ (q : Bool × Kernel). RowsOk cfg out q.1) same moved.3)
        spared,
    spared,
  )
    where
      no_error : (change_error cfg t p k == 0) ≡ true
      no_error = ground (arith)

      live : (k.pool t).valid ≡ true
      live = unfold change_error in ground (arith, no_error)

      moved :
          (y : Bool) × (k' : Kernel) × (change_prio cfg t p k ≡ done (y, k'))
          × RowsOk cfg out k'
          × ((k'.pool t).prio ≡ p)
          × ((s : ℕ) → s ≢ t → (k'.pool s).prio ≡ (k.pool s).prio)
      moved =
          change_prio-RowsOk k t p sane ok.rows
            (record {
              small = small;
              live = live;
              here = ground (arith, a);
              other = ground (arith, a);
            })
            (unfold change_error in ground (arith, no_error)) room

      same : (moved.0, moved.1) ≡ r
      same = cc (moved.2)

      spared : SparesApart out k r.1
      spared s b = elim (Bool-cases ((k.pool t).prio == p)) [
        | inl stays ↦ subst (Spares s k) (ground (arith, no_error)) (Spares-refl s k)
        | inr goes ↦
            let cut = remove_slot-Spares s cfg (k.pool t).prio (k.pool t).idx k in
            let other : s ≢ t = apart-ne sane out s t b a in
            let last : append_slot t p (remove_slot cfg (k.pool t).prio (k.pool t).idx k) ≡ r.1 =
              ground (arith, no_error) in
            subst (Spares s k) last (
              Spares-trans cut
                (unfold append_slot in record { same = ground arith; latest = ground arith }))
      ]
