-- ===== src/Kernel/Rows/Remove.antt =====
-- Taking a thread out of its row keeps the schedule and the control blocks in agreement.
use tinker.Base.{
  ℕ, ◌+◌, ◌-◌, ◌<◌, ◌≡◌, sym, subst, ◌≢◌, ◌∙◌, ap, inl, inr, Bool, true, false, ◌&&◌, ltb, leb,
  ◌==◌, if◌then◌else◌, Bool-cases, ltb→lt, ltb→le, ne→==, arith,
}
use tinker.Kernel.State.{Tuning, Tcb, Kernel}
use tinker.Kernel.Threads.{next_slot, remove_slot}
use tinker.Kernel.Rows.Defs.{procs, IsSane, SlotOk, RowsOk, also}
use tinker.Kernel.Rows.Shift.{
  but_idx, schedule-shift_slots, idx-shift_slots_ne, idx-shift_slots_eq, but_idx-shift_slots,
  rest-shift_slots,
}

module _ (cfg : Tuning) (sane : IsSane cfg) (out : ℕ → Bool) (k : Kernel) (ok : RowsOk cfg out k)
    (t : ℕ) (small : t < cfg.max_threads) (live : (k.pool t).valid ≡ true) (here : out t ≡ false)
    (other : t ≢ 0) where
  abbrev p : ℕ
  p = (k.pool t).prio

  abbrev i : ℕ
  i = (k.pool t).idx

  abbrev after : Kernel
  after = remove_slot cfg p i k

  p-lt : p < cfg.max_prio_levels
  p-lt = ok.level t small live here

  i-lt : i < procs k p
  i-lt = ok.inside t small live here other

  next_slot-row : (j : ℕ) → j < procs k p → next_slot cfg k p j ≡ k.schedule p (j + 1)
  unfolding next_slot
  next_slot-row j h = ground (arith, ok.room p p-lt)

  pub procs-after : (q : ℕ) → procs after q ≡ (if q == p then procs k p - 1 else procs k q)
  unfolding remove_slot
  procs-after q = ground (
    arith,
    ok.room p p-lt,
    i-lt,
    sane,
    ap (λ (m : Kernel). (m.rr q).procs_at_prio) (rest-shift_slots cfg p (procs k p - i) i k),
    ap (λ (m : Kernel). (m.rr p).procs_at_prio) (rest-shift_slots cfg p (procs k p - i) i k),
  )

  pub schedule-after :
      (q j : ℕ)
      → after.schedule q j ≡ (
          if q == p && (leb i j && ltb j (procs k p)) then k.schedule p (j + 1) else k.schedule q j)
  unfolding remove_slot
  schedule-after q j =
      ground (arith, i-lt, schedule-shift_slots cfg p (procs k p - i) i k q j, next_slot-row j)

  pub but_idx-after : (s : ℕ) → but_idx (after.pool s) ≡ but_idx (k.pool s)
  unfolding remove_slot
  but_idx-after s = but_idx-shift_slots cfg p (procs k p - i) i k s

  -- A thread that the loop writes stands one place further on, or is the root thread.
  written-ne :
      (q j j' : ℕ)
      → q < cfg.max_prio_levels
      → j < procs k q
      → k.schedule q j ≢ 0
      → j' < procs k p
      → (q ≡ p → j' + 1 ≢ j)
      → next_slot cfg k p j' ≢ k.schedule q j
  written-ne q j j' a b nz c apart e =
      let f : k.schedule p (j' + 1) ≡ k.schedule q j = sym (next_slot-row j' c) ∙ e in
      elim (Bool-cases (ltb (j' + 1) (procs k p))) [
        | inl inner ↦
            ground (arith, f, ok.slot p (j' + 1) p-lt (ltb→lt _ _ inner), ok.slot q j a b, apart)
        | inr last ↦
            absurd (
              nz
                (sym f ∙ ok.tail p (j' + 1) p-lt (ltb→le _ _ last) (omega (arith, ok.room p p-lt))))
      ]

  idx-after :
      (q j : ℕ)
      → q < cfg.max_prio_levels
      → j < procs k q
      → k.schedule q j ≢ 0
      → (after.pool (k.schedule q j)).idx ≡ (if q == p && ltb i j then j - 1 else j)
  unfolding remove_slot
  idx-after q j a b nz = elim (Bool-cases (q == p && ltb i j)) [
    | inl moved ↦ rw moved (
        idx-shift_slots_eq cfg p (procs k p - i) i k (k.schedule q j) (j - 1) (ground arith)
          (ground arith) (ground (arith, next_slot-row (j - 1)))
          (λ j' x y. written-ne q j j' a b nz (omega (arith, i-lt)) (λ e. omega arith)))
    | inr stays ↦ rw stays (
        idx-shift_slots_ne cfg p (procs k p - i) i k (k.schedule q j)
          (λ j' x y. written-ne q j j' a b nz (omega (arith, i-lt)) (λ e. ground arith))
        ∙ (ok.slot q j a b).place nz)
  ]

  -- The last round writes the root thread, whose number fills the unused end of the row.
  pub idx-root-after : (after.pool 0).idx ≡ procs k p - 1
  unfolding remove_slot
  idx-root-after =
      idx-shift_slots_eq cfg p (procs k p - i) i k 0 (procs k p - 1) (omega (arith, i-lt))
        (omega (arith, i-lt))
        (next_slot-row (procs k p - 1) (omega (arith, i-lt))
          ∙ ap (k.schedule p) {x = procs k p - 1 + 1} {y = procs k p} (omega (arith, i-lt))
          ∙ ok.tail p (procs k p) p-lt (omega arith) (ok.room p p-lt))
        (λ j x y. absurd (omega (arith, i-lt)))

  front-after : (q : ℕ) → q < cfg.max_prio_levels → (after.rr q).curr_idx ≡ 0
  unfolding remove_slot
  front-after q a = ground (
    arith,
    ok.front q a,
    ap (λ (m : Kernel). (m.rr q).curr_idx) (rest-shift_slots cfg p (procs k p - i) i k),
    ap (λ (m : Kernel). (m.rr p).curr_idx) (rest-shift_slots cfg p (procs k p - i) i k),
    ok.front p p-lt,
  )

  abbrev new_root : ℕ
  new_root = if (k.pool 0).prio == p && ltb i ok.root then ok.root - 1 else ok.root

  -- Where the thread of a live place stood before.
  abbrev old_place : ℕ → ℕ → ℕ
  old_place q j = if q == p && leb i j then j + 1 else j

  old_place-lt : (q j : ℕ) → j < procs after q → old_place q j < procs k q
  old_place-lt q j h = ground (arith, procs-after q)

  schedule-old_place :
      (q j : ℕ) → j < procs after q → after.schedule q j ≡ k.schedule q (old_place q j)
  schedule-old_place q j h = ground (arith, procs-after q, schedule-after q j)

  root-ne-gap : (k.pool 0).prio ≡ p → ok.root ≢ i
  root-ne-gap e f = ground (arith, ok.root_home, ok.home t small live here other)

  -- The removed thread stands in no live place.
  gone : (q j : ℕ) → SlotOk cfg out ok.root k q (old_place q j) t → ⊥
  gone q j so = ground (arith, so.place other, so.level)

  slot-after :
      (q j : ℕ)
      → q < cfg.max_prio_levels
      → j < procs after q
      → SlotOk cfg (also t out) new_root after q j (after.schedule q j)
  slot-after q j a b = rw (schedule-old_place q j b) (record {
    small = so.small;
    is_valid = ap (λ (c : Tcb). c.valid) (but_idx-after s) ∙ so.is_valid;
    own = ap (λ (c : Tcb). c.thid) (but_idx-after s) ∙ so.own;
    level = ap (λ (c : Tcb). c.prio) (but_idx-after s) ∙ so.level;
    listed =
        rw (ne→== s t (λ e. gone q j (subst (SlotOk cfg out ok.root k q (old_place q j)) e so)))
          so.listed;
    place = λ nz. idx-after q (old_place q j) a (old_place-lt q j b) nz ∙ back;
    root_place = λ z. root_back z (so.root_place z);
  })
    where
      s : ℕ
      s = k.schedule q (old_place q j)

      so : SlotOk cfg out ok.root k q (old_place q j) s
      so = ok.slot q (old_place q j) a (old_place-lt q j b)

      back : (if q == p && ltb i (old_place q j) then old_place q j - 1 else old_place q j) ≡ j
      back = ground arith

      root_back : s ≡ 0 → old_place q j ≡ ok.root → j ≡ new_root
      root_back z e = ground (arith, so.level, root-ne-gap)

  module _ (s : ℕ) (a : s < cfg.max_threads) (v : (after.pool s).valid ≡ true) where
    prio-after : (after.pool s).prio ≡ (k.pool s).prio
    prio-after = ap (λ (c : Tcb). c.prio) (but_idx-after s)

    valid-before : (k.pool s).valid ≡ true
    valid-before = sym (ap (λ (c : Tcb). c.valid) (but_idx-after s)) ∙ v

    module _ (o : also t out s ≡ false) where
      out-before : out s ≡ false
      out-before = ground arith

      not-removed : s ≢ t
      not-removed = ground arith

      module _ (nz : s ≢ 0) where
        home-before : k.schedule (k.pool s).prio (k.pool s).idx ≡ s
        home-before = ok.home s a valid-before out-before nz

        inside-before : (k.pool s).idx < procs k (k.pool s).prio
        inside-before = ok.inside s a valid-before out-before nz

        -- The new index of a thread that stays.
        idx-stays : (after.pool s).idx ≡ (
            if (k.pool s).prio == p && ltb i (k.pool s).idx
            then (k.pool s).idx - 1
            else (k.pool s).idx)
        idx-stays =
            subst
              (λ x. (after.pool x).idx ≡ (
                if (k.pool s).prio == p && ltb i (k.pool s).idx
                then (k.pool s).idx - 1
                else (k.pool s).idx))
              home-before
              (idx-after (k.pool s).prio (k.pool s).idx (ok.level s a valid-before out-before)
                inside-before (λ e. nz (sym home-before ∙ e)))

        apart : (k.pool s).prio ≡ p → (k.pool s).idx ≢ i
        apart e f = ground (arith, home-before, ok.home t small live here other, not-removed)

        inside-after : (after.pool s).idx < procs after (after.pool s).prio
        inside-after =
            rw (idx-stays, prio-after)
              (ground (arith, procs-after (k.pool s).prio, inside-before, apart, i-lt))

        home-after : after.schedule (after.pool s).prio (after.pool s).idx ≡ s
        home-after =
            rw (idx-stays, prio-after)
              (ground (
                arith,
                schedule-after (k.pool s).prio (
                    if (k.pool s).prio == p && ltb i (k.pool s).idx
                    then (k.pool s).idx - 1
                    else (k.pool s).idx),
                home-before,
                inside-before,
                apart,
              ))

  prio-root : (after.pool 0).prio ≡ (k.pool 0).prio
  prio-root = ap (λ (c : Tcb). c.prio) (but_idx-after 0)

  -- Without the thread `t`, the rows are in order again, its block included.
  pub remove_slot-RowsOk : RowsOk cfg (also t out) after
  remove_slot-RowsOk = record {
    root = new_root;
    room = λ q a. ground (arith, procs-after q, ok.room q a, ok.room p p-lt);
    front = λ q a. front-after q a;
    tail = λ q j a b c. ground (
      arith,
      procs-after q,
      schedule-after q j,
      ok.tail q j a,
      ok.tail p (j + 1) p-lt,
      i-lt,
      ok.room p p-lt,
    );
    slot = slot-after;
    level =
        λ s a v o. rw (prio-after s a v) (ok.level s a (valid-before s a v) (out-before s a v o));
    inside = inside-after;
    home = home-after;
    root_valid = ap (λ (c : Tcb). c.valid) (but_idx-after 0) ∙ ok.root_valid;
    root_listed = ground (arith, ok.root_listed);
    root_inside =
        rw prio-root
          (ground (arith, procs-after (k.pool 0).prio, ok.root_inside, root-ne-gap, i-lt));
    root_home = rw prio-root (
        ground (
          arith,
          schedule-after (k.pool 0).prio new_root,
          ok.root_home,
          ok.root_inside,
          root-ne-gap,
        ));
  }
