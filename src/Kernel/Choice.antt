-- ===== src/Kernel/Choice.antt =====
-- What `_tk_next_runable_thread` of src/tk.c chooses.
use mathlib.Core.Bool.{false≢true}
use tinker.Base.{
  ℕ, zero, suc, ◌≤◌, ◌<◌, ◌≡◌, ◌≢◌, refl, sym, ap, subst, ◌∙◌, ◌⊎◌, inl, inr, Bool, true, false,
  Option, none, Bool-cases, ltb→lt, ltb, arith,
}
use tinker.Kernel.State.{Tuning, Tcb, PrioStat, Kernel, done, is_ready}
use tinker.Kernel.Dispatch.{scan_levels, next_runable}
use tinker.Kernel.Scan.{runs, Idle, LevelsScanned, scan_levels_lem}
use tinker.Kernel.Rows.Defs.{procs, SlotOk, RowsOk}

-- `t` is ready, no ready thread is more urgent, and no ready thread stands before it in its row, the
-- root thread included. By the `Idx` of the blocks the same holds of the threads other than the root
-- thread, whose `Idx` may be wrong.
pub record BestIn (cfg : Tuning) (out : ℕ → Bool) (pool : ℕ → Tcb) (rr : ℕ → PrioStat)
    (schedule : ℕ → ℕ → ℕ) (t : ℕ) : Type 0 where
  pub stands :
      (j : ℕ) × (j < (rr (pool t).prio).procs_at_prio)
      × (schedule (pool t).prio j ≡ t)
      × ((i : ℕ) → i < j → is_ready (pool (schedule (pool t).prio i)).state ≡ false)
  pub live : (pool t).valid ≡ true
  pub ready : is_ready (pool t).state ≡ true
  pub urgent :
      (s : ℕ)
      → s < cfg.max_threads
      → (pool s).valid ≡ true
      → out s ≡ false
      → is_ready (pool s).state ≡ true
      → (pool t).prio ≤ (pool s).prio
  pub first :
      (s : ℕ)
      → s < cfg.max_threads
      → (pool s).valid ≡ true
      → out s ≡ false
      → is_ready (pool s).state ≡ true
      → (pool s).prio ≡ (pool t).prio
      → s ≢ 0
      → t ≢ 0
      → (pool t).idx ≤ (pool s).idx

abbrev pub IsBest : Tuning → (ℕ → Bool) → Kernel → ℕ → Type 0
IsBest cfg out k = BestIn cfg out k.pool k.rr k.schedule

-- No listed thread is ready.
abbrev pub NoneReady : Tuning → (ℕ → Bool) → (ℕ → Tcb) → Type 0
NoneReady cfg out pool =
    (s : ℕ)
    → s < cfg.max_threads
    → (pool s).valid ≡ true
    → out s ≡ false
    → is_ready (pool s).state ≡ false

module _ {cfg : Tuning} {out : ℕ → Bool} (k : Kernel) (ok : RowsOk cfg out k) where
  -- Every listed thread has a place.
  has_place :
      (s : ℕ)
      → s < cfg.max_threads
      → (k.pool s).valid ≡ true
      → out s ≡ false
      → (j : ℕ) × (j < procs k (k.pool s).prio)
        × (k.schedule (k.pool s).prio j ≡ s)
        × (s ≢ 0 → (k.pool s).idx ≡ j)
  has_place zero a v o = (ok.root, ok.root_inside, ok.root_home, λ n. absurd (n refl))
  has_place (suc s) a v o = (
    (k.pool (suc s)).idx,
    ok.inside (suc s) a v o (λ e. omega arith),
    ok.home (suc s) a v o (λ e. omega arith),
    λ n. refl,
  )

  found-IsBest :
      (q j : ℕ)
      → q < cfg.max_prio_levels
      → j < procs k q
      → runs k ok (k.schedule q j) ≡ true
      → ((p : ℕ) → 0 ≤ p → p < q → Idle k ok p 0 (procs k p))
      → Idle k ok q 0 j
      → IsBest cfg out k (k.schedule q j)
  found-IsBest q j a b go above before = record {
    stands =
        subst
          (λ p.
            (i : ℕ) × (i < procs k p)
            × (k.schedule p i ≡ k.schedule q j)
            × ((h : ℕ) → h < i → runs k ok (k.schedule p h) ≡ false))
          (sym so.level) (j, b, refl, λ h x. before h (omega arith) x);
    live = so.is_valid;
    ready = go;
    urgent = λ s x v o r. elim (Bool-cases (ltb (k.pool s).prio q)) [
      | inl less ↦ absurd (
          earlier s x v o r
            (λ h i e. above (k.pool s).prio (omega arith) (ltb→lt _ _ less) h (omega arith) i))
      | inr more ↦ ground (arith, so.level)
    ];
    first = λ s x v o r e n m. first_lem s e n m (has_place s x v o) r;
  }
    where
      so : SlotOk cfg out ok.root k q j (k.schedule q j)
      so = ok.slot q j a b

      earlier :
          (s : ℕ)
          → s < cfg.max_threads
          → (k.pool s).valid ≡ true
          → out s ≡ false
          → runs k ok s ≡ true
          → ((h : ℕ)
              → h < procs k (k.pool s).prio
              → k.schedule (k.pool s).prio h ≡ s
              → runs k ok (k.schedule (k.pool s).prio h) ≡ false)
          → ⊥
      earlier s x v o r no_run =
          let h = has_place s x v o in
          false≢true (sym (no_run h.0 h.1 h.2) ∙ ap (runs k ok) h.2 ∙ r)

      first_lem :
          (s : ℕ)
          → (k.pool s).prio ≡ (k.pool (k.schedule q j)).prio
          → s ≢ 0
          → k.schedule q j ≢ 0
          → (h : ℕ) × (h < procs k (k.pool s).prio)
            × (k.schedule (k.pool s).prio h ≡ s)
            × (s ≢ 0 → (k.pool s).idx ≡ h)
          → runs k ok s ≡ true
          → (k.pool (k.schedule q j)).idx ≤ (k.pool s).idx
      first_lem s e n m (h, x, y, z) r = elim (Bool-cases (ltb h j)) [
        | inl less ↦ absurd (
            false≢true (
              sym (before h (omega arith) (ltb→lt _ _ less))
              ∙ ap (runs k ok) (subst (λ w. k.schedule w h ≡ s) (e ∙ so.level) y)
              ∙ r))
        | inr more ↦ ground (arith, so.place m, z n)
      ]

  -- With the rows in order, the choice ends with no assertion failing. It is a ready thread, no ready
  -- thread is more urgent, and no ready thread, the root thread included, stands before it in its row; or
  -- it is the idle thread if no thread is ready.
  pub next_runable-IsBest :
      (t : ℕ) × (next_runable cfg k ≡ done t)
      × (IsBest cfg out k t ⊎ ((t ≡ k.idle_thid) × NoneReady cfg out k.pool))
  unfolding next_runable
  next_runable-IsBest =
      let r = scan_levels_lem k ok cfg.max_prio_levels 0 none (omega arith) (λ q j a b x. refl) in
      settle r.0 r.1 r.2
    where
      settle :
          (r : Option ℕ)
          → scan_levels cfg.max_prio_levels 0 none k ≡ done r
          → LevelsScanned k ok 0 r
          → (t : ℕ) × (next_runable cfg k ≡ done t)
            × (IsBest cfg out k t ⊎ ((t ≡ k.idle_thid) × NoneReady cfg out k.pool))
      settle r e (inl (q, j, a, b, c, d, f, g)) =
          (k.schedule q j, rw (e, c), inl (found-IsBest q j a b d f g))
      settle r e (inr (c, f)) = (
        k.idle_thid,
        rw (e, c),
        inr (
          refl,
          λ s x v o.
              let h = has_place s x v o in
              subst (λ y. runs k ok y ≡ false) h.2
                (f (k.pool s).prio (omega arith) (ok.level s x v o) h.0 (omega arith) h.1),
        ),
      )
