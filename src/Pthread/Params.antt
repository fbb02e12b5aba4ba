-- ===== src/Pthread/Params.antt =====
-- The priorities that `pthread_setschedparam` of src/pthread_sched.c sets.
use tinker.Base.{
  ℕ, ◌+◌, ◌-◌, ◌<◌, ◌≡◌, ◌≢◌, refl, sym, ap, subst, ◌∙◌, inl, inr, Bool, true, false, ◌==◌,
  Bool-cases, arith,
}
use tinker.Kernel.State.{Tuning, Tcb, Kernel, done}
use tinker.Kernel.Threads.{remove_slot}
use tinker.Kernel.Wait.{append_slot, change_prio}
use tinker.Kernel.Rows.Defs.{procs, IsSane, RowsOk, nobody}
use tinker.Kernel.Rows.Shift.{rest-shift_slots}
use tinker.Kernel.Keep.Delete.{IsListed}
use tinker.Kernel.Keep.Prio.{own_thid, change_prio-RowsOk}
use tinker.Kernel.Keep.Yield.{woken, NoZombies, yield-IsBest}
use tinker.Kernel.Life.Face.{Face, remove_slot-Spares}
use tinker.Pthread.Sched.{setschedparam, getschedparam}

module _ (cfg : Tuning) (t p : ℕ) (k : Kernel) where
  removed : Kernel
  removed = remove_slot cfg (k.pool t).prio (k.pool t).idx k

  moved-zombi :
      (s : ℕ)
      → (((append_slot t p removed).pool s).valid ≡ (k.pool s).valid)
        × (((append_slot t p removed).pool s).state.zombi ≡ (k.pool s).state.zombi)
  unfolding removed append_slot
  moved-zombi s =
      let same = remove_slot-Spares s cfg (k.pool t).prio (k.pool t).idx k in
      let valid = ap (λ (f : Face). f.0) same.same in
      let zombi = ap (λ (f : Face). f.3) same.same in (ground (arith, valid), ground (arith, zombi))

  moved-npreempt : (append_slot t p removed).npreempt ≡ k.npreempt
  unfolding removed append_slot remove_slot
  moved-npreempt =
      ap (λ (m : Kernel). m.npreempt)
        (rest-shift_slots cfg (k.pool t).prio
          ((k.rr (k.pool t).prio).procs_at_prio - (k.pool t).idx) (k.pool t).idx k)

  change_prio-calm :
      {r : Bool × Kernel}
      → change_prio cfg t p k ≡ done r
      → NoZombies cfg k
      → (NoZombies cfg r.1) × (r.1.npreempt ≡ k.npreempt)
  unfolding change_prio removed
  change_prio-calm {r} e z = elim (Bool-cases ((k.pool t).prio == p)) [
    | inl stays ↦
        let same : k ≡ r.1 = ground arith in
        subst (λ (m : Kernel). NoZombies cfg m × (m.npreempt ≡ k.npreempt)) same (z, refl)
    | inr goes ↦
        let same : append_slot t p removed ≡ r.1 = ground arith in
        subst (λ (m : Kernel). NoZombies cfg m × (m.npreempt ≡ k.npreempt)) same
          ((λ s a v. (moved-zombi s).1 ∙ z s a (sym (moved-zombi s).0 ∙ v)), moved-npreempt)
  ]

woken-prio : (now : ℕ) (b : Tcb) → (woken now b).prio ≡ b.prio
woken-prio now b = ground arith

-- With the rows in order, no zombie and no preempted thread: pthread_setschedparam of a thread other than
-- the root thread, to a priority whose row has room for two, so that it is not full afterwards, returns,
-- also if it lets another thread run; then
-- pthread_getschedparam gives that priority for the thread, and for every other one what it gave before;
-- and the rows are in order.
pub set_get_schedparam :
    (cfg : Tuning) (thread priority now : ℕ) (k : Kernel)
    → IsSane cfg
    → RowsOk cfg nobody k
    → NoZombies cfg k
    → k.npreempt ≡ 0
    → IsListed cfg nobody k thread
    → priority < cfg.max_prio_levels
    → procs k priority + 1 < cfg.max_threads_at_prio
    → (k' : Kernel) × (setschedparam cfg thread priority now k ≡ done k')
      × (getschedparam cfg thread k' ≡ priority)
      × ((s : ℕ)
          → s < cfg.max_threads
          → s ≢ thread
          → getschedparam cfg s k' ≡ getschedparam cfg s k)
      × RowsOk cfg nobody k'
unfolding setschedparam getschedparam
set_get_schedparam cfg thread priority now k sane ok z quiet l small room =
    let moved = change_prio-RowsOk k thread priority sane ok l small room in
    finish moved.0 moved.1 moved.2 moved.3 moved.4 moved.5
      (change_prio-calm cfg thread priority k moved.2 z)
  where
    own : (k.pool thread).thid ≡ thread
    own = own_thid k thread ok l

    finish :
        (y : Bool) (m : Kernel)
        → change_prio cfg thread priority k ≡ done (y, m)
        → RowsOk cfg nobody m
        → (m.pool thread).prio ≡ priority
        → ((s : ℕ) → s ≢ thread → (m.pool s).prio ≡ (k.pool s).prio)
        → NoZombies cfg m × (m.npreempt ≡ k.npreempt)
        → (k' : Kernel) × (setschedparam cfg thread priority now k ≡ done k')
          × ((k'.pool thread).prio ≡ priority)
          × ((s : ℕ) → s < cfg.max_threads → s ≢ thread → (k'.pool s).prio ≡ (k.pool s).prio)
          × RowsOk cfg nobody k'
    finish false m e rows at others calm = (m, rw (own, e) refl, at, (λ s a n. others s n), rows)
    finish true m e rows at others (zm, qm) =
        let y = yield-IsBest now m rows zm (qm ∙ quiet) in
        (
          y.0,
          rw (own, e) y.1,
          ap (λ (b : Tcb). b.prio) (y.2 thread l.small) ∙ woken-prio now (m.pool thread) ∙ at,
          (λ s a n. ap (λ (b : Tcb). b.prio) (y.2 s a) ∙ woken-prio now (m.pool s) ∙ others s n),
          y.3,
        )
