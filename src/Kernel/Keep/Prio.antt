-- ===== src/Kernel/Keep/Prio.antt =====
-- `tk_change_prio` of src/tk.c.
use tinker.Base.{
  ℕ, ◌+◌, ◌<◌, ◌≡◌, ◌≢◌, refl, ap, subst, ◌∙◌, inl, inr, Bool, false, ◌==◌, Bool-cases, arith,
}
use tinker.Kernel.State.{Tuning, Tcb, Kernel, done}
use tinker.Kernel.Threads.{remove_slot}
use tinker.Kernel.Wait.{change_error, change_yields, append_slot, change_prio}
use tinker.Kernel.Rows.Defs.{procs, IsSane, RowsOk}
use tinker.Kernel.Rows.Shift.{but_idx}
use tinker.Kernel.Rows.Remove.{remove_slot-RowsOk, procs-after, but_idx-after}
use tinker.Kernel.Rows.Place.{append_slot-RowsOk}
use tinker.Kernel.Keep.Delete.{IsListed}

-- A listed thread's block carries its own number.
pub own_thid :
    {cfg : Tuning} {out : ℕ → Bool} (k : Kernel) (t : ℕ)
    → RowsOk cfg out k
    → IsListed cfg out k t
    → (k.pool t).thid ≡ t
own_thid k t ok l =
    subst (λ x. (k.pool x).thid ≡ x) (ok.home t l.small l.live l.here l.other)
      (ok.slot (k.pool t).prio (k.pool t).idx (ok.level t l.small l.live l.here)
        (ok.inside t l.small l.live l.here l.other)).own

-- A thread other than the root thread moves to a priority whose row has room for two, so that it is not
-- full afterwards: the call does not end the program, the thread has the new priority, every other thread keeps its own, and the
-- schedule stays in order.
pub change_prio-RowsOk :
    {cfg : Tuning} {out : ℕ → Bool} (k : Kernel) (t p : ℕ)
    → IsSane cfg
    → RowsOk cfg out k
    → IsListed cfg out k t
    → p < cfg.max_prio_levels
    → procs k p + 1 < cfg.max_threads_at_prio
    → (y : Bool) × (k' : Kernel) × (change_prio cfg t p k ≡ done (y, k'))
      × RowsOk cfg out k'
      × ((k'.pool t).prio ≡ p)
      × ((s : ℕ) → s ≢ t → (k'.pool s).prio ≡ (k.pool s).prio)
unfolding change_prio
change_prio-RowsOk {cfg} {out} k t p sane ok l pl free = elim (Bool-cases ((k.pool t).prio == p)) [
  | inl same ↦ (false, k, rw (no_error, same), ok, ground arith, λ s n. refl)
  | inr differs ↦ (
    change_yields t p k,
    moved,
    rw (no_error, differs),
    append_slot-RowsOk cfg sane out t p removed
        (remove_slot-RowsOk cfg sane out k ok t l.small l.live l.here l.other) l.small
        (ap (λ (c : Tcb). c.valid) (same_but t) ∙ l.live)
        (ap (λ (c : Tcb). c.thid) (same_but t) ∙ own_thid k t ok l) l.here l.other pl room,
    new_prio,
    λ s n. old_prio s n ∙ ap (λ (c : Tcb). c.prio) (same_but s),
  )
]
  where
    removed : Kernel
    removed = remove_slot cfg (k.pool t).prio (k.pool t).idx k

    moved : Kernel
    moved = append_slot t p removed

    same_but : (s : ℕ) → but_idx (removed.pool s) ≡ but_idx (k.pool s)
    same_but = but_idx-after cfg sane out k ok t l.small l.live l.here l.other

    room : procs removed p + 1 < cfg.max_threads_at_prio
    room =
        ground
          (arith, procs-after cfg sane out k ok t l.small l.live l.here l.other p, ok.room p pl)

    no_error : change_error cfg t p k ≡ 0
    no_error = unfold change_error in ground (arith, l.live)

    new_prio : (moved.pool t).prio ≡ p
    new_prio = unfold append_slot in ground arith

    old_prio : (s : ℕ) → s ≢ t → (moved.pool s).prio ≡ (removed.pool s).prio
    old_prio s n = unfold append_slot in ground arith
