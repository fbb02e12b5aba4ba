-- ===== src/Kernel/Flaws.antt =====
-- Where src/tk.c does not do what its names say.
use tinker.Base.{
  ℕ, zero, suc, ◌+◌, ◌-◌, ◌<◌, ◌%◌, ◌≡◌, ◌≢◌, refl, ◌∙◌, ◌⊎◌, inl, inr, Bool, true, false, none,
  some, Bool-cases, Option-cases, arith,
}
use tinker.Kernel.State.{
  Tuning, Tcb, Kernel, done, zombi_only, put_tcb, Status, tk_ok, esrch, einval,
}
use tinker.Kernel.Family.{detach, try_detach_parent, try_detach_from, detach_from, detach_children}
use tinker.Kernel.Threads.{next_free, kill, delete_thread}
use tinker.Kernel.Boot.{delete_kernel}
use tinker.Kernel.Rows.Defs.{procs, IsSane, RowsOk}
use tinker.Kernel.Rows.Remove.{idx-root-after, schedule-after}
use tinker.Kernel.Rows.Place.{same_rows-RowsOk}
use tinker.Kernel.Keep.Delete.{IsListed, buried, bury-done}

-- `tk_detach` returns, leaves every thread as it was, and does not return TK_OK for a thread that has
-- a parent.
pub detach_keeps :
    (t : ℕ) (k : Kernel)
    → (s : Status) × (detach t k ≡ done (s, k)) × (((k.pool t).gid ≡ none) ⊎ (s ≢ tk_ok))
unfolding detach try_detach_parent
detach_keeps t k = elim (Bool-cases (k.pool t).valid) [
  | inr gone ↦ (esrch, rw gone, inr (λ f. cc))
  | inl live ↦ elim (Option-cases (k.pool t).gid) [
    | inl orphan ↦ (tk_ok, ground arith, inl orphan)
    | inr (p, child) ↦ (einval, rw (live, child), inr (λ f. cc))
  ]
]

-- With the rows in order, deleting a listed zombie of another priority than that of the root thread
-- writes the length of the zombie's row, less one, into the `Idx` of the root thread, whose place in
-- the schedule stays where it was.
pub delete_thread_moves_root :
    {cfg : Tuning} {out : ℕ → Bool} (k : Kernel) (t : ℕ) (ok : RowsOk cfg out k)
    → IsSane cfg
    → IsListed cfg out k t
    → (k.pool t).state.zombi ≡ true
    → (k.pool 0).prio ≢ (k.pool t).prio
    → (k' : Kernel) × (delete_thread cfg t k ≡ done (tk_ok, k'))
      × ((k'.pool 0).idx ≡ procs k (k.pool t).prio - 1)
      × (k'.schedule (k.pool 0).prio ok.root ≡ 0)
unfolding delete_thread
delete_thread_moves_root {cfg} {out} k t ok sane l z far = (
  buried cfg t k,
  rw (l.live, z) (bury-done sane k t ok l),
  ground (arith, idx-root-after cfg sane out counted ok' t l.small l.live l.here l.other, l.other),
  schedule-after cfg sane out counted ok' t l.small l.live l.here l.other (k.pool 0).prio ok.root
      ∙ ground (arith, ok.root_home),
)
  where
    counted : Kernel
    counted = record k { procs_in_use = k.procs_in_use - 1 }

    ok' : RowsOk cfg out counted
    ok' = same_rows-RowsOk k counted ok (record { schedule = refl; rr = refl; seats = λ s. refl })

detach_from-childless :
    (t n j : ℕ) (k : Kernel) → (k.pool t).no_childs ≡ 0 → detach_from t n j k ≡ k
unfolding detach_from
detach_from-childless t zero j k e = refl
detach_from-childless t (suc n) j k e = rw e

-- If the idle thread is valid, alive, its own parent and without children, `tk_delete_kernel` makes
-- it a zombie, returns TK_OK and leaves it in the pool.
pub delete_kernel_keeps_idle :
    (cfg : Tuning) (k : Kernel)
    → (k.pool k.idle_thid).valid ≡ true
    → (k.pool k.idle_thid).state.zombi ≡ false
    → (k.pool k.idle_thid).gid ≡ some k.idle_thid
    → (k.pool k.idle_thid).no_childs ≡ 0
    → (k' : Kernel) × (delete_kernel cfg k ≡ done (tk_ok, k'))
      × ((k'.pool k.idle_thid).valid ≡ true)
      × ((k'.pool k.idle_thid).state.zombi ≡ true)
unfolding delete_kernel delete_thread
delete_kernel_keeps_idle cfg k v z g n = (m, ground (arith, stays), ground arith, ground arith)
  where
    m : Kernel
    m = put_tcb k k.idle_thid (record (k.pool k.idle_thid) { state = zombi_only })

    stays : kill cfg k.idle_thid k ≡ done (false, m)
    stays =
        unfold kill detach_children try_detach_parent try_detach_from in
        rw (detach_from-childless k.idle_thid cfg.max_threads 0 m (ground arith)) (ground arith)

pub next_free-next :
    (cfg : Tuning) (pool : ℕ → Tcb) (fuel i : ℕ)
    → 0 < fuel
    → (pool ((i + 1) % cfg.max_threads)).valid ≡ false
    → next_free cfg fuel pool i ≡ some ((i + 1) % cfg.max_threads)
unfolding next_free
next_free-next cfg pool zero i h v = absurd (omega arith)
next_free-next cfg pool (suc fuel) i h v = rw v
