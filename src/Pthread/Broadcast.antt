-- ===== src/Pthread/Broadcast.antt =====
-- `_mutex_unlock_primitive` of src/pthread_sync.c with BCAST, as `pthread_cond_broadcast` calls it.
use tinker.Base.{
  ℕ, zero, suc, ◌+◌, ◌≤◌, ◌<◌, ◌≡◌, ◌≢◌, refl, sym, ap, ◌∙◌, ◌⊎◌, inl, inr, true, false, ◌==◌,
  Bool-cases, update_self, update_ne, ==→eq, ==→ne, arith,
}
use tinker.Kernel.State.{Tcb, Kernel, done, put_tcb}
use tinker.Pthread.Mutex.{Sync, put_mutex, is_nobody, woken_tcb, wake_all, unlock_primitive}

-- The kernel after one round.
abbrev roused : ℕ → Kernel → Kernel
roused t k = put_tcb k t (woken_tcb (k.pool t))

-- A block stays as it was, or is woken once.
wake_all-either :
    (n i : ℕ) (b : ℕ → ℕ) (k : Kernel) (t : ℕ)
    → ((wake_all n i b k).pool t ≡ k.pool t) ⊎ ((wake_all n i b k).pool t ≡ woken_tcb (k.pool t))
unfolding wake_all
wake_all-either zero i b k t = inl refl
wake_all-either (suc n) i b k t =
    step (wake_all-either n (i + 1) b (roused (b i) k) t) (Bool-cases (t == b i))
  where
    hit : (t == b i) ≡ true → (roused (b i) k).pool t ≡ woken_tcb (k.pool t)
    hit h = ground (arith, h)

    miss : (t == b i) ≡ false → (roused (b i) k).pool t ≡ k.pool t
    miss h = ground (arith, h)

    step :
        {x : Tcb}
        → ((x ≡ (roused (b i) k).pool t) ⊎ (x ≡ woken_tcb ((roused (b i) k).pool t)))
        → (((t == b i) ≡ true) ⊎ ((t == b i) ≡ false))
        → ((x ≡ k.pool t) ⊎ (x ≡ woken_tcb (k.pool t)))
    step (inl e) (inl h) = inr (e ∙ hit h)
    step (inl e) (inr h) = inl (e ∙ miss h)
    step (inr e) (inl h) = inr (e ∙ ap woken_tcb (hit h))
    step (inr e) (inr h) = inr (e ∙ ap woken_tcb (miss h))

wake_all-woken :
    (n i s : ℕ) (b : ℕ → ℕ) (k : Kernel)
    → i ≤ s
    → s < i + n
    → (wake_all n i b k).pool (b s) ≡ woken_tcb (k.pool (b s))
unfolding wake_all
wake_all-woken zero i s b k low high = absurd (omega arith)
wake_all-woken (suc n) i s b k low high = elim (Bool-cases (s == i)) [
  | inl here ↦
      ap (λ x. (wake_all n (i + 1) b (roused (b i) k)).pool (b x)) (==→eq s i here)
      ∙ first (wake_all-either n (i + 1) b (roused (b i) k) (b i))
      ∙ ap (λ x. woken_tcb (k.pool (b x))) (sym (==→eq s i here))
  | inr later ↦
      wake_all-woken n (i + 1) s b (roused (b i) k) (ground arith) (omega arith)
      ∙ again (Bool-cases (b s == b i))
]
  where
    at : (roused (b i) k).pool (b i) ≡ woken_tcb (k.pool (b i))
    at = update_self k.pool (b i) (woken_tcb (k.pool (b i)))

    first :
        {x : Tcb}
        → ((x ≡ (roused (b i) k).pool (b i)) ⊎ (x ≡ woken_tcb ((roused (b i) k).pool (b i))))
        → x ≡ woken_tcb (k.pool (b i))
    first (inl e) = e ∙ at
    first (inr e) = e ∙ ap woken_tcb at

    again :
        (((b s == b i) ≡ true) ⊎ ((b s == b i) ≡ false))
        → woken_tcb ((roused (b i) k).pool (b s)) ≡ woken_tcb (k.pool (b s))
    again (inl h) =
        ap (λ x. woken_tcb ((roused (b i) k).pool x)) (==→eq _ _ h)
        ∙ ap woken_tcb at
        ∙ ap (λ x. woken_tcb (k.pool x)) (sym (==→eq _ _ h))
    again (inr h) =
        ap woken_tcb (update_ne k.pool (b i) (b s) (woken_tcb (k.pool (b i))) (==→ne _ _ h))

wake_all-other :
    (n i t : ℕ) (b : ℕ → ℕ) (k : Kernel)
    → ((s : ℕ) → i ≤ s → s < i + n → b s ≢ t)
    → (wake_all n i b k).pool t ≡ k.pool t
unfolding wake_all
wake_all-other zero i t b k h = refl
wake_all-other (suc n) i t b k h =
    wake_all-other n (i + 1) t b (roused (b i) k) (λ s x y. h s (omega arith) (omega arith))
    ∙ update_ne k.pool (b i) t (woken_tcb (k.pool (b i)))
        (λ e. h i (omega arith) (omega arith) (sym e))

-- A broadcast at an owned mutex for which threads wait makes each of them ready to run and leaves
-- none waiting; no other control block changes, and the owner stays.
pub unlock_primitive_bcast :
    (levels id : ℕ) (w : Sync)
    → is_nobody (w.mutexes id).owner ≡ false
    → 0 < (w.mutexes id).numb
    → let m = w.mutexes id in
      (w' : Sync) × (unlock_primitive levels id true w ≡ done (true, w'))
      × ((w'.mutexes id).numb ≡ 0)
      × ((w'.mutexes id).owner ≡ m.owner)
      × ((s : ℕ)
          → s < m.numb
          → w'.kernel.pool (m.blocked s) ≡ woken_tcb (w.kernel.pool (m.blocked s)))
      × ((t : ℕ) → ((s : ℕ) → s < m.numb → m.blocked s ≢ t) → w'.kernel.pool t ≡ w.kernel.pool t)
unfolding unlock_primitive
unlock_primitive_bcast levels id w owned some_wait = (
  put_mutex (record w { kernel = wake_all (w.mutexes id).numb 0 (w.mutexes id).blocked w.kernel })
      id (record (w.mutexes id) { numb = 0 }),
  rw (owned, some_numb),
  ground arith,
  ground arith,
  λ s a.
      wake_all-woken (w.mutexes id).numb 0 s (w.mutexes id).blocked w.kernel (omega arith)
        (omega arith),
  λ t h.
      wake_all-other (w.mutexes id).numb 0 t (w.mutexes id).blocked w.kernel
        (λ s x y. h s (omega arith)),
)
  where
    some_numb : ((w.mutexes id).numb == 0) ≡ false
    some_numb = ground arith
