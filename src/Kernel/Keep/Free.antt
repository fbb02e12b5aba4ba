-- ===== src/Kernel/Keep/Free.antt =====
-- The search for a free block of the pool in `tk_create_thread` of src/tk.c.
use tinker.Base.{
  ℕ, zero, suc, ◌+◌, ◌-◌, ◌%◌, ◌<◌, ◌≡◌, ap, subst, ◌∙◌, inl, inr, false, some, ltb, if◌then◌else◌,
  Bool-cases, mod-eq_of_lt, mod-add-mod, mod-lt, add-mod_right, arith,
}
use tinker.Kernel.State.{Tuning, Tcb}
use tinker.Kernel.Threads.{next_free}

module _ (cfg : Tuning) (pool : ℕ → Tcb) where
  -- What the search returns is free.
  pub next_free-free :
      (fuel i t : ℕ)
      → 0 < cfg.max_threads
      → next_free cfg fuel pool i ≡ some t
      → (t < cfg.max_threads) × ((pool t).valid ≡ false)
  unfolding next_free
  next_free-free zero i t pos e = absurd (ground arith)
  next_free-free (suc fuel) i t pos e = elim (Bool-cases (pool ((i + 1) % cfg.max_threads)).valid) [
    | inl used ↦ next_free-free fuel ((i + 1) % cfg.max_threads) t pos (ground arith)
    | inr free ↦
        subst (λ x. (x < cfg.max_threads) × ((pool x).valid ≡ false))
          {x = (i + 1) % cfg.max_threads} (ground arith) (mod-lt (i + 1) pos, free)
  ]

  -- If some place is free, `d` places behind the start, the search does not go past it.
  next_free-finds :
      (fuel i d : ℕ)
      → d < fuel
      → (pool ((i + 1 + d) % cfg.max_threads)).valid ≡ false
      → (t : ℕ) × (next_free cfg fuel pool i ≡ some t)
  unfolding next_free
  next_free-finds zero i d h v = absurd (omega arith)
  next_free-finds (suc fuel) i zero h v =
      let here : (pool ((i + 1) % cfg.max_threads)).valid ≡ false =
        subst (λ x. (pool (x % cfg.max_threads)).valid ≡ false) {x = i + 1 + 0} {y = i + 1}
          (omega arith) v in
      ((i + 1) % cfg.max_threads, rw here)
  next_free-finds (suc fuel) i (suc d) h v =
      elim (Bool-cases (pool ((i + 1) % cfg.max_threads)).valid) [
        | inr free ↦ ((i + 1) % cfg.max_threads, rw free)
        | inl used ↦
            rw used (next_free-finds fuel ((i + 1) % cfg.max_threads) d (omega arith) later)
      ]
    where
      shift :
          ((i + 1) % cfg.max_threads + 1 + d) % cfg.max_threads ≡ (i + 1 + suc d) % cfg.max_threads
      shift =
          ap (λ x. x % cfg.max_threads) {x = (i + 1) % cfg.max_threads + 1 + d}
            {y = (i + 1) % cfg.max_threads + (1 + d)} (omega arith)
          ∙ mod-add-mod (i + 1) cfg.max_threads (1 + d)
          ∙ ap (λ x. x % cfg.max_threads) {x = i + 1 + (1 + d)} {y = i + 1 + suc d} (omega arith)

      later : (pool (((i + 1) % cfg.max_threads + 1 + d) % cfg.max_threads)).valid ≡ false
      later = rw shift v

  -- A free place is found from any start within the pool: one round suffices.
  pub next_free_lem :
      (i j : ℕ)
      → i < cfg.max_threads
      → j < cfg.max_threads
      → (pool j).valid ≡ false
      → (t : ℕ) × (next_free cfg cfg.max_threads pool i ≡ some t)
        × (t < cfg.max_threads)
        × ((pool t).valid ≡ false)
  next_free_lem i j a b v =
      let found = next_free-finds cfg.max_threads i gap (ground arith) (rw reach v) in
      let free = next_free-free cfg.max_threads i found.0 (omega arith) found.1 in
      (found.0, found.1, free.0, free.1)
    where
      gap : ℕ
      gap = if ltb i j then j - i - 1 else j + cfg.max_threads - i - 1

      reach : (i + 1 + gap) % cfg.max_threads ≡ j
      reach = elim (Bool-cases (ltb i j)) [
        | inl ahead ↦
            ap (λ x. x % cfg.max_threads) {x = i + 1 + gap} {y = j} (ground arith) ∙ mod-eq_of_lt b
        | inr behind ↦
            ap (λ x. x % cfg.max_threads) {x = i + 1 + gap} {y = j + cfg.max_threads} (ground arith)
            ∙ add-mod_right j cfg.max_threads
            ∙ mod-eq_of_lt b
      ]
