-- ===== src/Kernel/Scan.antt =====
-- What the scan of the rows in `_tk_next_runable_thread` of src/tk.c finds.
use tinker.Base.{
  ℕ, zero, suc, ◌+◌, ◌≤◌, ◌<◌, ◌%◌, ◌≡◌, refl, sym, subst, ◌⊎◌, inl, inr, Bool, true, false, Option,
  none, some, ◌==◌, Bool-cases, arith, mod-eq_of_lt,
}
use tinker.Kernel.State.{Tuning, Kernel, done, is_ready}
use tinker.Kernel.Family.{opt_eq}
use tinker.Kernel.Dispatch.{Found, scan_row, scan_levels}
use tinker.Kernel.Rows.Defs.{procs, SlotOk, RowsOk}

module _ {cfg : Tuning} {out : ℕ → Bool} (k : Kernel) (ok : RowsOk cfg out k) where
  abbrev pub runs : ℕ → Bool
  runs t = is_ready (k.pool t).state

  -- No thread stands in two places.
  slot_inj :
      (q j q' j' : ℕ)
      → q < cfg.max_prio_levels
      → j < procs k q
      → q' < cfg.max_prio_levels
      → j' < procs k q'
      → k.schedule q j ≡ k.schedule q' j'
      → (q ≡ q') × (j ≡ j')
  slot_inj q j q' j' a b a' b' e = ground (arith, ok.slot q j a b, ok.slot q' j' a' b')

  -- `last_thid` is none of the threads still to be visited.
  abbrev Fresh : Option ℕ → ℕ → ℕ → Type 0
  Fresh last q j =
      (q' j' : ℕ)
      → q' < cfg.max_prio_levels
      → j' < procs k q'
      → (q < q') ⊎ ((q ≡ q') × (j ≤ j'))
      → opt_eq last (k.schedule q' j') ≡ false

  Fresh-next :
      (q j : ℕ)
      → q < cfg.max_prio_levels
      → j < procs k q
      → Fresh (some (k.pool (k.schedule q j)).thid) q (j + 1)
  Fresh-next q j a b q' j' a' b' h =
      ground (arith, (ok.slot q j a b).own, slot_inj q j q' j' a b a' b')

  -- No thread runs in the places from `j` up to `j'` of the row `q`.
  abbrev pub Idle : ℕ → ℕ → ℕ → Type 0
  Idle q j j' = (i : ℕ) → j ≤ i → i < j' → runs (k.schedule q i) ≡ false

  abbrev RowScanned : ℕ → ℕ → Found → Type 0
  RowScanned q j r =
      ((j' : ℕ) × (j ≤ j')
        × (j' < procs k q)
        × (r.0 ≡ some (k.schedule q j'))
        × (runs (k.schedule q j') ≡ true)
        × Idle q j j')
      ⊎ ((r.0 ≡ none) × Fresh r.1 (q + 1) 0 × Idle q j (procs k q))

  Idle-back : (q j j' : ℕ) → runs (k.schedule q j) ≡ false → Idle q (j + 1) j' → Idle q j j'
  Idle-back q j j' idle h i x y = elim (Bool-cases (i == j)) [
    | inl same ↦ ground arith
    | inr later ↦ h i (ground arith) y
  ]

  RowScanned-back :
      (q j : ℕ) (r : Found)
      → runs (k.schedule q j) ≡ false
      → RowScanned q (j + 1) r
      → RowScanned q j r
  RowScanned-back q j r idle (inl (j', a, b, c, d, e)) =
      inl (j', omega arith, b, c, d, Idle-back q j j' idle e)
  RowScanned-back q j r idle (inr (a, b, e)) = inr (a, b, Idle-back q j (procs k q) idle e)

  -- One try, given what the later tries find.
  scan_row_step :
      (q n j : ℕ) (last : Option ℕ)
      → q < cfg.max_prio_levels
      → j < procs k q
      → Fresh last q j
      → ((r : Found) × (scan_row q
              (procs k q)
              ((j + 1) % procs k q)
              n
              (some (k.pool (k.schedule q j)).thid)
              k
            ≡ done r)
          × RowScanned q (j + 1) r)
      → (r : Found) × (scan_row q (procs k q) j (suc n) last k ≡ done r) × RowScanned q j r
  unfolding scan_row
  scan_row_step q n j last a b f rest = elim (Bool-cases (runs t)) [
    | inl ready ↦ (
      (some t, some (k.pool t).thid),
      rw (so.is_valid, fresh, ready),
      inl (j, omega arith, b, refl, ready, λ i x y. absurd (omega arith)),
    )
    | inr busy ↦
        (rest.0, rw (so.is_valid, fresh, busy) rest.1, RowScanned-back q j rest.0 busy rest.2)
  ]
    where
      t : ℕ
      t = k.schedule q j

      so : SlotOk cfg out ok.root k q j t
      so = ok.slot q j a b

      fresh : opt_eq last (k.pool t).thid ≡ false
      fresh = rw so.own (f q j a b (inr (refl, omega arith)))

  scan_row_lem :
      (q n j idx : ℕ) (last : Option ℕ)
      → q < cfg.max_prio_levels
      → j + n ≡ procs k q
      → (0 < n → idx ≡ j)
      → Fresh last q j
      → (r : Found) × (scan_row q (procs k q) idx n last k ≡ done r) × RowScanned q j r
  scan_row_lem q zero j idx last a e h f = (
    (none, last),
    unfold scan_row in refl,
    inr (refl, (λ q' j' a' b' x. f q' j' a' b' (inl (omega arith))), λ i x y. absurd (omega arith)),
  )
  scan_row_lem q (suc n) j idx last a e h f =
      subst
        (λ x. (r : Found) × (scan_row q (procs k q) x (suc n) last k ≡ done r) × RowScanned q j r)
        (sym (h (omega arith)))
        (scan_row_step q n j last a (omega arith) f (
          scan_row_lem q n (j + 1) ((j + 1) % procs k q) (some (k.pool (k.schedule q j)).thid) a
            (omega arith) (λ p. mod-eq_of_lt (omega arith)) (Fresh-next q j a (omega arith))))

  -- The place of the thread found, or that no place from the row `q` on has a ready thread.
  abbrev pub LevelsScanned : ℕ → Option ℕ → Type 0
  LevelsScanned q r =
      ((q' : ℕ) × (j' : ℕ) × (q' < cfg.max_prio_levels)
        × (j' < procs k q')
        × (r ≡ some (k.schedule q' j'))
        × (runs (k.schedule q' j') ≡ true)
        × ((p : ℕ) → q ≤ p → p < q' → Idle p 0 (procs k p))
        × Idle q' 0 j')
      ⊎ ((r ≡ none) × ((p : ℕ) → q ≤ p → p < cfg.max_prio_levels → Idle p 0 (procs k p)))

  LevelsScanned-back :
      (q : ℕ) (r : Option ℕ) → Idle q 0 (procs k q) → LevelsScanned (q + 1) r → LevelsScanned q r
  LevelsScanned-back q r idle (inl (q', j', a, b, c, d, e, f)) =
      inl (q', j', a, b, c, d, Idle-row, f)
    where
      Idle-row : (p : ℕ) → q ≤ p → p < q' → Idle p 0 (procs k p)
      Idle-row p x y = elim (Bool-cases (p == q)) [
        | inl same ↦ subst (λ z. Idle z 0 (procs k z)) (ground arith) idle
        | inr later ↦ e p (ground arith) y
      ]
  LevelsScanned-back q r idle (inr (a, e)) = inr (a, Idle-row)
    where
      Idle-row : (p : ℕ) → q ≤ p → p < cfg.max_prio_levels → Idle p 0 (procs k p)
      Idle-row p x y = elim (Bool-cases (p == q)) [
        | inl same ↦ subst (λ z. Idle z 0 (procs k z)) (ground arith) idle
        | inr later ↦ e p (ground arith) y
      ]

  -- One row, given what the later rows hold if this one holds nothing.
  scan_levels_step :
      (n q : ℕ) (last : Option ℕ) (found : Found)
      → q < cfg.max_prio_levels
      → scan_row q (procs k q) (k.rr q).curr_idx (procs k q) last k ≡ done found
      → RowScanned q 0 found
      → (Fresh found.1 (q + 1) 0
          → (r : Option ℕ) × (scan_levels n (q + 1) found.1 k ≡ done r) × LevelsScanned (q + 1) r)
      → (r : Option ℕ) × (scan_levels (suc n) q last k ≡ done r) × LevelsScanned q r
  unfolding scan_levels
  scan_levels_step n q last found a e (inl (j', x, b, c, d, f)) rest = (
    some (k.schedule q j'),
    rw (e, c),
    inl (q, j', a, b, refl, d, (λ p y z. absurd (omega arith)), f),
  )
  scan_levels_step n q last found a e (inr (c, f, g)) rest =
      let r = rest f in (r.0, rw (e, c) r.1, LevelsScanned-back q r.0 g r.2)

  pub scan_levels_lem :
      (n q : ℕ) (last : Option ℕ)
      → q + n ≡ cfg.max_prio_levels
      → Fresh last q 0
      → (r : Option ℕ) × (scan_levels n q last k ≡ done r) × LevelsScanned q r
  scan_levels_lem zero q last e f =
      (none, unfold scan_levels in refl, inr (refl, λ p x y. absurd (omega arith)))
  scan_levels_lem (suc n) q last e f =
      let a : q < cfg.max_prio_levels = omega arith in
      let row =
        scan_row_lem q (procs k q) 0 (k.rr q).curr_idx last a (omega arith) (λ _. ok.front q a) f in
      scan_levels_step n q last row.0 a row.1 row.2
        (λ fresh. scan_levels_lem n (q + 1) row.0.1 (omega arith) fresh)
