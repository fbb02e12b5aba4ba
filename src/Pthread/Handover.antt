-- ===== src/Pthread/Handover.antt =====
-- Who owns a mutex, and who gets it next: `_mutex_lock_primitive` and `_mutex_unlock_primitive` of
-- src/pthread_sync.c.
use tinker.Base.{
  ℕ, zero, suc, ◌+◌, ◌-◌, ◌≤◌, ◌<◌, ◌≡◌, ◌≢◌, refl, ap, subst, ◌∙◌, ◌⊎◌, inl, inr, true, false,
  Option, none, some, update, ltb, ◌==◌, if◌then◌else◌, Bool-cases, ltb→lt, update_self, arith,
}
use tinker.Kernel.State.{Tcb, done, hangs}
use tinker.Pthread.Mutex.{
  thread, Mutex, Sync, is_nobody, woken_tcb, most_urgent, close_gap, hand_over, unlock_primitive,
}

module _ (blocked : ℕ → ℕ) (pool : ℕ → Tcb) where
  abbrev pub urgency : ℕ → ℕ
  urgency i = (pool (blocked i)).prio

  -- `j` is the first of the most urgent positions from `i` to `e`.
  pub record IsFirstBest (i e j : ℕ) : Type 0 where
    pub low : i ≤ j
    pub high : j < e
    pub best : (s : ℕ) → i ≤ s → s < e → urgency j ≤ urgency s
    pub first : (s : ℕ) → i ≤ s → s < j → urgency j < urgency s

  -- What the loop returns, if it knew `j` of the priority `prio` before.
  most_urgent_lem :
      (n i prio : ℕ) (j : Option ℕ)
      → ((most_urgent n i prio j blocked pool ≡ j)
          × ((s : ℕ) → i ≤ s → s < i + n → prio ≤ urgency s))
        ⊎ ((r : ℕ) × (most_urgent n i prio j blocked pool ≡ some r)
            × IsFirstBest i (i + n) r
            × (urgency r < prio))
  unfolding most_urgent
  most_urgent_lem zero i prio j = inl (refl, λ s a b. absurd (omega arith))
  most_urgent_lem (suc n) i prio j = elim (Bool-cases (ltb (urgency i) prio)) [
    | inl less ↦ rw less (here less (most_urgent_lem n (i + 1) (urgency i) (some i)))
    | inr more ↦ rw more (later more (most_urgent_lem n (i + 1) prio j))
  ]
    where
      here :
          ltb (urgency i) prio ≡ true
          → ((most_urgent n (i + 1) (urgency i) (some i) blocked pool ≡ some i)
              × ((s : ℕ) → i + 1 ≤ s → s < i + 1 + n → urgency i ≤ urgency s))
            ⊎ ((r : ℕ) × (most_urgent n (i + 1) (urgency i) (some i) blocked pool ≡ some r)
                × IsFirstBest (i + 1) (i + 1 + n) r
                × (urgency r < urgency i))
          → ((most_urgent n (i + 1) (urgency i) (some i) blocked pool ≡ j)
              × ((s : ℕ) → i ≤ s → s < i + suc n → prio ≤ urgency s))
            ⊎ ((r : ℕ) × (most_urgent n (i + 1) (urgency i) (some i) blocked pool ≡ some r)
                × IsFirstBest i (i + suc n) r
                × (urgency r < prio))
      here less (inl (e, h)) = inr (
        i,
        e,
        record {
          low = omega arith;
          high = omega arith;
          best = λ s a b. elim (Bool-cases (s == i)) [
            | inl same ↦ ground arith
            | inr other ↦ h s (ground arith) (omega arith)
          ];
          first = λ s a b. absurd (omega arith);
        },
        ltb→lt _ _ less,
      )
      here less (inr (r, e, ok, m)) = inr (
        r,
        e,
        record {
          low = omega (arith, ok.low);
          high = omega (arith, ok.high);
          best = λ s a b. elim (Bool-cases (s == i)) [
            | inl same ↦ ground arith
            | inr other ↦ ok.best s (ground arith) (omega arith)
          ];
          first = λ s a b. elim (Bool-cases (s == i)) [
            | inl same ↦ ground arith
            | inr other ↦ ok.first s (ground arith) b
          ];
        },
        omega (arith, m, ltb→lt _ _ less),
      )

      later :
          ltb (urgency i) prio ≡ false
          → ((most_urgent n (i + 1) prio j blocked pool ≡ j)
              × ((s : ℕ) → i + 1 ≤ s → s < i + 1 + n → prio ≤ urgency s))
            ⊎ ((r : ℕ) × (most_urgent n (i + 1) prio j blocked pool ≡ some r)
                × IsFirstBest (i + 1) (i + 1 + n) r
                × (urgency r < prio))
          → ((most_urgent n (i + 1) prio j blocked pool ≡ j)
              × ((s : ℕ) → i ≤ s → s < i + suc n → prio ≤ urgency s))
            ⊎ ((r : ℕ) × (most_urgent n (i + 1) prio j blocked pool ≡ some r)
                × IsFirstBest i (i + suc n) r
                × (urgency r < prio))
      later more (inl (e, h)) = inl (
        e,
        λ s a b. elim (Bool-cases (s == i)) [
          | inl same ↦ ground arith
          | inr other ↦ h s (ground arith) (omega arith)
        ],
      )
      later more (inr (r, e, ok, m)) = inr (
        r,
        e,
        record {
          low = omega (arith, ok.low);
          high = omega (arith, ok.high);
          best = λ s a b. elim (Bool-cases (s == i)) [
            | inl same ↦ ground (arith, m)
            | inr other ↦ ok.best s (ground arith) (omega arith)
          ];
          first = λ s a b. elim (Bool-cases (s == i)) [
            | inl same ↦ ground (arith, m)
            | inr other ↦ ok.first s (ground arith) b
          ];
        },
        m,
      )

close_gap_lem :
    (n i : ℕ) (b : ℕ → ℕ) (s : ℕ)
    → close_gap n i b s ≡ (if ltb s i then b s else if ltb s (i + n) then b (s + 1) else b s)
unfolding close_gap
close_gap_lem zero i b s = ground arith
close_gap_lem (suc n) i b s = ground (arith, close_gap_lem n (i + 1) (update b i (b (i + 1))) s)

-- A mutex for which threads wait, one of them of a priority below `levels`, is unlocked: it is never
-- free in between, but handed to the most urgent waiting thread, of several to the one that has
-- waited longest. That thread is ready to run again, the others keep their order, and no other
-- control block changes.
pub unlock_primitive_lem :
    (levels id s : ℕ) (w : Sync)
    → is_nobody (w.mutexes id).owner ≡ false
    → s < (w.mutexes id).numb
    → (w.kernel.pool ((w.mutexes id).blocked s)).prio < levels
    → let m = w.mutexes id in
      (j : ℕ) × (w' : Sync) × (unlock_primitive levels id false w ≡ done (true, w'))
      × IsFirstBest m.blocked w.kernel.pool 0 m.numb j
      × ((w'.mutexes id).owner ≡ thread (m.blocked j))
      × ((w'.mutexes id).numb + 1 ≡ m.numb)
      × ((i : ℕ) → i < j → (w'.mutexes id).blocked i ≡ m.blocked i)
      × ((i : ℕ) → j ≤ i → i + 1 < m.numb → (w'.mutexes id).blocked i ≡ m.blocked (i + 1))
      × (w'.kernel.pool (m.blocked j) ≡ woken_tcb (w.kernel.pool (m.blocked j)))
      × ((t : ℕ) → t ≢ m.blocked j → w'.kernel.pool t ≡ w.kernel.pool t)
unfolding unlock_primitive hand_over
unlock_primitive_lem levels id s w owned some_wait urgent = (
  j,
  hand_over id j w,
  unlocked,
  found.2,
  ground arith,
  ground (arith, found.2.high),
  λ i a. moved i ∙ ground arith,
  λ i a b. moved i ∙ ground (arith, found.2.high),
  ground arith,
  λ t h. ground arith,
)
  where
    m : Mutex
    m = w.mutexes id

    found :
        (r : ℕ) × (most_urgent m.numb 0 levels none m.blocked w.kernel.pool ≡ some r)
        × IsFirstBest m.blocked w.kernel.pool 0 m.numb r
    found = elim (most_urgent_lem m.blocked w.kernel.pool m.numb 0 levels none) [
      | inl (e, h) ↦ absurd (omega (arith, h s (omega arith) (omega arith)))
      | inr (r, e, ok, b) ↦ (
        r,
        e,
        subst (λ x. IsFirstBest m.blocked w.kernel.pool 0 x r) {x = 0 + m.numb} {y = m.numb}
            (omega arith) ok,
      )
    ]

    j : ℕ
    j = found.0

    some_numb : (m.numb == 0) ≡ false
    some_numb = ground arith

    unlocked : unlock_primitive levels id false w ≡ done (true, hand_over id j w)
    unlocked =
        rw (owned, some_numb)
          (ap (λ (o : Option ℕ). elim o [ none ↦ hangs | some x ↦ done (true, hand_over id x w) ])
            found.1)

    moved :
        (i : ℕ)
        → ((hand_over id j w).mutexes id).blocked i ≡ (
            if ltb i j
            then m.blocked i
            else if ltb i (j + (m.numb - j))
            then m.blocked (i + 1)
            else m.blocked i)
    moved i =
        ap (λ (x : Mutex). x.blocked i) (update_self w.mutexes id _)
        ∙ close_gap_lem (m.numb - j) j m.blocked i
