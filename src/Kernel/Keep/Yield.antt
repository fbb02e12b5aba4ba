-- ===== src/Kernel/Keep/Yield.antt =====
-- `tk_yield` of src/tk_switch.c.
use tinker.Base.{
  ℕ, zero, suc, ◌+◌, ◌≤◌, ◌<◌, ◌≡◌, refl, ap, subst, ◌∙◌, ◌⊎◌, inl, inr, Bool, true, false, ◌&&◌,
  ltb, leb, ◌==◌, if◌then◌else◌, Bool-cases, lt→ltb, le→leb, arith,
}
use tinker.Kernel.State.{Tuning, Tcb, Kernel, e_timer, done}
use tinker.Kernel.Dispatch.{
  wake_sleeper, reap, wakeup_from, wakeup_timedout, take_preempted, yield_event, yield,
}
use tinker.Kernel.Rows.Defs.{RowsOk}
use tinker.Kernel.Rows.Place.{seat, SameRows, same_rows-RowsOk}
use tinker.Kernel.Choice.{IsBest, NoneReady, next_runable-IsBest}

-- A block after the look at the clock: a valid sleeper whose time has come is awake.
abbrev pub woken : ℕ → Tcb → Tcb
woken now b =
    if b.valid && (b.state.sleep && leb b.wakeuptime now)
    then record b {
      state = record b.state { sleep = false; queue = false };
      wakeup_event = e_timer;
    }
    else b

abbrev pub NoZombies : Tuning → Kernel → Type 0
NoZombies cfg k =
    (s : ℕ) → s < cfg.max_threads → (k.pool s).valid ≡ true → (k.pool s).state.zombi ≡ false

-- A range with its first place apart.
one_more :
    (f : Tcb → Tcb) (i n s : ℕ) (b : Tcb)
    → (if leb (i + 1) s && ltb s (i + 1 + n)
        then f (if s == i then f b else b)
        else if s == i
        then f b
        else b)
      ≡ (if leb i s && ltb s (i + suc n) then f b else b)
one_more f i n s b = ground arith

module _ (cfg : Tuning) (now : ℕ) where
  -- One round of the loop.
  abbrev round : ℕ → Kernel → Kernel
  round i k = if (k.pool i).valid then wake_sleeper cfg now i k else k

  round-pool :
      (i : ℕ) (k : Kernel) (s : ℕ)
      → ((round i k).pool s) ≡ (if s == i then woken now (k.pool s) else k.pool s)
  unfolding wake_sleeper
  round-pool i k s = ground arith

  round-rest : (i : ℕ) (k : Kernel) → record (round i k) { pool = k.pool } ≡ k
  unfolding wake_sleeper
  round-rest i k = ground arith

  round-NoZombies : (i : ℕ) (k : Kernel) → NoZombies cfg k → NoZombies cfg (round i k)
  round-NoZombies i k z s a v = ground (arith, z s a, round-pool i k s)

  reap-alive : (i : ℕ) (k : Kernel) → (k.pool i).state.zombi ≡ false → reap cfg i k ≡ done k
  unfolding reap
  reap-alive i k z = ground arith

  wakeup_from-round :
      (i n : ℕ) (k : Kernel)
      → i < cfg.max_threads
      → NoZombies cfg k
      → k.npreempt ≡ 0
      → wakeup_from cfg now i (suc n) k ≡ wakeup_from cfg now (i + 1) n (round i k)
  unfolding wakeup_from
  wakeup_from-round i n k a z e = elim (Bool-cases (k.pool i).valid) [
    | inl live ↦ ground (arith, e, live, reap-alive i (wake_sleeper cfg now i k) (woken_alive live))
    | inr gone ↦ ground (arith, e, gone)
  ]
    where
      woken_alive :
          (k.pool i).valid ≡ true → ((wake_sleeper cfg now i k).pool i).state.zombi ≡ false
      woken_alive live = unfold wake_sleeper in ground (arith, z i a live)

  -- The loop without zombies: exactly the blocks of its range are woken.
  pub wakeup_from_lem :
      (n i : ℕ) (k : Kernel)
      → i + n ≤ cfg.max_threads
      → NoZombies cfg k
      → k.npreempt ≡ 0
      → (k' : Kernel) × (wakeup_from cfg now i n k ≡ done k')
        × (record k' { pool = k.pool } ≡ k)
        × ((s : ℕ)
            → k'.pool s ≡ (if leb i s && ltb s (i + n) then woken now (k.pool s) else k.pool s))
  wakeup_from_lem zero i k a z e = (k, unfold wakeup_from in refl, refl, λ s. ground arith)
  wakeup_from_lem (suc n) i k a z e =
      let rest =
        wakeup_from_lem n (i + 1) (round i k) (omega arith) (round-NoZombies i k z)
          (ap (λ (m : Kernel). m.npreempt) (round-rest i k) ∙ e) in
      (
        rest.0,
        wakeup_from-round i n k (omega arith) z e ∙ rest.1,
        ap (λ (m : Kernel). record m { pool = k.pool }) rest.2 ∙ round-rest i k,
        λ s. rest.3 s ∙ rw (round-pool i k s) (one_more (woken now) i n s (k.pool s)),
      )

ranged_seat :
    (now n s : ℕ) (b : Tcb) → seat (if leb 0 s && ltb s (0 + n) then woken now b else b) ≡ seat b
ranged_seat now n s b = ground arith

yield_event-IsBest :
    {cfg : Tuning} {out : ℕ → Bool} (m : Kernel)
    → RowsOk cfg out m
    → (t : ℕ) × (yield_event cfg m ≡ done (record m { thread_to_run = t; active = t }))
      × (IsBest cfg out m t ⊎ ((t ≡ m.idle_thid) × NoneReady cfg out m.pool))
unfolding yield_event
yield_event-IsBest m ok =
    let choice = next_runable-IsBest m ok in (choice.0, rw (choice.1), choice.2)

pub yield-event :
    (cfg : Tuning) (now : ℕ) (k m : Kernel)
    → wakeup_from cfg now 0 cfg.max_threads k ≡ done m
    → m.npreempt ≡ 0
    → yield cfg now k ≡ yield_event cfg m
unfolding yield wakeup_timedout take_preempted
yield-event cfg now k m e n = ground arith

-- With no zombie in the pool and no thread in the list of the preempted, `tk_yield` returns. Every
-- sleeper whose time has come is woken and no other block changes, the rows stay in order, and the
-- thread that runs then is the best ready one, before which no ready thread stands in its row, or the idle
-- thread if none is ready.
pub yield-IsBest :
    {cfg : Tuning} {out : ℕ → Bool} (now : ℕ) (k : Kernel)
    → RowsOk cfg out k
    → NoZombies cfg k
    → k.npreempt ≡ 0
    → (k' : Kernel) × (yield cfg now k ≡ done k')
      × ((s : ℕ) → s < cfg.max_threads → k'.pool s ≡ woken now (k.pool s))
      × RowsOk cfg out k'
      × (IsBest cfg out k' k'.active ⊎ ((k'.active ≡ k.idle_thid) × NoneReady cfg out k'.pool))
yield-IsBest {cfg} {out} now k ok z e =
    finish (wakeup_from_lem cfg now cfg.max_threads 0 k (omega arith) z e)
  where
    finish :
        (m : Kernel) × (wakeup_from cfg now 0 cfg.max_threads k ≡ done m)
          × (record m { pool = k.pool } ≡ k)
          × ((s : ℕ)
              → m.pool s ≡ (
                  if leb 0 s && ltb s (0 + cfg.max_threads)
                  then woken now (k.pool s)
                  else k.pool s))
        → (k' : Kernel) × (yield cfg now k ≡ done k')
          × ((s : ℕ) → s < cfg.max_threads → k'.pool s ≡ woken now (k.pool s))
          × RowsOk cfg out k'
          × (IsBest cfg out k' k'.active ⊎ ((k'.active ≡ k.idle_thid) × NoneReady cfg out k'.pool))
    finish (m, run, rest, blocks) =
        let same : SameRows k m = record {
          schedule = ap (λ (x : Kernel). x.schedule) rest;
          rr = ap (λ (x : Kernel). x.rr) rest;
          seats = λ s. ap seat (blocks s) ∙ ranged_seat now cfg.max_threads s (k.pool s);
        } in
        let okm : RowsOk cfg out m = same_rows-RowsOk k m ok same in
        let choice = yield_event-IsBest m okm in
        (
          record m { thread_to_run = choice.0; active = choice.0 },
          yield-event cfg now k m run (ap (λ (x : Kernel). x.npreempt) rest ∙ e) ∙ choice.1,
          (λ s a.
              blocks s
              ∙ rw (le→leb 0 s (omega arith), lt→ltb s (0 + cfg.max_threads) (omega arith))),
          same_rows-RowsOk m _ okm (record { schedule = refl; rr = refl; seats = λ s. refl }),
          subst (λ i. IsBest cfg out m choice.0 ⊎ ((choice.0 ≡ i) × NoneReady cfg out m.pool))
              (ap (λ (x : Kernel). x.idle_thid) rest) choice.2,
        )
