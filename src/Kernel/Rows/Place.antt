-- ===== src/Kernel/Rows/Place.antt =====
-- Entering a thread in a row, leaving the pool, and the changes that the schedule does not see.
use tinker.Base.{
  ℕ, ◌+◌, ◌<◌, ◌≡◌, refl, sym, subst, ◌≢◌, ◌∙◌, ap, Bool, true, false, ◌&&◌, ◌==◌, if◌then◌else◌,
  Bool-cases, inl, inr, arith,
}
use tinker.Kernel.State.{Tuning, Tcb, Kernel, put_tcb}
use tinker.Kernel.Wait.{append_slot}
use tinker.Kernel.Rows.Defs.{procs, IsSane, SlotOk, RowsOk, also}

-- The part of a control block that the schedule depends on.
abbrev pub Seat : Type 0
Seat = Bool × ℕ × ℕ × ℕ

abbrev pub seat : Tcb → Seat
seat b = (b.valid, b.thid, b.prio, b.idx)

-- Two kernels that differ only in what the schedule does not depend on.
pub record SameRows (k k' : Kernel) : Type 0 where
  pub schedule : k'.schedule ≡ k.schedule
  pub rr : k'.rr ≡ k.rr
  pub seats : (s : ℕ) → seat (k'.pool s) ≡ seat (k.pool s)

pub SameRows-refl : (k : Kernel) → SameRows k k
SameRows-refl k = record { schedule = refl; rr = refl; seats = λ s. refl }

pub SameRows-trans : {k l m : Kernel} → SameRows k l → SameRows l m → SameRows k m
SameRows-trans a b = record {
  schedule = b.schedule ∙ a.schedule;
  rr = b.rr ∙ a.rr;
  seats = λ s. b.seats s ∙ a.seats s;
}

-- Such a change keeps the rows in order.
pub same_rows-RowsOk :
    {cfg : Tuning} {out : ℕ → Bool} (k k' : Kernel)
    → RowsOk cfg out k
    → SameRows k k'
    → RowsOk cfg out k'
same_rows-RowsOk {cfg} {out} k k' ok same = record {
  root = ok.root;
  room = λ p a. rw er (ok.room p a);
  front = λ p a. rw er (ok.front p a);
  tail = λ p i a b c. rw es (ok.tail p i a (rw er at b) c);
  slot = λ q j a b.
      subst (λ (g : ℕ → ℕ → ℕ). SlotOk cfg out ok.root k' q j (g q j)) (sym es)
        (move q j (k.schedule q j) (ok.slot q j a (rw er at b)));
  level = λ s a v o. rw (e2 s) (ok.level s a (sym (e0 s) ∙ v) o);
  inside = λ s a v o n. rw (e2 s, e3 s, er) (ok.inside s a (sym (e0 s) ∙ v) o n);
  home = λ s a v o n. rw (e2 s, e3 s, es) (ok.home s a (sym (e0 s) ∙ v) o n);
  root_valid = e0 0 ∙ ok.root_valid;
  root_listed = ok.root_listed;
  root_inside = rw (e2 0, er) ok.root_inside;
  root_home = rw (e2 0, es) ok.root_home;
}
  where
    open same use {schedule as es, rr as er, seats as f}

    e0 : (s : ℕ) → (k'.pool s).valid ≡ (k.pool s).valid
    e0 s = ap (λ (c : Seat). c.0) (f s)

    e1 : (s : ℕ) → (k'.pool s).thid ≡ (k.pool s).thid
    e1 s = ap (λ (c : Seat). c.1) (f s)

    e2 : (s : ℕ) → (k'.pool s).prio ≡ (k.pool s).prio
    e2 s = ap (λ (c : Seat). c.2) (f s)

    e3 : (s : ℕ) → (k'.pool s).idx ≡ (k.pool s).idx
    e3 s = ap (λ (c : Seat). c.3) (f s)

    move : (q j s : ℕ) → SlotOk cfg out ok.root k q j s → SlotOk cfg out ok.root k' q j s
    move q j s so = record {
      small = so.small;
      is_valid = e0 s ∙ so.is_valid;
      own = e1 s ∙ so.own;
      level = e2 s ∙ so.level;
      listed = so.listed;
      place = λ n. e3 s ∙ so.place n;
      root_place = so.root_place;
    }

module _ (cfg : Tuning) (sane : IsSane cfg) (out : ℕ → Bool) (t p : ℕ) (k : Kernel)
    (ok : RowsOk cfg (also t out) k) (small : t < cfg.max_threads) (live : (k.pool t).valid ≡ true)
    (own : (k.pool t).thid ≡ t) (here : out t ≡ false) (other : t ≢ 0)
    (pl : p < cfg.max_prio_levels) (free : procs k p + 1 < cfg.max_threads_at_prio) where
  abbrev entered : Kernel
  entered = append_slot t p k

  stayed :
      (q j : ℕ)
      → q < cfg.max_prio_levels
      → j < procs k q
      → SlotOk cfg out ok.root entered q j (k.schedule q j)
  unfolding append_slot
  stayed q j a b = ground (arith, ok.slot q j a b)

  newcomer : SlotOk cfg out ok.root entered p (procs k p) t
  unfolding append_slot
  newcomer = ground arith

  schedule-entered :
      (q j : ℕ) → entered.schedule q j ≡ (if q == p && j == procs k p then t else k.schedule q j)
  unfolding append_slot
  schedule-entered q j = ground arith

  newcomer_at : (q j : ℕ) → (q == p && j == procs k p) ≡ true → SlotOk cfg out ok.root entered q j t
  unfolding append_slot
  newcomer_at q j h = ground (arith, newcomer)

  stayed_at :
      (q j : ℕ)
      → q < cfg.max_prio_levels
      → j < procs entered q
      → (q == p && j == procs k p) ≡ false
      → SlotOk cfg out ok.root entered q j (k.schedule q j)
  unfolding append_slot
  stayed_at q j a b h = stayed q j a (ground (arith, sane))

  entered-slot :
      (q j : ℕ)
      → q < cfg.max_prio_levels
      → j < procs entered q
      → SlotOk cfg out ok.root entered q j (entered.schedule q j)
  entered-slot q j a b = rw (schedule-entered q j) (elim (Bool-cases (q == p && j == procs k p)) [
    | inl new ↦ rw new (newcomer_at q j new)
    | inr old ↦ rw old (stayed_at q j a b old)
  ])

  -- A thread that no row held takes the place behind the last one.
  pub append_slot-RowsOk : RowsOk cfg out entered
  unfolding append_slot
  append_slot-RowsOk = record {
    root = ok.root;
    room = λ q a. ground (arith, ok.room q a, sane);
    front = λ q a. ground (arith, ok.front q a);
    tail = λ q j a b c. ground (arith, ok.tail q j a, sane);
    slot = entered-slot;
    level = λ s a v o. ground (arith, ok.level s a);
    inside = λ s a v o n. ground (arith, ok.inside s a, sane);
    home = λ s a v o n. ground (arith, ok.home s a, ok.inside s a);
    root_valid = ground (arith, ok.root_valid);
    root_listed = ground (arith, ok.root_listed);
    root_inside = ground (arith, ok.root_inside, sane);
    root_home = ground (arith, ok.root_home, ok.root_inside);
  }

-- A thread that no row holds may leave the pool.
pub invalid-RowsOk :
    (cfg : Tuning) (out : ℕ → Bool) (t : ℕ) (k : Kernel)
    → t ≢ 0
    → RowsOk cfg (also t out) k
    → RowsOk cfg out (put_tcb k t (record (k.pool t) { valid = false }))
invalid-RowsOk cfg out t k other ok = record {
  root = ok.root;
  room = ok.room;
  front = ok.front;
  tail = ok.tail;
  slot = λ q j a b. ground (arith, ok.slot q j a b);
  level = λ s a v o. ground (arith, ok.level s a);
  inside = λ s a v o n. ground (arith, ok.inside s a);
  home = λ s a v o n. ground (arith, ok.home s a);
  root_valid = ground (arith, ok.root_valid);
  root_listed = ground (arith, ok.root_listed);
  root_inside = ground (arith, ok.root_inside);
  root_home = ground (arith, ok.root_home);
}
