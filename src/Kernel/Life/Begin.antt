-- ===== src/Kernel/Life/Begin.antt =====
-- The two halves of `tk_create_thread` of src/tk.c, when they return.
use tinker.Base.{
  ℕ, ◌+◌, ◌<◌, ◌≡◌, ◌≢◌, refl, ap, subst, ◌∙◌, true, false, Option, none, some, List, ◌==◌, arith,
}
use tinker.Kernel.State.{Tuning, Kernel, done, hangs}
use tinker.Kernel.Threads.{
  next_free, create_error, fresh_tcb, enter_thread, create_in, create_begin, create_finish,
}
use tinker.Kernel.Rows.Defs.{procs, IsSane, also, nobody}
use tinker.Kernel.Keep.Free.{next_free-free}
use tinker.Kernel.Keep.Create.{enter_thread-RowsOk, create_finish-RowsOk}
use tinker.Kernel.Life.Face.{Face, Spares}
use tinker.Kernel.Life.Orderly.{IsOrderly}

-- The thread `t` waits for the second half of its creation, at the priority `p`.
pub record IsPending (cfg : Tuning) (k : Kernel) (t p : ℕ) : Type 0 where
  pub small : t < cfg.max_threads
  pub live : (k.pool t).valid ≡ true
  pub own : (k.pool t).thid ≡ t
  pub level : (k.pool t).prio ≡ p
  pub current : k.proc_idx ≡ t
  pub other : t ≢ 0
  pub in_range : p < cfg.max_prio_levels

pub spared-IsPending :
    {cfg : Tuning} {k k' : Kernel} (t p : ℕ)
    → Spares t k k'
    → IsPending cfg k t p
    → IsPending cfg k' t p
spared-IsPending t p h w = record {
  small = w.small;
  live = ap (λ (f : Face). f.0) h.same ∙ w.live;
  own = ap (λ (f : Face). f.1) h.same ∙ w.own;
  level = ap (λ (f : Face). f.2) h.same ∙ w.level;
  current = h.latest ∙ w.current;
  other = w.other;
  in_range = w.in_range;
}

-- A first half that returns has taken a free place and had memory.
record IsEntered (cfg : Tuning) (k k' : Kernel) (name : List ℕ) (prio inpar size t : ℕ)
    : Type 0 where
  stack : ℕ
  small : t < cfg.max_threads
  was_free : (k.pool t).valid ≡ false
  in_range : prio < cfg.max_prio_levels
  entered : enter_thread t (fresh_tcb k t name prio inpar stack size) k ≡ k'

create_in-entered :
    (cfg : Tuning) (k : Kernel) {k' : Kernel} (name : List ℕ) (prio inpar : ℕ) (stack : Option ℕ)
    (size u : ℕ) {t : ℕ}
    → create_in cfg u name prio inpar stack size k ≡ done (t, k')
    → (x : ℕ) × (u ≡ t) × (enter_thread u (fresh_tcb k u name prio inpar x size) k ≡ k')
unfolding create_in
create_in-entered cfg k name prio inpar none size u e = absurd (ground arith)
create_in-entered cfg k name prio inpar (some x) size u e = (x, ground arith, ground arith)

create_begin-IsEntered :
    {cfg : Tuning} (k : Kernel) {k' : Kernel} (name : List ℕ) (prio inpar : ℕ) (stack : Option ℕ)
    (size t : ℕ)
    → IsSane cfg
    → create_begin cfg name prio inpar stack size k ≡ done (t, k')
    → IsEntered cfg k k' name prio inpar size t
unfolding create_begin
create_begin-IsEntered {cfg} k {k'} name prio inpar stack size t sane e =
    settle (next_free cfg cfg.max_threads k.pool k.proc_idx) refl (rw no_error at e)
  where
    no_error : (create_error cfg prio k == 0) ≡ true
    no_error = ground arith

    settle :
        (o : Option ℕ)
        → next_free cfg cfg.max_threads k.pool k.proc_idx ≡ o
        → (elim o [ none ↦ hangs | some u ↦ create_in cfg u name prio inpar stack size k ])
          ≡ done (t, k')
        → IsEntered cfg k k' name prio inpar size t
    settle none f h = absurd (cc)
    settle (some u) f h =
        let d = create_in-entered cfg k name prio inpar stack size u h in
        let free = next_free-free cfg k.pool cfg.max_threads k.proc_idx u sane.threads f in
        record {
          stack = d.0;
          small = subst (λ x. x < cfg.max_threads) d.1 free.0;
          was_free = subst (λ x. (k.pool x).valid ≡ false) d.1 free.1;
          in_range = unfold create_error in ground (arith, no_error);
          entered =
              subst (λ x. enter_thread x (fresh_tcb k x name prio inpar d.0 size) k ≡ k') d.1 d.2;
        }

-- The first half leaves the rows in order around the new thread, which waits for the second.
pub create_begin-IsPending :
    {cfg : Tuning} (k : Kernel) {k' : Kernel} (name : List ℕ) (prio inpar : ℕ) (stack : Option ℕ)
    (size t : ℕ)
    → IsSane cfg
    → IsOrderly cfg nobody k
    → create_begin cfg name prio inpar stack size k ≡ done (t, k')
    → IsOrderly cfg (also t nobody) k' × IsPending cfg k' t prio
create_begin-IsPending {cfg} k {k'} name prio inpar stack size t sane ok e =
    let d = create_begin-IsEntered k name prio inpar stack size t sane e in
    subst (λ m. IsOrderly cfg (also t nobody) m × IsPending cfg m t prio) d.entered
      (
        record {
          rows =
              enter_thread-RowsOk k t (fresh_tcb k t name prio inpar d.stack size) ok.rows
                d.was_free;
          calm = λ s a. unfold enter_thread fresh_tcb in ground (arith, ok.calm s);
        },
        unfold enter_thread fresh_tcb in
            record {
              small = d.small;
              live = ground arith;
              own = ground arith;
              level = ground arith;
              current = refl;
              other = ground (arith, ok.rows.root_valid, d.was_free);
              in_range = d.in_range;
            },
      )

-- The second half enters it in its row.
pub create_finish-IsOrderly :
    {cfg : Tuning} (k : Kernel) (t p : ℕ)
    → IsSane cfg
    → IsOrderly cfg (also t nobody) k
    → IsPending cfg k t p
    → procs k p + 1 < cfg.max_threads_at_prio
    → IsOrderly cfg nobody (create_finish p k)
create_finish-IsOrderly {cfg} k t p sane ok w room = record {
  rows =
      (create_finish-RowsOk k t p sane ok.rows w.current (w.small, w.live, w.own, w.level) refl
        w.other w.in_range room).0;
  calm = λ s a. unfold create_finish in ground (arith, ok.calm s);
}
