-- ===== src/Kernel/Keep/Boot.antt =====
-- `tk_create_kernel` of src/tk.c.
use mathlib.Core.Path.{fun_ext}
use tinker.Base.{
  length, ℕ, zero, suc, ◌+◌, ◌-◌, ◌≤◌, ◌<◌, ◌≡◌, refl, ap, ◌∙◌, inl, inr, Bool, true, false, ◌&&◌,
  Option, none, some, ltb, leb, ◌==◌, if◌then◌else◌, Bool-cases, mod-eq_of_lt, arith,
}
use tinker.Kernel.State.{ready, Tuning, Kernel, done}
use tinker.Kernel.Threads.{
  next_free, create_error, fresh_tcb, enter_thread, create_in, create_begin, create_finish,
}
use tinker.Kernel.Dispatch.{scan_row, scan_levels, next_runable, wakeup_from, yield_event, yield}
use tinker.Kernel.Boot.{
  idle_name, root_name, blank_kernel, create_thread, adopt_idle, create_kernel,
}
use tinker.Kernel.Rows.Defs.{procs, IsSane, RowsOk, nobody}
use tinker.Kernel.Keep.Yield.{woken, NoZombies, wakeup_from_lem, yield-event}
use tinker.Kernel.Flaws.{next_free-next}

-- Nothing stands in any row.
scan_levels-empty :
    (n p : ℕ) (last : Option ℕ) (k : Kernel)
    → ((q : ℕ) → p ≤ q → q < p + n → procs k q ≡ 0)
    → scan_levels n p last k ≡ done none
unfolding scan_levels scan_row
scan_levels-empty zero p last k h = refl
scan_levels-empty (suc n) p last k h =
    rw (h p (omega arith) (omega arith))
      (scan_levels-empty n (p + 1) last k (λ q a b. h q (omega arith) (omega arith)))

if_same {ℓ} : {A : Type ℓ} (b : Bool) (x : A) → (if b then x else x) ≡ x
if_same true x = refl
if_same false x = refl

-- The clock wakes nobody.
yield-awake :
    (cfg : Tuning) (now : ℕ) (k : Kernel)
    → NoZombies cfg k
    → k.npreempt ≡ 0
    → ((s : ℕ) → s < cfg.max_threads → woken now (k.pool s) ≡ k.pool s)
    → yield cfg now k ≡ yield_event cfg k
yield-awake cfg now k z e awake =
    settle (wakeup_from_lem cfg now cfg.max_threads 0 k (omega arith) z e)
  where
    unchanged :
        (s : ℕ)
        → (if leb 0 s && ltb s (0 + cfg.max_threads) then woken now (k.pool s) else k.pool s)
          ≡ k.pool s
    unchanged s = elim (Bool-cases (leb 0 s && ltb s (0 + cfg.max_threads))) [
      | inl h ↦ rw h (awake s (ground (arith, h)))
      | inr h ↦ rw h
    ]

    settle :
        (m : Kernel) × (wakeup_from cfg now 0 cfg.max_threads k ≡ done m)
          × (record m { pool = k.pool } ≡ k)
          × ((s : ℕ)
              → m.pool s ≡ (
                  if leb 0 s && ltb s (0 + cfg.max_threads)
                  then woken now (k.pool s)
                  else k.pool s))
        → yield cfg now k ≡ yield_event cfg k
    settle (m, run, rest, blocks) =
        let same_pool : m.pool ≡ k.pool = fun_ext (λ s. blocks s ∙ unchanged s) in
        let same : m ≡ k = ap (λ p. record m { pool = p }) same_pool ∙ rest in
        yield-event cfg now k m run (ap (λ (x : Kernel). x.npreempt) same ∙ e)
        ∙ ap (yield_event cfg) same

module _ (cfg : Tuning) (sane : IsSane cfg) (stack now : ℕ) (k : Kernel)
    (names : 7 ≤ cfg.thread_name_len) (pool : 1 < cfg.max_threads)
    (row : 1 < cfg.max_threads_at_prio) where
  abbrev last : ℕ
  last = cfg.max_prio_levels - 1

  -- The idle thread has begun.
  begun : Kernel
  begun =
      enter_thread 1
        (fresh_tcb (blank_kernel cfg k) 1 idle_name last 0 stack cfg.minimum_stack_size)
        (blank_kernel cfg k)

  begin-begun :
      create_begin cfg idle_name last 0 (some stack) cfg.minimum_stack_size (blank_kernel cfg k)
      ≡ done (1, begun)
  unfolding begun create_begin create_in
  begin-begun = rw (no_error, found) (ground (arith, names))
    where
      no_error : create_error cfg last (blank_kernel cfg k) ≡ 0
      no_error = unfold create_error blank_kernel in ground (arith, sane)

      found :
          next_free cfg cfg.max_threads (blank_kernel cfg k).pool (blank_kernel cfg k).proc_idx
          ≡ some 1
      found =
          unfold blank_kernel in
          next_free-next cfg (blank_kernel cfg k).pool cfg.max_threads 0 (omega arith)
            (ground (arith, mod-eq_of_lt {n = 1} pool))
          ∙ ap some (mod-eq_of_lt {n = 1} pool)

  module _ (active : k.active ≡ 0) (idle : k.idle_thid ≡ 0) (quiet : k.npreempt ≡ 0)
      (root : (k.pool 0).prio ≡ 0) where
    -- The root thread runs again.
    back : Kernel
    back = record begun { thread_to_run = 0; active = 0 }

    begun-NoZombies : NoZombies cfg begun
    begun-NoZombies s a v = unfold begun enter_thread fresh_tcb blank_kernel in ground arith

    yield-back : yield cfg now begun ≡ done back
    yield-back =
        yield-awake cfg now begun begun-NoZombies (unfold begun enter_thread blank_kernel in quiet)
          (λ s a. unfold begun enter_thread fresh_tcb blank_kernel in ground arith)
        ∙ choice
      where
        choice : yield_event cfg begun ≡ done back
        choice =
            unfold yield_event next_runable in
            (rw
              (scan_levels-empty cfg.max_prio_levels 0 none begun
                (λ q a b. unfold begun enter_thread fresh_tcb blank_kernel in ground arith))
              (unfold back begun enter_thread blank_kernel in ground (arith, idle)))

    final : Kernel
    final = adopt_idle cfg 1 (create_finish last back)

    final-RowsOk : RowsOk cfg nobody final
    unfolding final back begun adopt_idle create_finish enter_thread fresh_tcb blank_kernel
    final-RowsOk = record {
      root = 0;
      room = λ p a. ground (arith, sane);
      front = λ p a. ground arith;
      tail = λ p i a b c. ground arith;
      slot = λ q j a b. record {
        small = ground (arith, pool, b, sane);
        is_valid = ground (arith, pool, b, sane);
        own = ground (arith, pool, b, sane);
        level = ground (arith, pool, b, sane, root);
        listed = refl;
        place = λ n. ground (arith, pool, b, sane, n);
        root_place = λ n. ground (arith, pool, b, sane, n);
      };
      level = λ s a v l. ground (arith, root);
      inside = λ s a v l n. ground (arith, root);
      home = λ s a v l n. ground (arith, root);
      root_valid = ground arith;
      root_listed = refl;
      root_inside = ground (arith, root);
      root_home = ground (arith, root);
    }

    returns_to_root : (back.active == (blank_kernel cfg k).active) ≡ true
    unfolding back blank_kernel
    returns_to_root = ground (arith, active)

    creates : create_kernel cfg (some stack) now k ≡ done final
    unfolding create_kernel create_thread final
    creates = rw (fits, begin-begun, yield-back, returns_to_root) refl
      where
        fits : ltb cfg.thread_name_len (length root_name) ≡ false
        fits = ground (arith, names)

-- The globals of `tk.c` and `tk_switch.c` are 0, as when the program starts; a name may have seven letters;
-- and there is room for two threads in the pool and in a row.
pub record IsColdStart (cfg : Tuning) (k : Kernel) : Type 0 where
  pub names : 7 ≤ cfg.thread_name_len
  pub places : 1 < cfg.max_threads
  pub row : 1 < cfg.max_threads_at_prio
  pub active : k.active ≡ 0
  pub idle : k.idle_thid ≡ 0
  pub quiet : k.npreempt ≡ 0
  pub root : (k.pool 0).prio ≡ 0

-- With the globals of `tk.c` and `tk_switch.c` at 0, as when the program starts, names of at least seven
-- letters, room for two threads in the pool and in a row, and memory for a stack, `tk_create_kernel`
-- returns to its caller, which is the root thread; the idle thread has the lowest priority and is its
-- own parent; both are ready, no thread else is valid and none is a zombie; and the rows are in order.
pub create_kernel-RowsOk :
    (cfg : Tuning) (stack now : ℕ) (k : Kernel)
    → IsSane cfg
    → IsColdStart cfg k
    → (k' : Kernel) × (create_kernel cfg (some stack) now k ≡ done k')
      × RowsOk cfg nobody k'
      × NoZombies cfg k'
      × (k'.npreempt ≡ 0)
      × (k'.active ≡ 0)
      × (k'.idle_thid ≡ 1)
      × ((k'.pool 1).prio + 1 ≡ cfg.max_prio_levels)
      × ((k'.pool 1).gid ≡ some 1)
      × ((s : ℕ) → s < cfg.max_threads → (k'.pool s).valid ≡ ltb s 2)
      × ((s : ℕ) → s < 2 → (k'.pool s).state ≡ ready)
unfolding final back begun adopt_idle create_finish enter_thread fresh_tcb blank_kernel
create_kernel-RowsOk cfg stack now k sane c = (
  final cfg sane stack now k c.names c.places c.row c.active c.idle c.quiet c.root,
  creates cfg sane stack now k c.names c.places c.row c.active c.idle c.quiet c.root,
  final-RowsOk cfg sane stack now k c.names c.places c.row c.active c.idle c.quiet c.root,
  (λ s a v. ground arith),
  c.quiet,
  refl,
  refl,
  ground (arith, sane),
  ground arith,
  (λ s a. ground arith),
  (λ s a. ground arith),
)
