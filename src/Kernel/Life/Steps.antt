-- ===== src/Kernel/Life/Steps.antt =====
-- The kernel of src/tk.c and src/tk_switch.c from its start on, as a system of steps.
use tinker.Base.{ℕ, ◌+◌, ◌<◌, ◌≡◌, refl, subst, ◌⊎◌, Bool, false, Option, none, some, List, arith}
use tinker.Kernel.State.{Tuning, Kernel, done, Status}
use tinker.Kernel.Family.{detach}
use tinker.Kernel.Threads.{create_begin, create_finish, delete_thread}
use tinker.Kernel.Wait.{Joining, join_begin, msleep, change_prio}
use tinker.Kernel.Dispatch.{next_runable, yield}
use tinker.Kernel.Boot.{create_kernel, destructor}
use tinker.Kernel.Rows.Defs.{procs, IsSane, RowsOk, also, nobody}
use tinker.Kernel.Choice.{IsBest, NoneReady, next_runable-IsBest}
use tinker.Kernel.Keep.Boot.{IsColdStart, create_kernel-RowsOk}
use tinker.Kernel.Keep.Yield.{NoZombies}
use tinker.Kernel.Life.Orderly.{is_apart, IsOrderly, Keeps, delete_thread-Keeps}
use tinker.Kernel.Life.Yielding.{yield-Keeps}
use tinker.Kernel.Life.Calls.{
  msleep-Keeps, join_begin-Keeps, detach-Keeps, destructor-Keeps, change_prio-Keeps,
}
use tinker.Kernel.Life.Begin.{
  IsPending, spared-IsPending, create_begin-IsPending, create_finish-IsOrderly,
}

-- The kernel, and the thread whose creation is not finished, with its priority.
pub record System : Type 0 where
  pub kernel : Kernel
  pub pending : Option (ℕ × ℕ)

-- The threads that are in no row yet.
abbrev pub unplaced : Option (ℕ × ℕ) → ℕ → Bool
unplaced none = nobody
unplaced (some c) = also c.0 nobody

-- One call. A second creation begins only when the first is finished; nobody deletes the root thread or
-- a thread under construction, nor do these end; and a row that receives a thread has room for two.
pub data Step (cfg : Tuning) : System → System → Type 0 where
  begins :
      {k k' : Kernel} (name : List ℕ) (prio inpar : ℕ) (stack : Option ℕ) (size t : ℕ)
      → create_begin cfg name prio inpar stack size k ≡ done (t, k')
      → Step cfg
          (record { kernel = k; pending = none })
          (record { kernel = k'; pending = some (t, prio) })
  finishes :
      {k : Kernel} (t p : ℕ)
      → procs k p + 1 < cfg.max_threads_at_prio
      → Step cfg
          (record { kernel = k; pending = some (t, p) })
          (record { kernel = create_finish p k; pending = none })
  deletes :
      {k k' : Kernel} {w : Option (ℕ × ℕ)} (t : ℕ) (s : Status)
      → t < cfg.max_threads
      → is_apart (unplaced w) t ≡ false
      → delete_thread cfg t k ≡ done (s, k')
      → Step cfg (record { kernel = k; pending = w }) (record { kernel = k'; pending = w })
  moves :
      {k k' : Kernel} {w : Option (ℕ × ℕ)} (t p : ℕ) (y : Bool)
      → t < cfg.max_threads
      → is_apart (unplaced w) t ≡ false
      → procs k p + 1 < cfg.max_threads_at_prio
      → change_prio cfg t p k ≡ done (y, k')
      → Step cfg (record { kernel = k; pending = w }) (record { kernel = k'; pending = w })
  yields :
      {k k' : Kernel} {w : Option (ℕ × ℕ)} (now : ℕ)
      → yield cfg now k ≡ done k'
      → Step cfg (record { kernel = k; pending = w }) (record { kernel = k'; pending = w })
  sleeps :
      {k : Kernel} {w : Option (ℕ × ℕ)} (ms us : ℕ)
      → Step cfg
          (record { kernel = k; pending = w })
          (record { kernel = msleep ms us k; pending = w })
  joins :
      {k k' : Kernel} {w : Option (ℕ × ℕ)} (pid : ℕ) (j : Joining)
      → join_begin pid k ≡ done (j, k')
      → Step cfg (record { kernel = k; pending = w }) (record { kernel = k'; pending = w })
  detaches :
      {k k' : Kernel} {w : Option (ℕ × ℕ)} (t : ℕ) (s : Status)
      → detach t k ≡ done (s, k')
      → Step cfg (record { kernel = k; pending = w }) (record { kernel = k'; pending = w })
  ends :
      {k : Kernel} {w : Option (ℕ × ℕ)} (retval : ℕ)
      → is_apart (unplaced w) k.active ≡ false
      → Step cfg
          (record { kernel = k; pending = w })
          (record { kernel = destructor cfg retval k; pending = w })

pub data Reaches (cfg : Tuning) (a : System) : System → Type 0 where
  here : Reaches cfg a a
  then_step : {b c : System} → Reaches cfg a b → Step cfg b c → Reaches cfg a c

abbrev Waits : Tuning → Kernel → Option (ℕ × ℕ) → Type 0
Waits cfg k none = Unit {0}
Waits cfg k (some c) = IsPending cfg k c.0 c.1

-- What holds between the calls.
record IsRunning (cfg : Tuning) (w : System) : Type 0 where
  orderly : IsOrderly cfg (unplaced w.pending) w.kernel
  waits : Waits cfg w.kernel w.pending

module _ {cfg : Tuning} (sane : IsSane cfg) where
  kept-IsRunning :
      (k k' : Kernel) (w : Option (ℕ × ℕ))
      → IsRunning cfg (record { kernel = k; pending = w })
      → Keeps cfg (unplaced w) k k'
      → IsRunning cfg (record { kernel = k'; pending = w })
  kept-IsRunning k k' none ok kept = record { orderly = kept.0; waits = tt }
  kept-IsRunning k k' (some (t, p)) ok kept = record {
    orderly = kept.0;
    waits = spared-IsPending t p (kept.1 t (ground arith)) ok.waits;
  }

  Step-IsRunning : {v w : System} → IsRunning cfg v → Step cfg v w → IsRunning cfg w
  Step-IsRunning ok (begins {k} {k'} name prio inpar stack size t e) =
      let r = create_begin-IsPending k name prio inpar stack size t sane ok.orderly e in
      record { orderly = r.0; waits = r.1 }
  Step-IsRunning ok (finishes {k} t p room) = record {
    orderly = create_finish-IsOrderly k t p sane ok.orderly ok.waits room;
    waits = tt;
  }
  Step-IsRunning ok (deletes {k} {k'} {w} t s small apart e) =
      kept-IsRunning k k' w ok (delete_thread-Keeps sane (unplaced w) t k small apart ok.orderly e)
  Step-IsRunning ok (moves {k} {k'} {w} t p y small apart room e) =
      kept-IsRunning k k' w ok
        (change_prio-Keeps sane (unplaced w) t p k small apart room ok.orderly e)
  Step-IsRunning ok (yields {k} {k'} {w} now e) =
      kept-IsRunning k k' w ok (yield-Keeps sane (unplaced w) now k ok.orderly e)
  Step-IsRunning ok (sleeps {k} {w} ms us) =
      kept-IsRunning k (msleep ms us k) w ok (msleep-Keeps sane (unplaced w) ms us k ok.orderly)
  Step-IsRunning ok (joins {k} {k'} {w} pid j e) =
      kept-IsRunning k k' w ok (join_begin-Keeps sane (unplaced w) pid k ok.orderly e)
  Step-IsRunning ok (detaches {k} {k'} {w} t s e) =
      kept-IsRunning k k' w ok (detach-Keeps sane (unplaced w) t k ok.orderly e)
  Step-IsRunning ok (ends {k} {w} retval apart) =
      kept-IsRunning k (destructor cfg retval k) w ok
        (destructor-Keeps sane (unplaced w) retval k apart ok.orderly)

  Reaches-IsRunning : {v w : System} → IsRunning cfg v → Reaches cfg v w → IsRunning cfg w
  Reaches-IsRunning ok here = ok
  Reaches-IsRunning ok (then_step r s) = Step-IsRunning (Reaches-IsRunning ok r) s

-- Whatever calls follow the start of the kernel, and in whatever order: the rows are in order, the root
-- thread lives, and the choice of the next thread fails no assertion. The thread chosen is ready, no
-- ready thread is more urgent, and no ready thread, the root thread included, stands before it in its
-- row; or no thread is ready, and it is the idle thread. Names have at least seven letters, and the steps
-- are those that `Step` has.
pub kernel_in_order :
    (cfg : Tuning) (stack now : ℕ) (k : Kernel) {k0 : Kernel} {w : System}
    → IsSane cfg
    → IsColdStart cfg k
    → create_kernel cfg (some stack) now k ≡ done k0
    → Reaches cfg (record { kernel = k0; pending = none }) w
    → RowsOk cfg (unplaced w.pending) w.kernel
      × ((w.kernel.pool 0).state.zombi ≡ false)
      × (t : ℕ) × (next_runable cfg w.kernel ≡ done t)
      × (IsBest cfg (unplaced w.pending) w.kernel t
          ⊎ ((t ≡ w.kernel.idle_thid) × NoneReady cfg (unplaced w.pending) w.kernel.pool))
kernel_in_order cfg stack now k {k0} {w} sane cold e r =
    let choice = next_runable-IsBest w.kernel ok.rows in
    (ok.rows, ok.calm 0 refl, choice.0, choice.1, choice.2)
  where
    started :
        (m : Kernel)
        → create_kernel cfg (some stack) now k ≡ done m
        → RowsOk cfg nobody m
        → NoZombies cfg m
        → IsOrderly cfg nobody m
    started m d rows alive = record {
      rows = rows;
      calm = λ s a. alive s (ground (arith, a, sane.threads)) (ground (arith, a, rows.root_valid));
    }

    first : IsOrderly cfg nobody k0
    first =
        let b = create_kernel-RowsOk cfg stack now k sane cold in
        let same : b.0 ≡ k0 = cc (b.1) in
        subst (IsOrderly cfg nobody) same (started b.0 b.1 b.2 b.3)

    ok : IsOrderly cfg (unplaced w.pending) w.kernel
    ok = (Reaches-IsRunning sane (record { orderly = first; waits = tt }) r).orderly
