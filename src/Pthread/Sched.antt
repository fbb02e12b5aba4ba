-- ===== src/Pthread/Sched.antt =====
-- The threads of src/pthread_sched.c over the calls of src/tk.c. A `pthread_t` is the place of a control
-- block in the pool, and `arg` and the results are words.
use tinker.Base.{
  ℕ, ◌/◌, Bool, true, false, Option, none, some, List, ◌==◌, if◌then◌else◌, ℤ, negsuc, inc_ℤ,
  is_neg,
}
use tinker.Kernel.State.{Tuning, Kernel, Outcome, done, ◌>>=◌, assert_then, Status, tk_ok}
use tinker.Kernel.Family.{detach}
use tinker.Kernel.Threads.{delete_thread}
use tinker.Kernel.Wait.{Joining, join_begin, change_prio}
use tinker.Kernel.Dispatch.{yield}
use tinker.Kernel.Boot.{Created, create_thread}

-- `pthread_attr_t`, as far as the calls here read it.
pub record ThreadAttr : Type 0 where
  pub priority : ℕ
  pub stacksize : ℕ
  pub stackaddr : Option ℕ

module _ (cfg : Tuning) where
  -- `pthread_create_named_np` up to the return of `tk_create_thread`; `normal` is TK_NORMAL_STACK_SIZE.
  unfoldable pub create_named :
      (normal : ℕ)
      → Option ThreadAttr
      → (name : List ℕ) (arg : ℕ) (stack : Option ℕ) (now : ℕ) → Kernel
      → Outcome Created
  create_named normal none name arg stack now k =
      create_thread cfg name (cfg.max_prio_levels / 2) arg stack normal now k
  create_named normal (some a) name arg stack now k =
      create_thread cfg name a.priority arg stack a.stacksize now k

  -- What follows: the attributes learn where the stack is.
  unfoldable pub created_named : Option ThreadAttr → (thid : ℕ) → Kernel → Option ThreadAttr
  created_named none thid k = none
  created_named (some a) thid k = some (record a { stackaddr = (k.pool thid).stack_begin })

  -- `pthread_join` up to its wait.
  unfoldable pub thread_join : ℕ → Kernel → Outcome (Joining × Kernel)
  thread_join thread k = join_begin (k.pool thread).thid k

  unfoldable pub thread_detach : ℕ → Kernel → Outcome (Status × Kernel)
  thread_detach thread k = detach (k.pool thread).thid k

  unfoldable pub thread_self : Kernel → ℕ
  thread_self k = k.active

  unfoldable pub thread_equal : ℕ → ℕ → Kernel → Bool
  thread_equal t1 t2 k = (k.pool t1).thid == (k.pool t2).thid

  abbrev pub is_tk_ok : Status → Bool
  is_tk_ok tk_ok = true
  is_tk_ok _ = false

  -- `pthread_cancel`
  unfoldable pub thread_cancel : ℕ → Kernel → Outcome Kernel
  thread_cancel thread k =
      delete_thread cfg (k.pool thread).thid k >>= λ r. assert_then (is_tk_ok r.0) (done r.1)

  -- `pthread_setschedparam`; the policy is not used.
  unfoldable pub setschedparam : (thread sched_priority now : ℕ) → Kernel → Outcome Kernel
  setschedparam thread sched_priority now k =
      change_prio cfg (k.pool thread).thid sched_priority k >>= λ r.
      (if r.0 then yield cfg now r.1 else done r.1)

  -- `pthread_getschedparam`
  unfoldable pub getschedparam : (thread : ℕ) → Kernel → ℕ
  getschedparam thread k = (k.pool thread).prio

-- `pthread_once_t`
pub record OnceControl : Type 0 where
  pub finished : Bool
  pub started : ℤ

-- PTHREAD_ONCE_INIT
abbrev pub once_init : OnceControl
once_init = record { finished = false; started = negsuc 0 }

-- Between the first `sm_p` and `sm_v` of `pthread_once`: whether the caller runs the routine.
unfoldable pub once_begin : OnceControl → Bool × OnceControl
once_begin c =
    if is_neg c.started then (true, record c { started = inc_ℤ c.started }) else (false, c)

-- Between the second `sm_p` and `sm_v`, after the routine.
unfoldable pub once_end : OnceControl → OnceControl
once_end c = record c { finished = true }
