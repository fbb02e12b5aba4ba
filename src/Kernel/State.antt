-- ===== src/Kernel/State.antt =====
-- The state of the kernel: include/tk.h, src/implement_tk.h, src/tk_tuning.h and the globals of
-- src/tk.c and src/tk_switch.c. A global C array is a function of its index.
use tinker.Base.{
  ℕ, ◌+◌, ◌%◌, ◌≡◌, refl, Bool, true, false, not, ◌||◌, Option, List, update, if◌then◌else◌,
}

-- The limits that a board's tuning file sets.
pub record Tuning : Type 0 where
  pub max_threads : ℕ
  pub max_prio_levels : ℕ
  pub max_threads_at_prio : ℕ
  pub thread_name_len : ℕ
  pub minimum_stack_size : ℕ

-- The values that hold where the board sets none.
abbrev pub default_tuning : Tuning
default_tuning = record {
  max_threads = 50;
  max_prio_levels = 5;
  max_threads_at_prio = 10;
  thread_name_len = 4;
  minimum_stack_size = 0x200;
}

-- The bits of PROCSTATE: T (TERM), S (SLEEP), Q (QUEUE), Z (ZOMBI).
pub record ProcState : Type 0 where
  pub term : Bool
  pub sleep : Bool
  pub queue : Bool
  pub zombi : Bool

abbrev pub ready : ProcState
ready = record { term = false; sleep = false; queue = false; zombi = false }

-- The assignment of `ZOMBI` clears the other bits.
abbrev pub zombi_only : ProcState
zombi_only = record { term = false; sleep = false; queue = false; zombi = true }

-- `state == READY`
abbrev pub is_ready : ProcState → Bool
is_ready s = not (s.term || s.sleep || s.queue || s.zombi)

-- The value of the enumeration.
pub proc_code : ProcState → ℕ
proc_code s =
    (if s.term then 1 else 0)
    + (if s.sleep then 2 else 0)
    + (if s.queue then 4 else 0)
    + (if s.zombi then 8 else 0)

-- `wakeE_t`
pub data WakeEvent : Type 0 where
  e_none e_childdeath e_timer e_itc e_itc2 : WakeEvent

-- `bon_sel_t`
pub data BonSel : Type 0 where
  bon_sched bon_itc bon_pmutex bon_semaphore bon_ptimer : BonSel

-- The codes that the calls return, of include/tk.h, include/tk_itc.h and include/errno.h.
pub data Status : Type 0 where
  tk_ok tk_error : Status
  err_timeout err_objdel err_objtype err_objfull err_bufsiz err_full err_nosem : Status
  err_nomem err_blocklimit err_undef_heapid : Status
  esrch enomem ebusy einval : Status

-- The pointer of a `bon_t`: null, or the object that it points at.
pub data Entity : Type 0 where
  null : Entity
  tcb : ℕ → Entity
  itc : ℕ → Entity
  mutex : ℕ → Entity

-- `tcb_t_`, less the saved stack pointer and the checksum, which the context switch owns.
-- The parent `Gid` is `none` for -1. `no_childs` is never read below 0: see `try_detach_parent`.
pub record Tcb : Type 0 where
  pub thid : ℕ
  pub gid : Option ℕ
  pub no_childs : ℕ
  pub name : List ℕ
  pub valid : Bool
  pub state : ProcState
  pub bon_kind : BonSel
  pub bon_entity : Entity
  pub errno : Status
  pub stack_begin : Option ℕ
  pub stack_size : ℕ
  pub wakeuptime : ℕ
  pub wakeup_event : WakeEvent
  pub retval : ℕ
  pub prio : ℕ
  pub idx : ℕ

-- `stat_t`; both are `unsigned short`.
pub record PrioStat : Type 0 where
  pub procs_at_prio : ℕ
  pub curr_idx : ℕ

pub record Kernel : Type 0 where
  pub pool : ℕ → Tcb
  pub schedule : ℕ → ℕ → ℕ
  pub rr : ℕ → PrioStat
  pub active : ℕ
  pub thread_to_run : ℕ
  pub procs_in_use : ℕ
  pub proc_idx : ℕ
  pub idle_thid : ℕ
  pub npreempt : ℕ
  pub inpreempt : ℕ
  pub outpreempt : ℕ
  pub preemptlist : ℕ → ℕ

-- A call returns a value and the new state, ends the program by `tk_exit`, or never returns.
pub data Outcome {ℓ} (A : Type ℓ) : Type ℓ where
  done : A → Outcome A
  exited : ℕ → Outcome A
  hangs : Outcome A

infixl 5 ◌>>=◌
abbrev pub ◌>>=◌ {ℓ κ} : {A : Type ℓ} {B : Type κ} → Outcome A → (A → Outcome B) → Outcome B
done a >>= f = f a
exited c >>= f = exited c
hangs >>= f = hangs

-- The codes of `tk_exit`.
abbrev pub tc_max_threads : ℕ
tc_max_threads = 0x8001

abbrev pub tc_err_assert : ℕ
tc_err_assert = 0x8002

abbrev pub tc_max_prio_levels : ℕ
tc_max_prio_levels = 0x8004

abbrev pub tc_threads_at_prio : ℕ
tc_threads_at_prio = 0x8040

abbrev pub tc_name_len : ℕ
tc_name_len = 0x8100

abbrev pub tc_nomem : ℕ
tc_nomem = 0x8200

abbrev pub tc_tcb_invalid : ℕ
tc_tcb_invalid = 0x8400

-- `assert(b)`, then the rest: a failure ends in `tk_exit(TC_ERR_ASSERT)`.
abbrev pub assert_then {ℓ} : {A : Type ℓ} → Bool → Outcome A → Outcome A
assert_then b rest = if b then rest else exited tc_err_assert

-- Write the control block of one thread.
abbrev pub put_tcb : Kernel → ℕ → Tcb → Kernel
put_tcb k t b = record k { pool = update k.pool t b }

-- Write one place of the schedule.
abbrev pub put_slot : Kernel → ℕ → ℕ → ℕ → Kernel
put_slot k p i t = record k { schedule = update k.schedule p (update (k.schedule p) i t) }

abbrev pub put_procs : Kernel → ℕ → ℕ → Kernel
put_procs k p n = record k { rr = update k.rr p (record (k.rr p) { procs_at_prio = n }) }

-- `++` and `--` on an `unsigned short`
abbrev pub inc16 : ℕ → ℕ
inc16 n = (n + 1) % 65536

abbrev pub dec16 : ℕ → ℕ
dec16 n = (n + 65535) % 65536

-- The call returns.
abbrev pub IsDone : {A : Type 0} → Outcome A → Type 0
IsDone (done a) = Unit
IsDone (exited c) = ⊥
IsDone hangs = ⊥

pub IsDone-value : {A : Type 0} (o : Outcome A) → IsDone o → (a : A) × (o ≡ done a)
IsDone-value (done a) h = (a, refl)
IsDone-value (exited c) h = absurd h
IsDone-value hangs h = absurd h

-- The parts of a call that returns.
pub >>=-eq-done {ℓ κ} :
    {A : Type ℓ} {B : Type κ} (m : Outcome A) (f : A → Outcome B) {b : B}
    → (m >>= f) ≡ done b
    → (a : A) × (m ≡ done a) × (f a ≡ done b)
>>=-eq-done (done a) f h = (a, refl, h)
>>=-eq-done (exited c) f h = cc
>>=-eq-done hangs f h = cc
