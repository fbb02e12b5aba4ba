-- ===== src/Kernel/Rows/Defs.antt =====
-- When the schedule and the control blocks agree.
use tinker.Base.{ℕ, ◌≤◌, ◌<◌, ◌≡◌, ◌≢◌, Bool, true, false, ◌||◌, ◌==◌}
use tinker.Kernel.State.{Tuning, Kernel}

abbrev pub procs : Kernel → ℕ → ℕ
procs k p = (k.rr p).procs_at_prio

-- The limits under which a row's `unsigned short` counters do not wrap.
pub record IsSane (cfg : Tuning) : Type 0 where
  pub threads : 0 < cfg.max_threads
  pub levels : 1 < cfg.max_prio_levels
  pub short : cfg.max_threads_at_prio ≤ 65535

-- What stands in the live place `j` of the row `q`: a valid thread of that priority whose `Idx` is
-- right. The root thread's `Idx` need not be: its place is `root`.
pub record SlotOk (cfg : Tuning) (out : ℕ → Bool) (root : ℕ) (k : Kernel) (q j s : ℕ) : Type 0 where
  pub small : s < cfg.max_threads
  pub is_valid : (k.pool s).valid ≡ true
  pub own : (k.pool s).thid ≡ s
  pub level : (k.pool s).prio ≡ q
  pub listed : out s ≡ false
  pub place : s ≢ 0 → (k.pool s).idx ≡ j
  pub root_place : s ≡ 0 → j ≡ root

-- The threads that `out` names are valid and in no row: those under construction.
pub record RowsOk (cfg : Tuning) (out : ℕ → Bool) (k : Kernel) : Type 0 where
  pub root : ℕ
  pub room : (p : ℕ) → p < cfg.max_prio_levels → procs k p < cfg.max_threads_at_prio
  pub front : (p : ℕ) → p < cfg.max_prio_levels → (k.rr p).curr_idx ≡ 0
  pub tail :
      (p i : ℕ)
      → p < cfg.max_prio_levels
      → procs k p ≤ i
      → i < cfg.max_threads_at_prio
      → k.schedule p i ≡ 0
  pub slot :
      (q j : ℕ)
      → q < cfg.max_prio_levels
      → j < procs k q
      → SlotOk cfg out root k q j (k.schedule q j)
  pub level :
      (s : ℕ)
      → s < cfg.max_threads
      → (k.pool s).valid ≡ true
      → out s ≡ false
      → (k.pool s).prio < cfg.max_prio_levels
  pub inside :
      (s : ℕ)
      → s < cfg.max_threads
      → (k.pool s).valid ≡ true
      → out s ≡ false
      → s ≢ 0
      → (k.pool s).idx < procs k (k.pool s).prio
  pub home :
      (s : ℕ)
      → s < cfg.max_threads
      → (k.pool s).valid ≡ true
      → out s ≡ false
      → s ≢ 0
      → k.schedule (k.pool s).prio (k.pool s).idx ≡ s
  pub root_valid : (k.pool 0).valid ≡ true
  pub root_listed : out 0 ≡ false
  pub root_inside : root < procs k (k.pool 0).prio
  pub root_home : k.schedule (k.pool 0).prio root ≡ 0

abbrev pub also : ℕ → (ℕ → Bool) → ℕ → Bool
also t out s = s == t || out s

abbrev pub nobody : ℕ → Bool
nobody s = false
