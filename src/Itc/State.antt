-- ===== src/Itc/State.antt =====
-- The objects of include/tk_itc.h and the globals of src/tk_itcshared.c.
use tinker.Base.{ℕ, Bool, true, false, Option, some, List, update, ℤ}
use tinker.Kernel.State.{Tcb, Kernel, put_tcb}

-- The bits of `ipc_flags_t`.
pub record IpcFlags : Type 0 where
  pub global : Bool
  pub prior : Bool
  pub nolimit : Bool
  pub nowait : Bool

-- `itc_set_t`
pub data ItcSet : Type 0 where
  sem s_queue v_queue : ItcSet

abbrev pub is_sem : ItcSet → Bool
is_sem sem = true
is_sem s_queue = false
is_sem v_queue = false

abbrev pub is_s_queue : ItcSet → Bool
is_s_queue sem = false
is_s_queue s_queue = true
is_s_queue v_queue = false

abbrev pub is_v_queue : ItcSet → Bool
is_v_queue sem = false
is_v_queue s_queue = false
is_v_queue v_queue = true

-- `q_t`: four words.
abbrev pub Words : Type 0
Words = ℕ × ℕ × ℕ × ℕ

-- `qv_t`: the bytes that `mb` points at, if it is not NULL, and the size `s`.
pub record Message : Type 0 where
  pub mb : Option (List ℕ)
  pub s : ℕ

-- `itc_t`, less the name. A waiting thread is the number of its control block.
pub record Itc : Type 0 where
  pub token : ℤ
  pub flags : IpcFlags
  pub sizeof_q : ℕ
  pub max_sizeof_m : ℕ
  pub b_type : ItcSet
  pub blocked_procs : ℕ → Option ℕ
  pub in_idx : ℕ
  pub out_idx : ℕ
  pub min_idx : ℕ
  pub mout_idx : ℕ
  pub q : ℕ → Words
  pub qv : ℕ → Message

-- The kernel with `__itc_array`, none for NULL, and `__itc_idx`.
pub record World : Type 0 where
  pub kernel : Kernel
  pub itc_array : ℕ → Option Itc
  pub itc_idx : ℕ

-- Write an object back.
abbrev pub put_itc : World → ℕ → Itc → World
put_itc w id q = record w { itc_array = update w.itc_array id (some q) }

abbrev pub set_tcb : World → ℕ → Tcb → World
set_tcb w t b = record w { kernel = put_tcb w.kernel t b }
