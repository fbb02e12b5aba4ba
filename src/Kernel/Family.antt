-- ===== src/Kernel/Family.antt =====
-- Parents and children: `_tk_detach_children`, `_tk_try_detach_parent`, `tk_detach` of src/tk.c.
use tinker.Base.{
  ℕ, zero, suc, ◌+◌, ◌-◌, Bool, true, false, ◌&&◌, Option, none, some, ltb, ◌==◌, if◌then◌else◌,
}
use tinker.Kernel.State.{
  Tuning, Kernel, Entity, null, tcb, itc, mutex, bon_sched, e_childdeath, is_ready, Outcome, done,
  ◌>>=◌, assert_then, put_tcb, Status, tk_ok, esrch, einval,
}

abbrev pub opt_eq : Option ℕ → ℕ → Bool
opt_eq none n = false
opt_eq (some m) n = m == n

abbrev pub is_tcb : Entity → ℕ → Bool
is_tcb null n = false
is_tcb (tcb m) n = m == n
is_tcb (itc m) n = false
is_tcb (mutex m) n = false

-- One round of the loop, for the thread `j`.
unfoldable pub detach_child : ℕ → ℕ → Kernel → Kernel
detach_child thid j k =
    if (k.pool j).valid && opt_eq (k.pool j).gid thid
    then (let k' = put_tcb k j (record (k.pool j) { gid = none }) in
        put_tcb k' thid (record (k'.pool thid) { no_childs = (k'.pool thid).no_childs - 1 }))
    else k

-- The rounds from `j` on, `n` at most: the loop ends when no child is left.
unfoldable pub detach_from : ℕ → ℕ → ℕ → Kernel → Kernel
detach_from thid zero j k = k
detach_from thid (suc n) j k =
    let rest = detach_from thid n (j + 1) (detach_child thid j k) in
    if ltb 0 (k.pool thid).no_childs then rest else k

unfoldable pub detach_children : Tuning → ℕ → Kernel → Kernel
unfolding detach_from detach_child
detach_children cfg thid k = detach_from thid cfg.max_threads 0 k

-- Wake a parent that waits in `tk_join` for this child.
unfoldable pub unblock_parent : ℕ → ℕ → Kernel → Kernel
unblock_parent thid g k =
    let s = record (k.pool g).state { term = false } in
    put_tcb k g (record (k.pool g) {
      state = s;
      wakeup_event = e_childdeath;
      bon_entity = if is_ready s then null else tcb thid;
      bon_kind = bon_sched;
      retval = (k.pool thid).retval;
    })

-- The last part: the count of children is an `int`, and its assertion refuses to pass below 0.
unfoldable pub leave_parent : ℕ → ℕ → Kernel → Outcome (Bool × Kernel)
leave_parent thid g k = assert_then (ltb 0 (k.pool g).no_childs) (
    let k' = put_tcb k g (record (k.pool g) { no_childs = (k.pool g).no_childs - 1 }) in
    done (true, put_tcb k' thid (record (k'.pool thid) { gid = none })))

unfoldable pub try_detach_from : ℕ → Bool → Option ℕ → Kernel → Outcome (Bool × Kernel)
unfolding unblock_parent leave_parent
try_detach_from thid force none k = done (true, k)
try_detach_from thid force (some g) k = assert_then (k.pool g).valid (
    if (k.pool g).state.term && is_tcb (k.pool g).bon_entity thid
    then leave_parent thid g (unblock_parent thid g k)
    else if force
    then leave_parent thid g k
    else done (false, k))

unfoldable pub try_detach_parent : ℕ → Bool → Kernel → Outcome (Bool × Kernel)
unfolding try_detach_from
try_detach_parent thid force k = try_detach_from thid force (k.pool thid).gid k

-- `Gid != -1` is refused.
unfoldable pub detach : ℕ → Kernel → Outcome (Status × Kernel)
unfolding try_detach_parent
detach thid k =
    if (k.pool thid).valid
    then elim (k.pool thid).gid [
      | some g ↦ done (einval, k)
      | none ↦ try_detach_parent thid true k >>= λ r. done (tk_ok, r.1)
    ]
    else done (esrch, k)
