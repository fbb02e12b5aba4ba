-- ===== src/Itc/Shared.antt =====
-- src/tk_itcshared.c: the ring of the threads that wait at an object.
use tinker.Base.{
  ℕ, zero, suc, ◌+◌, ◌-◌, ◌%◌, Bool, true, false, ◌||◌, Option, none, some, update, ltb, ◌==◌,
  if◌then◌else◌, inc_ℤ, abs, is_pos,
}
use tinker.Kernel.State.{is_ready, Tcb, Status, tk_ok, err_objfull}
use tinker.Itc.State.{Itc, World}

-- `_itc_uintDiff`; the numbers stay below 2^32.
unfoldable pub uint_diff : (x1 x2 max : ℕ) → ℕ
uint_diff x1 x2 max = if ltb x2 x1 then max - x1 + x2 else x2 - x1

module _ (max : ℕ) where
  -- `x--`, then `if (x > TK_MAX_BLOCKED_ON_Q) x = TK_MAX_BLOCKED_ON_Q - 1`: below 0 it wraps.
  abbrev pub back_idx : ℕ → ℕ
  back_idx i = if (i == 0) || ltb max (i - 1) then max - 1 else i - 1

  -- `for (; idx != queue_p->in_idx;)`, on fuel.
  unfoldable pub shift_blocked : (fuel idx in_idx : ℕ) → (ℕ → Option ℕ) → Option (ℕ → Option ℕ)
  shift_blocked zero idx in_idx blocked = none
  shift_blocked (suc fuel) idx in_idx blocked =
      let rest =
        shift_blocked fuel ((idx + 1) % max) in_idx
          (update blocked idx (blocked ((idx + 1) % max))) in
      if idx == in_idx then some blocked else rest

  -- `_itc_removeBlocked`; none if its loop does not end.
  unfoldable pub remove_blocked : ℕ → Itc → Option Itc
  remove_blocked idx q =
      if q.out_idx == idx
      then some (record q {
        blocked_procs = update q.blocked_procs idx none;
        out_idx = (q.out_idx + 1) % max;
        token = inc_ℤ q.token;
      })
      else if back_idx q.in_idx == idx
      then some (record q {
        blocked_procs = update q.blocked_procs idx none;
        in_idx = back_idx q.in_idx;
        token = inc_ℤ q.token;
      })
      else elim (shift_blocked (max + 1) idx q.in_idx q.blocked_procs) [
        | none ↦ none
        | some b ↦
            some (record q { blocked_procs = b; in_idx = back_idx q.in_idx; token = inc_ℤ q.token })
      ]

  -- The threads of the ring from `i` on that are blocked here or ready: `_itc_proveConcistency`
  -- counts them. None if a place holds NULL or the loop does not end.
  unfoldable pub count_blocked : (fuel i : ℕ) → Itc → (ℕ → Tcb) → Option ℕ
  count_blocked zero i q pool = none
  count_blocked (suc fuel) i q pool =
      let rest = count_blocked fuel ((i + 1) % max) q pool in
      if i == q.in_idx then some 0 else elim (q.blocked_procs i) [
        | none ↦ none
        | some t ↦ elim rest [
          | none ↦ none
          | some n ↦ some (n + (if (pool t).state.queue || is_ready (pool t).state then 1 else 0))
        ]
      ]

  -- Whether the token agrees with the ring.
  unfoldable pub prove_concistency : Itc → (ℕ → Tcb) → Option Bool
  unfolding count_blocked
  prove_concistency q pool =
      if is_pos q.token then some true else elim (count_blocked (max + 1) q.out_idx q pool) [
        | none ↦ none
        | some n ↦ some (n == abs q.token)
      ]

abbrev pub is_gone : Option Itc → Bool
is_gone none = true
is_gone (some q) = false

-- The search of `_itc_findNextEmpySlot`: `n` tries left. It leaves `__itc_idx`.
unfoldable pub seek_empty : (max_num n idx : ℕ) → (ℕ → Option Itc) → Status × ℕ
seek_empty max_num zero idx objects = (err_objfull, idx)
seek_empty max_num (suc n) idx objects =
    let rest = seek_empty max_num n ((idx + 1) % max_num) objects in
    if is_gone (objects idx) then (tk_ok, idx) else rest

-- `tk_itc`
unfoldable pub start_itc : ℕ → World → World
start_itc max_num w = record w {
  itc_idx = 0;
  itc_array = λ i. if ltb i max_num then none else w.itc_array i;
}
