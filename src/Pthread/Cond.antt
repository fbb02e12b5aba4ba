-- ===== src/Pthread/Cond.antt =====
-- The conditions of src/pthread_cond.c. A call that yields between its steps is several functions.
use tinker.Base.{ℕ, Bool, true, false, ◌||◌, Option, none, some, ◌==◌, if◌then◌else◌}
use tinker.Kernel.State.{Outcome, done, ◌>>=◌, assert_then}
use tinker.Pthread.Mutex.{
  mark, Sync, put_mutex, is_nobody, lock_primitive, unlock_primitive, mutex_unlock,
}

-- `pthread_cond_t_`: the mutex `cv_mux` is a part of it, and `coop_mux` is none for NULL.
pub record Cond : Type 0 where
  pub valid : Bool
  pub coop_mux : Option ℕ
  pub cv_mux : ℕ

-- `cv_mux.owner = (pthread_t) 1`
abbrev pub set_mark : ℕ → Sync → Sync
set_mark id w = put_mutex w id (record (w.mutexes id) { owner = mark })

-- `pthread_cond_signal` up to its first yield: none if no thread ever waited for the condition.
unfoldable pub cond_signal : ℕ → Cond → Sync → Outcome (Option Bool × Sync)
cond_signal levels c w = assert_then c.valid (elim c.coop_mux [
  | none ↦ done (none, w)
  | some coop ↦ unlock_primitive levels c.cv_mux false w >>= λ r.
      let m = r.1.mutexes c.cv_mux in
      if is_nobody m.owner
      then assert_then (m.numb == 0) (done (some r.0, set_mark c.cv_mux r.1))
      else done (some r.0, r.1)
])

-- The rest of `pthread_cond_signal`, up to its last yield.
unfoldable pub cond_signalled : ℕ → Cond → Sync → Outcome (Bool × Sync)
cond_signalled levels c w = elim c.coop_mux [
  | none ↦ done (false, w)
  | some coop ↦ mutex_unlock levels coop w
]

-- `pthread_cond_broadcast` up to its yield.
unfoldable pub cond_broadcast : ℕ → Cond → Sync → Outcome (Bool × Sync)
cond_broadcast levels c w = assert_then c.valid (elim c.coop_mux [
  | none ↦ done (false, w)
  | some coop ↦ unlock_primitive levels c.cv_mux true w >>= λ r.
      let w' = if (r.1.mutexes c.cv_mux).numb == 0 then set_mark c.cv_mux r.1 else r.1 in
      unlock_primitive levels coop false w' >>= λ s. done (r.0 || s.0, s.1)
])

-- `pthread_cond_wait` up to its first yield, after which it locks the mutex; `id` is the condition.
unfoldable pub cond_wait : (levels id coop : ℕ) → Cond → Sync → Outcome (Cond × Sync)
cond_wait levels id coop c w = assert_then c.valid (
    unlock_primitive levels coop false w >>= λ r.
    let l = lock_primitive c.cv_mux r.1 in
    let m = l.1.mutexes c.cv_mux in
    assert_then l.0 (
      done
        (record c { coop_mux = some coop }, put_mutex l.1 c.cv_mux (record m { link = some id }))))
