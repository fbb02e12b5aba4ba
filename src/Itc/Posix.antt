-- ===== src/Itc/Posix.antt =====
-- The semaphores of src/semaphore.c over those of src/tk_itc.c and src/tk_itcny.c. `in_handler` is
-- whether `__tk_IntFlagCntr` is not 0. `sem_destroy` and `sem_trywait` only assert.
use tinker.Base.{
  ℕ, suc, ◌≡◌, refl, Bool, true, false, Option, some, if◌then◌else◌, pos, update_self,
}
use tinker.Kernel.State.{Tuning, Status, tk_ok, einval, Outcome, done, ◌>>=◌}
use tinker.Itc.State.{IpcFlags, sem, Itc, World, put_itc}
use tinker.Itc.Stages.{Locking, returned, waiting, lock_begin, unlock_begin, with_itc}
use tinker.Itc.Semaphore.{sm_create, sm_p, sm_v, is_ok}
use tinker.Itc.Direct.{lock_ny, unlock_ny, sm_p_ny, sm_v_ny}

-- What a call returns, and what it leaves in `errno`.
pub record SemResult : Type 0 where
  pub result : Status
  pub errno : Status

-- `errno = rc`, and 0 or EINVAL.
abbrev pub sem_result : Status → SemResult
sem_result rc = record { result = if is_ok rc then tk_ok else einval; errno = rc }

-- FIFO and WAIT.
abbrev pub plain_flags : IpcFlags
plain_flags = record { global = false; prior = false; nolimit = false; nowait = false }

-- `sem_init`: the result, and the semaphore if `pshared` is 0; EINVAL before that leaves `errno`.
unfoldable pub sem_init :
    (max_num : ℕ) (pshared : Bool) (value : ℕ) (object_ok ring_ok : Bool)
    → Itc
    → (errno : Status) → World
    → SemResult × World
sem_init max_num pshared value object_ok ring_ok old errno w =
    let made = sm_create max_num value plain_flags object_ok ring_ok old w in
    if pshared then (record { result = einval; errno = errno }, w) else (sem_result made.0, made.1)

-- A call that is over, with what it returns and leaves in `errno`, or one that waits.
pub data SemCall : Type 0 where
  sem_returns : SemResult → SemCall
  sem_waits : Option ℕ → SemCall

abbrev pub sem_call : Locking → SemCall
sem_call (returned rc) = sem_returns (sem_result rc)
sem_call (waiting t) = sem_waits t

-- `sem_wait` up to its wait, if it waits.
unfoldable pub sem_wait : (in_handler : Bool) (max qid now : ℕ) → World → Outcome (SemCall × World)
sem_wait true max qid now w =
    sm_p_ny max qid plain_flags 0 now w >>= λ r. done (sem_returns (sem_result r.0), r.1)
sem_wait false max qid now w = sm_p max qid plain_flags 0 now w >>= λ r. done (sem_call r.0, r.1)

-- `sem_post` up to its wait, if it waits.
unfoldable pub sem_post :
    (in_handler : Bool)
    → Tuning
    → (address : ℕ → ℕ) (max levels qid : ℕ) → World
    → Outcome (SemCall × World)
sem_post true cfg address max levels qid w =
    sm_v_ny cfg address max levels qid w >>= λ r. done (sem_returns (sem_result r.0), r.1)
sem_post false cfg address max levels qid w =
    sm_v max levels qid w >>= λ r. done (sem_call r.0, r.1)

-- The call returned 0 and `errno` is ERR_OK.
abbrev pub sem_done : SemCall
sem_done = sem_returns (record { result = tk_ok; errno = tk_ok })

-- A semaphore with `n` tokens.
abbrev pub sem_with : Itc → (n : ℕ) → Itc
sem_with q n = record q { b_type = sem; token = pos n }

module _ (max qid : ℕ) (q : Itc) (w : World) where
  lock_begin-takes :
      (n now : ℕ)
      → w.itc_array qid ≡ some (sem_with q (suc n))
      → lock_begin max qid 0 now w ≡ done (returned tk_ok, put_itc w qid (sem_with q n))
  unfolding lock_begin
  lock_begin-takes n now here = rw (lock_begin, with_itc, here) refl

  unlock_begin-gives :
      (levels n : ℕ)
      → w.itc_array qid ≡ some (sem_with q n)
      → unlock_begin max levels qid w ≡ done (returned tk_ok, put_itc w qid (sem_with q (suc n)))
  unfolding unlock_begin
  unlock_begin-gives levels n here = rw (unlock_begin, with_itc, here) refl

  unlock_ny-gives :
      (cfg : Tuning) (address : ℕ → ℕ) (levels n : ℕ)
      → w.itc_array qid ≡ some (sem_with q n)
      → unlock_ny cfg address max levels qid w ≡ done (tk_ok, put_itc w qid (sem_with q (suc n)))
  unfolding unlock_ny
  unlock_ny-gives cfg address levels n here = rw (unlock_ny, with_itc, here) refl

  lock_ny-takes :
      (n now : ℕ)
      → w.itc_array qid ≡ some (sem_with q (suc n))
      → lock_ny max qid 0 now w ≡ done (tk_ok, put_itc w qid (sem_with q n))
  unfolding lock_ny
  lock_ny-takes n now here = rw (lock_ny, lock_begin-takes n now here) refl

  sem_wait-takes :
      (in_handler : Bool) (n now : ℕ)
      → w.itc_array qid ≡ some (sem_with q (suc n))
      → sem_wait in_handler max qid now w ≡ done (sem_done, put_itc w qid (sem_with q n))
  unfolding sem_wait sm_p sm_p_ny
  sem_wait-takes true n now here = rw (sm_p_ny, here, lock_ny-takes n now here) refl
  sem_wait-takes false n now here = rw (sm_p, here, lock_begin-takes n now here) refl

  sem_post-gives :
      (in_handler : Bool) (cfg : Tuning) (address : ℕ → ℕ) (levels n : ℕ)
      → w.itc_array qid ≡ some (sem_with q n)
      → sem_post in_handler cfg address max levels qid w
        ≡ done (sem_done, put_itc w qid (sem_with q (suc n)))
  unfolding sem_post sm_v sm_v_ny
  sem_post-gives true cfg address levels n here =
      rw (sm_v_ny, here, unlock_ny-gives cfg address levels n here) refl
  sem_post-gives false cfg address levels n here =
      rw (sm_v, here, unlock_begin-gives levels n here) refl

-- A token that `sem_post` gives to a semaphore for which no thread waits is there for the next
-- `sem_wait`: both return 0 at once and leave ERR_OK in `errno`, each in a handler or not, and the tokens
-- are as many as before.
pub post_wait :
    (in_handler in_handler' : Bool) (cfg : Tuning) (address : ℕ → ℕ) (max levels qid now n : ℕ)
    (q : Itc) (w : World)
    → w.itc_array qid ≡ some (sem_with q n)
    → (w' : World) × (sem_post in_handler cfg address max levels qid w ≡ done (sem_done, w'))
      × (w'.itc_array qid ≡ some (sem_with q (suc n)))
      × (sem_wait in_handler' max qid now w' ≡ done (sem_done, put_itc w' qid (sem_with q n)))
post_wait in_handler in_handler' cfg address max levels qid now n q w here =
    let w' : World = put_itc w qid (sem_with q (suc n)) in
    let there : w'.itc_array qid ≡ some (sem_with q (suc n)) =
      update_self w.itc_array qid (some (sem_with q (suc n))) in
    (
      w',
      sem_post-gives max qid q w in_handler cfg address levels n here,
      there,
      sem_wait-takes max qid q w' in_handler' n now there,
    )
