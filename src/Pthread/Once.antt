-- ===== src/Pthread/Once.antt =====
-- Who runs the routine of a `pthread_once` of src/pthread_sched.c, whatever the order of the calls. The
-- semaphore `sem_once` has its token between the sections, so that a section is one step; a wait for it
-- that runs out of time ends the program, and is no step.
use tinker.Base.{
  ℕ, ◌≡◌, ◌≢◌, refl, ap, ◌∙◌, ◌⊎◌, ◌↔◌, inl, inr, Bool, true, false, if◌then◌else◌, pos, update,
  arith,
}
use tinker.Pthread.Sched.{OnceControl, once_init, once_begin, once_end}

-- Where a thread is: before its call, in the routine, or back from the call, with whether it ran it.
pub data OncePlace : Type 0 where
  fresh : OncePlace
  in_routine : OncePlace
  back : Bool → OncePlace

-- It runs the routine, or has run it.
abbrev pub has_run : OncePlace → Bool
has_run fresh = false
has_run in_routine = true
has_run (back r) = r

pub record OnceWorld : Type 0 where
  pub control : OnceControl
  pub places : ℕ → OncePlace

abbrev pub once_start : OnceWorld
once_start = record { control = once_init; places = λ t. fresh }

-- What the thread `t` does: its first section, and its second.
unfoldable pub once_calls : ℕ → OnceWorld → OnceWorld
once_calls t w =
    let r = once_begin w.control in
    record { control = r.1; places = update w.places t (if r.0 then in_routine else back false) }

unfoldable pub once_ends : ℕ → OnceWorld → OnceWorld
once_ends t w = record { control = once_end w.control; places = update w.places t (back true) }

pub data OnceStep (w : OnceWorld) : OnceWorld → Type 0 where
  calls : (t : ℕ) → w.places t ≡ fresh → OnceStep w (once_calls t w)
  ends : (t : ℕ) → w.places t ≡ in_routine → OnceStep w (once_ends t w)

pub data OnceReaches : OnceWorld → Type 0 where
  at_start : OnceReaches once_start
  then_once : {v w : OnceWorld} → OnceReaches v → OnceStep v w → OnceReaches w

-- Before the first call nobody has run the routine; afterwards one thread has, and `done` says whether it
-- is through.
data OnceOk (w : OnceWorld) : Type 0 where
  untouched : w.control ≡ once_init → ((t : ℕ) → w.places t ≡ fresh) → OnceOk w
  owned :
      (o : ℕ)
      → w.control.started ≡ pos 0
      → (w.places o ≡ in_routine) × (w.control.finished ≡ false)
        ⊎ (w.places o ≡ back true) × (w.control.finished ≡ true)
      → ((t : ℕ) → t ≢ o → has_run (w.places t) ≡ false)
      → OnceOk w

once_begin-first :
    (c : OnceControl)
    → c ≡ once_init
    → once_begin c ≡ (true, record { finished = false; started = pos 0 })
unfolding once_begin
once_begin-first c e = rw e refl

once_begin-later : (c : OnceControl) → c.started ≡ pos 0 → once_begin c ≡ (false, c)
unfolding once_begin
once_begin-later c e = rw e refl

calls-OnceOk : (t : ℕ) (w : OnceWorld) → w.places t ≡ fresh → OnceOk w → OnceOk (once_calls t w)
unfolding once_calls
calls-OnceOk t w e (untouched c f) =
    let b = once_begin-first w.control c in
    owned t (ap (λ (r : Bool × OnceControl). r.1.started) b)
      (inl (ground (arith, b), ap (λ (r : Bool × OnceControl). r.1.finished) b))
      (λ u n. ground (arith, f u, n))
calls-OnceOk t w e (owned o s p others) =
    let b = once_begin-later w.control s in
    owned o (ap (λ (r : Bool × OnceControl). r.1.started) b ∙ s) (ground (arith, b, p))
      (λ u n. ground (arith, others u n, b))

ends-OnceOk : (t : ℕ) (w : OnceWorld) → w.places t ≡ in_routine → OnceOk w → OnceOk (once_ends t w)
unfolding once_ends once_end
ends-OnceOk t w e (untouched c f) = absurd (ground (arith, f t))
ends-OnceOk t w e (owned o s p others) =
    let own : t ≡ o = ground (arith, others t) in
    owned o s (inr (ground arith, refl)) (λ u n. ground (arith, others u n))

step-OnceOk : {v w : OnceWorld} → OnceOk v → OnceStep v w → OnceOk w
step-OnceOk {v} ok (calls t e) = calls-OnceOk t v e ok
step-OnceOk {v} ok (ends t e) = ends-OnceOk t v e ok

reached-OnceOk : {w : OnceWorld} → OnceReaches w → OnceOk w
reached-OnceOk at_start = untouched refl (λ t. refl)
reached-OnceOk (then_once r s) = step-OnceOk (reached-OnceOk r) s

-- Whatever threads call pthread_once for a control, and in whatever order: either none has called yet, or
-- exactly one runs the routine or has run it, the first to call; and `done` is set exactly when that one
-- is back.
pub once_runs_once :
    (w : OnceWorld)
    → OnceReaches w
    → ((t : ℕ) → w.places t ≡ fresh)
      ⊎ ((o : ℕ) × (has_run (w.places o) ≡ true)
          × ((t : ℕ) → t ≢ o → has_run (w.places t) ≡ false)
          × ((w.control.finished ≡ true) ↔ (w.places o ≡ back true)))
once_runs_once w r = settle (reached-OnceOk r)
  where
    settle :
        OnceOk w
        → ((t : ℕ) → w.places t ≡ fresh)
          ⊎ ((o : ℕ) × (has_run (w.places o) ≡ true)
              × ((t : ℕ) → t ≢ o → has_run (w.places t) ≡ false)
              × ((w.control.finished ≡ true) ↔ (w.places o ≡ back true)))
    settle (untouched c f) = inl f
    settle (owned o s p others) =
        inr (o, ground (arith, p), others, (λ h. ground (arith, p, h), λ h. ground (arith, p, h)))

-- A call of pthread_once that comes while another thread still runs the routine returns at once: its
-- caller is back, and `done` is not set.
pub once_returns_early :
    (w : OnceWorld) (t u : ℕ)
    → OnceReaches w
    → w.places t ≡ in_routine
    → w.places u ≡ fresh
    → ((once_calls u w).places u ≡ back false)
      × ((once_calls u w).places t ≡ in_routine)
      × ((once_calls u w).control.finished ≡ false)
unfolding once_calls
once_returns_early w t u r e i = settle (reached-OnceOk r)
  where
    settle :
        OnceOk w
        → ((once_calls u w).places u ≡ back false)
          × ((once_calls u w).places t ≡ in_routine)
          × ((once_calls u w).control.finished ≡ false)
    settle (untouched c f) = absurd (ground (arith, f t))
    settle (owned o s p others) =
        let own : t ≡ o = ground (arith, others t) in
        let b = once_begin-later w.control s in ground (arith, b, p)
