-- ===== src/Pthread/Exclusive.antt =====
-- Who can be inside a lock of src/pthread_rwlock.c at the same time, whatever the order of the calls.
use tinker.Base.{
  ℕ, ◌+◌, ◌-◌, ◌<◌, ◌≡◌, ◌≢◌, refl, sym, ap, ◌∙◌, inl, inr, update, update_ne, ◌==◌, if◌then◌else◌,
  arith,
}
use tinker.Kernel.State.{done, assert_then}
use tinker.Pthread.Rwlock.{
  granted_down, granted_up, outside, asked, waits_reading, waits_writing, reading, writing, Section,
  read_block, read_enter, rdlock, read_wake, write_enter, wrlock, write_wake, rw_unlock,
}
use tinker.Pthread.Crowd.{
  Crowd, Step, reads, blocks, reads_on, writes, writes_on, unlocks, Reaches, here, then_step,
  is_reading, is_writing, bit, count-update, count-has, new_world, count-outside,
}
use tinker.Pthread.Counted.{
  IsExclusive, IsCounted, after-IsExclusive, read_enter-IsCounted, write_enter-IsCounted,
  rw_unlock-IsCounted, returned-IsCounted,
}

module _ (prios n : ℕ) (prio : ℕ → ℕ) where
  -- Every section of a thread leaves the counters right; none fails an assertion.
  rdlock-IsCounted :
      (w : Crowd) (t : ℕ)
      → IsExclusive n w
      → w.places t ≡ outside
      → (s : Section) × (rdlock (prio t) w.lock ≡ done s) × IsCounted w t s
  unfolding rdlock
  rdlock-IsCounted w t ok e =
      let g =
        if w.lock.blocked_writers == 0 then 0 else granted_down (prio t) w.lock.bwriters_prio in
      (
        read_enter g w.lock,
        ap (λ b. assert_then b (done (read_enter g w.lock))) ok.valid,
        read_enter-IsCounted n t g w w.lock ok (ap is_reading e) (ap is_writing e) ok.valid refl
            refl,
      )

  read_block-IsCounted :
      (w : Crowd) (t g : ℕ)
      → IsExclusive n w
      → w.places t ≡ asked g
      → IsCounted w t (read_block g w.lock)
  unfolding read_block
  read_block-IsCounted w t g ok e = record {
    valid = ok.valid;
    readers = ap (λ x. w.lock.readers_reading + bit (is_reading x)) e;
    writers = ap (λ x. w.lock.writers_writing + bit (is_writing x)) e;
    alone = ok.alone;
  }

  read_wake-IsCounted :
      (w : Crowd) (t g : ℕ)
      → IsExclusive n w
      → w.places t ≡ waits_reading g
      → IsCounted w t (read_wake prios (prio t) g w.lock)
  unfolding read_wake
  read_wake-IsCounted w t g ok e =
      read_enter-IsCounted n t
        (if w.lock.blocked_writers == 0
          then 0
          else g + granted_up (prios - prio t) (prio t) w.lock.bwriters_prio)
        w (record w.lock { blocked_readers = w.lock.blocked_readers - 1 }) ok (ap is_reading e)
        (ap is_writing e) ok.valid refl refl

  wrlock-IsCounted :
      (w : Crowd) (t : ℕ)
      → IsExclusive n w
      → t < n
      → w.places t ≡ outside
      → (s : Section) × (wrlock (prio t) w.lock ≡ done s) × IsCounted w t s
  unfolding wrlock
  wrlock-IsCounted w t ok h e =
      let r =
        write_enter-IsCounted n t w ok h (prio t) w.lock (ap is_reading e) (ap is_writing e)
          ok.valid refl refl in
      (r.0, ap (λ b. assert_then b (write_enter (prio t) w.lock)) ok.valid ∙ r.1, r.2)

  write_wake-IsCounted :
      (w : Crowd) (t : ℕ)
      → IsExclusive n w
      → t < n
      → w.places t ≡ waits_writing
      → (s : Section) × (write_wake (prio t) w.lock ≡ done s) × IsCounted w t s
  unfolding write_wake
  write_wake-IsCounted w t ok h e =
      write_enter-IsCounted n t w ok h (prio t)
        (record w.lock {
          blocked_writers = w.lock.blocked_writers - 1;
          bwriters_prio = update w.lock.bwriters_prio (prio t) (w.lock.bwriters_prio (prio t) - 1);
        })
        (ap is_reading e) (ap is_writing e) ok.valid refl refl

  Step-IsExclusive : {w w' : Crowd} → IsExclusive n w → Step prios n prio w w' → IsExclusive n w'
  Step-IsExclusive {w} ok (reads t s h e r) =
      after-IsExclusive n t w s h ok
        (returned-IsCounted w t (rdlock (prio t) w.lock) s r (rdlock-IsCounted w t ok e))
  Step-IsExclusive {w} ok (blocks t g h e) =
      after-IsExclusive n t w (read_block g w.lock) h ok (read_block-IsCounted w t g ok e)
  Step-IsExclusive {w} ok (reads_on t g h e) =
      after-IsExclusive n t w (read_wake prios (prio t) g w.lock) h ok
        (read_wake-IsCounted w t g ok e)
  Step-IsExclusive {w} ok (writes t s h e r) =
      after-IsExclusive n t w s h ok
        (returned-IsCounted w t (wrlock (prio t) w.lock) s r (wrlock-IsCounted w t ok h e))
  Step-IsExclusive {w} ok (writes_on t s h e r) =
      after-IsExclusive n t w s h ok
        (returned-IsCounted w t (write_wake (prio t) w.lock) s r (write_wake-IsCounted w t ok h e))
  Step-IsExclusive {w} ok (unlocks t s h e r) = after-IsExclusive n t w s h ok (
      returned-IsCounted w t (rw_unlock (prio t) w.lock) s r
        (rw_unlock-IsCounted n t w ok h (prio t) e))

  Reaches-IsExclusive :
      {w w' : Crowd} → IsExclusive n w → Reaches prios n prio w w' → IsExclusive n w'
  Reaches-IsExclusive ok here = ok
  Reaches-IsExclusive ok (then_step r s) = Step-IsExclusive (Reaches-IsExclusive ok r) s

new_world-IsExclusive : (n : ℕ) → IsExclusive n new_world
new_world-IsExclusive n = record {
  valid = refl;
  readers = sym (count-outside n is_reading refl);
  writers = sym (count-outside n is_writing refl);
  alone = inl refl;
}

-- Whatever the threads do with a new lock, and in whatever order, if only those that are inside call
-- pthread_rwlock_unlock: while one is inside as a writer, no
-- other one is inside, neither as a reader nor as a writer, and its call of pthread_rwlock_unlock fails
-- no assertion.
pub writer_alone :
    (prios n : ℕ) (prio : ℕ → ℕ) (w : Crowd) (t u : ℕ)
    → Reaches prios n prio new_world w
    → t < n
    → u < n
    → t ≢ u
    → w.places t ≡ writing
    → (w.places u ≢ reading)
      × (w.places u ≢ writing)
      × ((s : Section) × (rw_unlock (prio t) w.lock ≡ done s))
writer_alone prios n prio w t u r x y apart e =
    let ok = Reaches-IsExclusive prios n prio (new_world-IsExclusive n) r in
    let some_writer = count-has n t is_writing w.places x (ap is_writing e) in
    let left = rw_unlock-IsCounted n t w ok x (prio t) (inr e) in
    (
      λ h. omega (
        arith,
        ok.alone,
        ok.writers,
        ok.readers,
        some_writer,
        count-has n u is_reading w.places y (ap is_reading h),
      ),
      λ h.
          let others = count-update n t is_writing w.places outside x in
          let kept =
            count-has n u is_writing (update w.places t outside) y
              (ap is_writing (update_ne w.places t u outside (λ g. apart (sym g)) ∙ h)) in
          let was = ap (λ z. bit (is_writing z)) e in
          omega (arith, ok.alone, ok.writers, others, kept, was),
      (left.0, left.1),
    )
