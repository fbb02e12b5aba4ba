-- ===== src/Pthread/Crowd.antt =====
-- Threads at a lock of src/pthread_rwlock.c: what each may do next, and how many stand where.
use tinker.Base.{
  ℕ, zero, suc, ◌+◌, ◌≤◌, ◌<◌, ◌≡◌, refl, sym, ap, ◌∙◌, ◌⊎◌, inl, inr, Bool, true, false, update,
  update_self, update_ne, ◌==◌, Bool-cases, ==→eq, ==→ne, arith,
}
use tinker.Kernel.State.{done}
use tinker.Pthread.Rwlock.{
  Rwlock, Place, outside, asked, waits_reading, waits_writing, reading, writing, Section,
  read_block, rdlock, read_wake, wrlock, write_wake, rw_unlock,
}

-- The lock and the places of the threads.
pub record Crowd : Type 0 where
  pub lock : Rwlock
  pub places : ℕ → Place

abbrev pub after : Crowd → ℕ → Section → Crowd
after w t s = record { lock = s.lock; places = update w.places t s.place }

-- What thread `t` may do next. One that waits may go on at any time, whoever woke it, and only one that
-- is inside unlocks.
pub data Step (prios n : ℕ) (prio : ℕ → ℕ) (w : Crowd) : Crowd → Type 0 where
  reads :
      (t : ℕ) (s : Section)
      → t < n
      → w.places t ≡ outside
      → rdlock (prio t) w.lock ≡ done s
      → Step prios n prio w (after w t s)
  blocks :
      (t g : ℕ)
      → t < n
      → w.places t ≡ asked g
      → Step prios n prio w (after w t (read_block g w.lock))
  reads_on :
      (t g : ℕ)
      → t < n
      → w.places t ≡ waits_reading g
      → Step prios n prio w (after w t (read_wake prios (prio t) g w.lock))
  writes :
      (t : ℕ) (s : Section)
      → t < n
      → w.places t ≡ outside
      → wrlock (prio t) w.lock ≡ done s
      → Step prios n prio w (after w t s)
  writes_on :
      (t : ℕ) (s : Section)
      → t < n
      → w.places t ≡ waits_writing
      → write_wake (prio t) w.lock ≡ done s
      → Step prios n prio w (after w t s)
  unlocks :
      (t : ℕ) (s : Section)
      → t < n
      → (w.places t ≡ reading) ⊎ (w.places t ≡ writing)
      → rw_unlock (prio t) w.lock ≡ done s
      → Step prios n prio w (after w t s)

pub data Reaches (prios n : ℕ) (prio : ℕ → ℕ) (w : Crowd) : Crowd → Type 0 where
  here : Reaches prios n prio w w
  then_step :
      {v v' : Crowd} → Reaches prios n prio w v → Step prios n prio v v' → Reaches prios n prio w v'

abbrev pub is_reading : Place → Bool
is_reading reading = true
is_reading outside = false
is_reading (asked g) = false
is_reading (waits_reading g) = false
is_reading waits_writing = false
is_reading writing = false

abbrev pub is_writing : Place → Bool
is_writing writing = true
is_writing outside = false
is_writing (asked g) = false
is_writing (waits_reading g) = false
is_writing waits_writing = false
is_writing reading = false

abbrev pub bit : Bool → ℕ
bit true = 1
bit false = 0

-- How many of the first `n` threads stand at such a place.
unfoldable pub count : (n : ℕ) → (Place → Bool) → (ℕ → Place) → ℕ
count zero p f = 0
count (suc n) p f = count n p f + bit (p (f n))

count-far :
    (n j : ℕ) (p : Place → Bool) (f : ℕ → Place) (v : Place)
    → n ≤ j
    → count n p (update f j v) ≡ count n p f
unfolding count
count-far zero j p f v h = refl
count-far (suc n) j p f v h =
    ap (λ x. count n p (update f j v) + bit (p x)) (update_ne f j n v (λ e. omega arith))
    ∙ ap (λ x. x + bit (p (f n))) (count-far n j p f v (omega arith))

pub count-update :
    (n j : ℕ) (p : Place → Bool) (f : ℕ → Place) (v : Place)
    → j < n
    → count n p (update f j v) + bit (p (f j)) ≡ count n p f + bit (p v)
unfolding count
count-update zero j p f v h = absurd (omega arith)
count-update (suc n) j p f v h = elim (Bool-cases (j == n)) [
  | inl last ↦
      let far = count-far n j p f v (omega (arith, ==→eq j n last)) in
      let new =
        ap (λ i. bit (p (update f j v i))) (sym (==→eq j n last))
        ∙ ap (λ x. bit (p x)) (update_self f j v) in
      let old = ap (λ i. bit (p (f i))) (==→eq j n last) in omega (arith, far, new, old)
  | inr before ↦
      let apart = ==→ne j n before in
      let kept = ap (λ x. bit (p x)) (update_ne f j n v (λ e. apart (sym e))) in
      omega (arith, count-update n j p f v (omega arith), kept)
]

pub count-has :
    (n j : ℕ) (p : Place → Bool) (f : ℕ → Place) → j < n → p (f j) ≡ true → 0 < count n p f
unfolding count
count-has zero j p f h e = absurd (omega arith)
count-has (suc n) j p f h e = elim (Bool-cases (j == n)) [
  | inl last ↦
      let new = ap (λ i. bit (p (f i))) (sym (==→eq j n last)) ∙ ap bit e in omega (arith, new)
  | inr before ↦ let apart = ==→ne j n before in omega (arith, count-has n j p f (omega arith) e)
]

-- `PTHREAD_RWLOCK_INITIALIZER`, and no thread at the lock.
abbrev pub new_world : Crowd
new_world = record {
  lock = record {
    readers_reading = 0;
    writers_writing = 0;
    blocked_writers = 0;
    blocked_readers = 0;
    bwriters_prio = λ i. 0;
    valid = true;
  };
  places = λ t. outside;
}

pub count-outside : (n : ℕ) (p : Place → Bool) → p outside ≡ false → count n p (λ t. outside) ≡ 0
unfolding count
count-outside zero p h = refl
count-outside (suc n) p h = omega (arith, count-outside n p h, ap bit h)
