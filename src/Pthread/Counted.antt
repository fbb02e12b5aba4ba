-- ===== src/Pthread/Counted.antt =====
-- How each section of src/pthread_rwlock.c moves the counters of the lock with the thread.
use tinker.Base.{
  ℕ, ◌+◌, ◌-◌, ◌<◌, ◌≡◌, refl, sym, ap, subst, ◌∙◌, ◌⊎◌, inl, inr, Bool, true, false, not, ◌||◌, [],
  ◌∷◌, lt→ltb, update, ◌==◌, Bool-cases, arith,
}
use tinker.Kernel.State.{Outcome, done, exited, hangs}
use tinker.Pthread.Rwlock.{
  Rwlock, signal_readers, write_signals, outside, waits_writing, reading, writing, Section,
  read_block, read_enter, write_enter, rw_unlock,
}
use tinker.Pthread.Crowd.{Crowd, after, is_reading, is_writing, bit, count, count-update, count-has}

-- What holds between the sections: the counters of the lock count the threads inside, and there is no
-- writer with another thread.
pub record IsExclusive (n : ℕ) (w : Crowd) : Type 0 where
  pub valid : w.lock.valid ≡ true
  pub readers : w.lock.readers_reading ≡ count n is_reading w.places
  pub writers : w.lock.writers_writing ≡ count n is_writing w.places
  pub alone :
      (w.lock.writers_writing ≡ 0) ⊎ ((w.lock.writers_writing ≡ 1) × (w.lock.readers_reading ≡ 0))

-- A section of thread `t` changes the counters as it moves the thread.
pub record IsCounted (w : Crowd) (t : ℕ) (s : Section) : Type 0 where
  pub valid : s.lock.valid ≡ true
  pub readers :
      s.lock.readers_reading + bit (is_reading (w.places t))
      ≡ w.lock.readers_reading + bit (is_reading s.place)
  pub writers :
      s.lock.writers_writing + bit (is_writing (w.places t))
      ≡ w.lock.writers_writing + bit (is_writing s.place)
  pub alone :
      (s.lock.writers_writing ≡ 0) ⊎ ((s.lock.writers_writing ≡ 1) × (s.lock.readers_reading ≡ 0))

pub after-IsExclusive :
    (n t : ℕ) (w : Crowd) (s : Section)
    → t < n
    → IsExclusive n w
    → IsCounted w t s
    → IsExclusive n (after w t s)
after-IsExclusive n t w s h ok c = record {
  valid = c.valid;
  readers = omega (arith, count-update n t is_reading w.places s.place h, ok.readers, c.readers);
  writers = omega (arith, count-update n t is_writing w.places s.place h, ok.writers, c.writers);
  alone = c.alone;
}

-- The sections of a reader, from outside or from its wait.
pub read_enter-IsCounted :
    (n t g : ℕ) (w : Crowd) (l : Rwlock)
    → IsExclusive n w
    → is_reading (w.places t) ≡ false
    → is_writing (w.places t) ≡ false
    → l.valid ≡ true
    → l.readers_reading ≡ w.lock.readers_reading
    → l.writers_writing ≡ w.lock.writers_writing
    → IsCounted w t (read_enter g l)
unfolding read_enter read_block
read_enter-IsCounted n t g w l ok nr nw v er ew = record {
  valid = ground (arith, v);
  readers = ground (arith, nr, er);
  writers = ground (arith, nw, ew);
  alone = ground (arith, ok.alone, er, ew);
}

-- The two tests of `pthread_rwlock_wrlock`.
abbrev is_taken : Rwlock → Bool
is_taken l = not (l.readers_reading == 0) || not (l.writers_writing == 0)

module _ (n t : ℕ) (w : Crowd) (ok : IsExclusive n w) (free : t < n) where
  pub write_enter-IsCounted :
      (prio : ℕ) (l : Rwlock)
      → is_reading (w.places t) ≡ false
      → is_writing (w.places t) ≡ false
      → l.valid ≡ true
      → l.readers_reading ≡ w.lock.readers_reading
      → l.writers_writing ≡ w.lock.writers_writing
      → (s : Section) × (write_enter prio l ≡ done s) × IsCounted w t s
  unfolding write_enter
  write_enter-IsCounted prio l nr nw v er ew = elim (Bool-cases (is_taken l)) [
    | inl waits ↦ (
      record {
        lock = record l {
          blocked_writers = l.blocked_writers + 1;
          bwriters_prio = update l.bwriters_prio prio (l.bwriters_prio prio + 1);
        };
        place = waits_writing;
        signals = [];
      },
      rw (write_enter, waits) refl,
      record {
        valid = v;
        readers = ground (arith, nr, er);
        writers = ground (arith, nw, ew);
        alone = ground (arith, ok.alone, er, ew);
      },
    )
    | inr goes ↦ (
      record {
        lock = record l { writers_writing = l.writers_writing + 1 };
        place = writing;
        signals = [];
      },
      rw (write_enter, goes, lt→ltb (l.writers_writing + 1) 2 (ground (arith, goes))) refl,
      record {
        valid = v;
        readers = ground (arith, nr, er);
        writers = ground (arith, nw, ew);
        alone = ground (arith, goes);
      },
    )
  ]

  pub rw_unlock-IsCounted :
      (prio : ℕ)
      → (w.places t ≡ reading) ⊎ (w.places t ≡ writing)
      → (s : Section) × (rw_unlock prio w.lock ≡ done s) × IsCounted w t s
  unfolding rw_unlock
  rw_unlock-IsCounted prio (inl reads_now) =
      let inside : 0 < w.lock.readers_reading =
        omega
          (arith, ok.readers, count-has n t is_reading w.places free (ap is_reading reads_now)) in
      let none_writes : w.lock.writers_writing ≡ 0 = omega (arith, ok.alone, inside) in
      (
        record {
          lock = record w.lock { readers_reading = w.lock.readers_reading - 1 };
          place = outside;
          signals = signal_readers ∷ [];
        },
        ground (arith, ok.valid, inside, none_writes),
        record {
          valid = ok.valid;
          readers = ground (arith, ap (λ x. bit (is_reading x)) reads_now, inside);
          writers = ground (arith, ap (λ x. bit (is_writing x)) reads_now);
          alone = inl none_writes;
        },
      )
  rw_unlock-IsCounted prio (inr writes_now) =
      let inside : 0 < w.lock.writers_writing =
        omega
          (arith, ok.writers, count-has n t is_writing w.places free (ap is_writing writes_now)) in
      let only : w.lock.writers_writing ≡ 1 = omega (arith, ok.alone, inside) in
      (
        record {
          lock = record w.lock { writers_writing = 0 };
          place = outside;
          signals = write_signals prio w.lock;
        },
        ground (arith, ok.valid, inside, only),
        record {
          valid = ok.valid;
          readers = ground (arith, ap (λ x. bit (is_reading x)) writes_now);
          writers = ground (arith, ap (λ x. bit (is_writing x)) writes_now, only);
          alone = inl refl;
        },
      )

abbrev section_of : Section → Outcome Section → Section
section_of s (done r) = r
section_of s (exited c) = s
section_of s hangs = s

-- A section that ends so leaves what the lemma says.
pub returned-IsCounted :
    (w : Crowd) (t : ℕ) (o : Outcome Section) (s : Section)
    → o ≡ done s
    → (r : Section) × (o ≡ done r) × IsCounted w t r
    → IsCounted w t s
returned-IsCounted w t o s e r = subst (IsCounted w t) (ap (section_of s) (sym r.1 ∙ e)) r.2
