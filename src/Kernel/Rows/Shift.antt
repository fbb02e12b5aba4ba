-- ===== src/Kernel/Rows/Shift.antt =====
-- What the loop does that closes a gap in a row of the schedule.
use tinker.Base.{
  ℕ, zero, suc, ◌+◌, ◌≤◌, ◌<◌, ◌≡◌, refl, ◌≢◌, ◌∙◌, ap, true, ◌&&◌, ltb, leb, ◌==◌, Bool-cases, inl,
  inr, ==→eq, ==→ne, if◌then◌else◌, arith,
}
use tinker.Kernel.State.{Tuning, Tcb, Kernel}
use tinker.Kernel.Threads.{next_slot, shift_slot, shift_slots}

-- Everything in a control block but its `Idx`.
abbrev pub but_idx : Tcb → Tcb
but_idx b = record b { idx = 0 }

module _ (cfg : Tuning) (p : ℕ) where
  next_slot-shift_slot :
      (i j : ℕ) (k : Kernel)
      → i ≤ j
      → next_slot cfg (shift_slot cfg p i k) p j ≡ next_slot cfg k p j
  unfolding next_slot shift_slot
  next_slot-shift_slot i j k h = ground arith

  -- Each place of the range takes the next one's thread; the others keep theirs.
  pub schedule-shift_slots :
      (n i : ℕ) (k : Kernel) (q j : ℕ)
      → (shift_slots cfg p i n k).schedule q j
        ≡ (if q == p && (leb i j && ltb j (i + n)) then next_slot cfg k p j else k.schedule q j)
  unfolding shift_slots
  schedule-shift_slots zero i k q j = ground arith
  schedule-shift_slots (suc n) i k q j =
      unfold shift_slot in
      ground (
        arith,
        schedule-shift_slots n (i + 1) (shift_slot cfg p i k) q j,
        next_slot-shift_slot i j k,
      )

  -- A thread that no round writes keeps its index.
  pub idx-shift_slots_ne :
      (n i : ℕ) (k : Kernel) (s : ℕ)
      → ((j : ℕ) → i ≤ j → j < i + n → next_slot cfg k p j ≢ s)
      → ((shift_slots cfg p i n k).pool s).idx ≡ (k.pool s).idx
  unfolding shift_slots
  idx-shift_slots_ne zero i k s h = refl
  idx-shift_slots_ne (suc n) i k s h =
      idx-shift_slots_ne n (i + 1) (shift_slot cfg p i k) s
        (λ j a b. rw (next_slot-shift_slot i j k (omega arith)) (h j (omega arith) (omega arith)))
      ∙ first (h i (omega arith) (omega arith))
    where
      first : next_slot cfg k p i ≢ s → ((shift_slot cfg p i k).pool s).idx ≡ (k.pool s).idx
      first ne = unfold shift_slot in ground arith

  -- The last round that writes a thread gives its index.
  pub idx-shift_slots_eq :
      (n i : ℕ) (k : Kernel) (s j : ℕ)
      → i ≤ j
      → j < i + n
      → next_slot cfg k p j ≡ s
      → ((j' : ℕ) → j < j' → j' < i + n → next_slot cfg k p j' ≢ s)
      → ((shift_slots cfg p i n k).pool s).idx ≡ j
  unfolding shift_slots
  idx-shift_slots_eq zero i k s j a b e h = absurd (omega arith)
  idx-shift_slots_eq (suc n) i k s j a b e h = elim (Bool-cases (i == j)) [
    | inl now ↦
        idx-shift_slots_ne n (i + 1) (shift_slot cfg p i k) s (λ j' a' b'.
          rw (next_slot-shift_slot i j' k (omega arith))
            (h j' (omega (arith, ==→eq i j now)) (omega arith)))
        ∙ first now
    | inr later ↦
        idx-shift_slots_eq n (i + 1) (shift_slot cfg p i k) s j (omega (arith, ==→ne i j later))
          (omega arith) (next_slot-shift_slot i j k a ∙ e)
          (λ j' a' b'. rw (next_slot-shift_slot i j' k (omega arith)) (h j' a' (omega arith)))
  ]
    where
      first : (i == j) ≡ true → ((shift_slot cfg p i k).pool s).idx ≡ j
      first now = unfold shift_slot in ground arith

  -- Nothing else of a control block changes.
  pub but_idx-shift_slots :
      (n i : ℕ) (k : Kernel) (s : ℕ)
      → but_idx ((shift_slots cfg p i n k).pool s) ≡ but_idx (k.pool s)
  unfolding shift_slots
  but_idx-shift_slots zero i k s = refl
  but_idx-shift_slots (suc n) i k s = but_idx-shift_slots n (i + 1) (shift_slot cfg p i k) s ∙ first
    where
      first : but_idx ((shift_slot cfg p i k).pool s) ≡ but_idx (k.pool s)
      first = unfold shift_slot in ground arith

  -- Nor does anything else of the kernel.
  pub rest-shift_slots :
      (n i : ℕ) (k : Kernel)
      → record (shift_slots cfg p i n k) { pool = k.pool; schedule = k.schedule } ≡ k
  unfolding shift_slots
  rest-shift_slots zero i k = refl
  rest-shift_slots (suc n) i k =
      ap (λ (m : Kernel). record m { pool = k.pool; schedule = k.schedule })
        (rest-shift_slots n (i + 1) (shift_slot cfg p i k))
      ∙ unfold shift_slot in refl
