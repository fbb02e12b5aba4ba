-- ===== src/Itc/Removal.antt =====
-- `_itc_removeBlocked` of src/tk_itcshared.c on the list of the waiting threads.
use tinker.Base.{
  ℕ, zero, suc, ◌+◌, ◌-◌, ◌%◌, ◌≤◌, ◌<◌, ◌≡◌, ◌≢◌, sym, ap, ◌∙◌, inl, inr, true, false, Option,
  none, some, update, ◌==◌, Bool-cases, mod-lt, mod-eq_of_lt, arith, update_ne, ==→eq, negsuc,
  inc_ℤ, is_neg,
}
use tinker.Itc.State.{Itc}
use tinker.Itc.Shared.{back_idx, shift_blocked, remove_blocked}
use tinker.Itc.Ring.{place, waiter, IsRing, place_inj, place_back, place_shift, shift_blocked_lem}

-- The ring `q'` is the ring `q`, of `m + 1` threads, less the one at position `p`.
pub record IsRemoved (max : ℕ) (q : Itc) (m p : ℕ) (q' : Itc) : Type 0 where
  pub ring : IsRing max q' m
  pub before : (j : ℕ) → j < p → waiter max q' j ≡ waiter max q j
  pub after : (j : ℕ) → p ≤ j → j < m → waiter max q' j ≡ waiter max q (j + 1)

pub inc_owed : (m : ℕ) → 0 < m → inc_ℤ (negsuc (m + 1 - 1)) ≡ negsuc (m - 1)
inc_owed zero h = absurd (omega arith)
inc_owed (suc m) h =
    ap (λ x. inc_ℤ (negsuc x)) {x = suc m + 1 - 1} {y = suc m} (omega arith)
    ∙ ap negsuc {x = m} {y = suc m - 1} (omega arith)

pub inc_owns : (m : ℕ) → m ≡ 0 → is_neg (inc_ℤ (negsuc (m + 1 - 1))) ≡ false
inc_owns m h = ap (λ x. is_neg (inc_ℤ (negsuc x))) {x = m + 1 - 1} {y = 0} (omega arith)

module _ (max : ℕ) (q : Itc) (m p : ℕ) (ok : IsRing max q (m + 1)) (within : p ≤ m) where
  token_owed : 0 < m → inc_ℤ q.token ≡ negsuc (m - 1)
  token_owed h = ap inc_ℤ (ok.owed (omega arith)) ∙ inc_owed m h

  token_owns : m ≡ 0 → is_neg (inc_ℤ q.token) ≡ false
  token_owns h = ap (λ t. is_neg (inc_ℤ t)) (ok.owed (omega arith)) ∙ inc_owns m h

  abbrev idx : ℕ
  idx = place max q.out_idx p

  back_end : back_idx max q.in_idx ≡ place max q.out_idx m
  back_end = ap (back_idx max) ok.end ∙ place_back max q.out_idx m ok.out_small ok.few

  untouched :
      (j : ℕ)
      → j ≤ m
      → j ≢ p
      → update q.blocked_procs idx none (place max q.out_idx j)
        ≡ q.blocked_procs (place max q.out_idx j)
  untouched j h n = update_ne q.blocked_procs idx (place max q.out_idx j) none (λ e.
      n (
        place_inj max q.out_idx j p ok.out_small (omega (arith, ok.few)) (omega (arith, ok.few)) e))

  -- The first thread leaves.
  first-IsRemoved :
      p ≡ 0
      → IsRemoved max q m p (record q {
        blocked_procs = update q.blocked_procs idx none;
        out_idx = (q.out_idx + 1) % max;
        token = inc_ℤ q.token;
      })
  first-IsRemoved e = record {
    ring = record {
      out_small = mod-lt (q.out_idx + 1) (omega (arith, ok.few));
      few = omega (arith, ok.few);
      end = ok.end ∙ sym (place_shift max q.out_idx m);
      owed = token_owed;
      owns = token_owns;
    };
    before = λ j h. absurd (omega arith);
    after = λ j a b. ap (update q.blocked_procs idx none) (place_shift max q.out_idx j) ∙ other j b;
  }
    where
      other :
          (j : ℕ)
          → j < m
          → update q.blocked_procs idx none (place max q.out_idx (j + 1))
            ≡ q.blocked_procs (place max q.out_idx (j + 1))
      other j b = untouched (j + 1) (omega arith) (omega arith)

  -- The last thread leaves.
  last-IsRemoved :
      p ≡ m
      → IsRemoved max q m p (record q {
        blocked_procs = update q.blocked_procs idx none;
        in_idx = back_idx max q.in_idx;
        token = inc_ℤ q.token;
      })
  last-IsRemoved e = record {
    ring = record {
      out_small = ok.out_small;
      few = omega (arith, ok.few);
      end = back_end;
      owed = token_owed;
      owns = token_owns;
    };
    before = λ j h. untouched j (omega arith) (omega arith);
    after = λ j a b. absurd (omega arith);
  }

  -- Another thread leaves, and those behind it move up.
  middle-IsRemoved :
      (b : ℕ → Option ℕ)
      → ((j : ℕ) → j < p → b (place max q.out_idx j) ≡ q.blocked_procs (place max q.out_idx j))
      → ((j : ℕ)
          → p ≤ j
          → j < m + 1
          → b (place max q.out_idx j) ≡ q.blocked_procs (place max q.out_idx (j + 1)))
      → IsRemoved max q m p
          (record q { blocked_procs = b; in_idx = back_idx max q.in_idx; token = inc_ℤ q.token })
  middle-IsRemoved b low high = record {
    ring = record {
      out_small = ok.out_small;
      few = omega (arith, ok.few);
      end = back_end;
      owed = token_owed;
      owns = token_owns;
    };
    before = low;
    after = λ j a c. high j a (omega arith);
  }

  -- In a ring of waiting threads whose token is right, `_itc_removeBlocked` ends for each position
  -- `p` of the ring. The thread there leaves, those behind it move up by one in their order, and the
  -- token is right again.
  pub remove_blocked-IsRemoved :
      (q' : Itc) × (remove_blocked max (place max q.out_idx p) q ≡ some q') × IsRemoved max q m p q'
  unfolding remove_blocked
  remove_blocked-IsRemoved = elim (Bool-cases (q.out_idx == idx)) [
    | inl first ↦ (_, rw first, first-IsRemoved (is_first first))
    | inr other ↦ elim (Bool-cases (back_idx max q.in_idx == idx)) [
      | inl last ↦ (_, rw (other, last), last-IsRemoved (is_last last))
      | inr middle ↦ (_, rw (other, middle, moved.1), middle-IsRemoved moved.0 moved.2 moved.3)
    ]
  ]
    where
      is_first : (q.out_idx == idx) ≡ true → p ≡ 0
      is_first e =
          place_inj max q.out_idx p 0 ok.out_small (omega (arith, ok.few)) (omega (arith, ok.few)) (
            sym (==→eq _ _ e)
            ∙ sym (mod-eq_of_lt ok.out_small)
            ∙ ap (λ x. x % max) {x = q.out_idx} {y = q.out_idx + 0} (omega arith))

      is_last : (back_idx max q.in_idx == idx) ≡ true → p ≡ m
      is_last e =
          place_inj max q.out_idx p m ok.out_small (omega (arith, ok.few)) (omega (arith, ok.few))
            (sym (==→eq _ _ e) ∙ back_end)

      moved :
          (b : ℕ → Option ℕ) × (shift_blocked max (max + 1) idx q.in_idx q.blocked_procs ≡ some b)
          × ((j : ℕ) → j < p → b (place max q.out_idx j) ≡ q.blocked_procs (place max q.out_idx j))
          × ((j : ℕ)
              → p ≤ j
              → j < m + 1
              → b (place max q.out_idx j) ≡ q.blocked_procs (place max q.out_idx (j + 1)))
      moved =
          let r =
            shift_blocked_lem max (max + 1) (m + 1 - p) p q.out_idx q.in_idx q.blocked_procs
              ok.out_small (omega (arith, ok.few)) (omega (arith, ok.few))
              (ok.end ∙ ap (place max q.out_idx) {x = m + 1} {y = p + (m + 1 - p)} (omega arith)) in
          (r.0, r.1, r.2, λ j a c. r.3 j a (omega arith))
