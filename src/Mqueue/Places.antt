-- ===== src/Mqueue/Places.antt =====
-- The messages of a queue of src/mqueue.c in the order in which they leave it, and the loops that copy them.
use tinker.Base.{
  ℕ, zero, suc, ◌+◌, ◌%◌, ◌≤◌, ◌<◌, ◌≡◌, refl, sym, ap, ◌∙◌, inl, inr, true, update, update_self,
  update_ne, ltb, leb, ◌==◌, if◌then◌else◌, Bool-cases, ==→eq, ==→ne, ltb→lt, ltb→le, mod-eq_of_lt,
  add-mod_right, arith,
}
use tinker.Itc.Ring.{place, place_split, place_inj, place_next}
use tinker.Mqueue.State.{Mess, QueueD, numb_mess}
use tinker.Mqueue.Sort.{copy_out, copy_back}

-- The indices of a queue stand in its array.
pub record QueueOk (q : QueueD) : Type 0 where
  pub in_small : q.box.m_idx_in < q.mq_attr.maxmsg
  pub out_small : q.box.m_idx_out < q.mq_attr.maxmsg

pub start : (q : QueueD) → QueueOk q → q.box.m_idx_out ≡ place q.mq_attr.maxmsg q.box.m_idx_out 0
start q ok = sym (
    ap (λ x. x % q.mq_attr.maxmsg) {x = q.box.m_idx_out + 0} {y = q.box.m_idx_out} (omega arith)
    ∙ mod-eq_of_lt ok.out_small)

-- The index of the next place.
pub step_split : (i max : ℕ) → i < max → (i + 1) % max ≡ (if ltb (i + 1) max then i + 1 else 0)
step_split i max h = elim (Bool-cases (ltb (i + 1) max)) [
  | inl less ↦ rw less (mod-eq_of_lt (ltb→lt (i + 1) max less))
  | inr last ↦ rw last (
      ap (λ x. x % max) {x = i + 1} {y = 0 + max} (omega (arith, ltb→le (i + 1) max last))
      ∙ add-mod_right 0 max
      ∙ mod-eq_of_lt (omega arith))
]

-- The message that leaves the queue after `k` others.
abbrev pub nth : QueueD → ℕ → Mess
nth q k = q.box.mess_array (place q.mq_attr.maxmsg q.box.m_idx_out k)

pub numb_mess-lt : (q : QueueD) → QueueOk q → numb_mess q < q.mq_attr.maxmsg
unfolding numb_mess
numb_mess-lt q ok = ground (arith, ok.in_small, ok.out_small)

-- `mIdxIn` stands behind the last message.
pub place-numb_mess :
    (q : QueueD) → QueueOk q → place q.mq_attr.maxmsg q.box.m_idx_out (numb_mess q) ≡ q.box.m_idx_in
unfolding numb_mess
place-numb_mess q ok = ground (
  arith,
  place_split q.mq_attr.maxmsg q.box.m_idx_out (numb_mess q) ok.out_small (numb_mess-lt q ok),
  ok.in_small,
  ok.out_small,
)

-- A queue whose array is not passed at its end by the messages.
pub place-straight :
    (q : QueueD) (k : ℕ)
    → QueueOk q
    → leb q.box.m_idx_out q.box.m_idx_in ≡ true
    → k < numb_mess q
    → place q.mq_attr.maxmsg q.box.m_idx_out k ≡ q.box.m_idx_out + k
unfolding numb_mess
place-straight q k ok h less = mod-eq_of_lt (ground (arith, ok.in_small))

module _ (max : ℕ) where
  step_place : (i out d : ℕ) → i ≡ place max out d → (i + 1) % max ≡ place max out (d + 1)
  step_place i out d e = ap (λ x. (x + 1) % max) e ∙ place_next max out d

  -- The copy starts behind the place `d`.
  pub copy_out-before :
      (n i d p : ℕ) (arr temp : ℕ → Mess) → p ≤ d → copy_out n i d max arr temp p ≡ temp p
  unfolding copy_out
  copy_out-before zero i d p arr temp h = refl
  copy_out-before (suc n) i d p arr temp h =
      copy_out-before n ((i + 1) % max) (d + 1) p arr (update temp (d + 1) (arr i)) (omega arith)
      ∙ update_ne temp (d + 1) p (arr i) (λ e. omega arith)

  -- The copy of the message `p` behind `out` stands at `p + 1`.
  pub copy_out-inside :
      (n i d out p : ℕ) (arr temp : ℕ → Mess)
      → i ≡ place max out d
      → d ≤ p
      → p < d + n
      → copy_out n i d max arr temp (p + 1) ≡ arr (place max out p)
  unfolding copy_out
  copy_out-inside zero i d out p arr temp e h g = absurd (omega arith)
  copy_out-inside (suc n) i d out p arr temp e h g = elim (Bool-cases (p == d)) [
    | inl same ↦
        copy_out-before n ((i + 1) % max) (d + 1) (p + 1) arr (update temp (d + 1) (arr i))
          (omega (arith, ==→eq p d same))
        ∙ ap (λ x. update temp (d + 1) (arr i) (x + 1)) (==→eq p d same)
        ∙ update_self temp (d + 1) (arr i)
        ∙ ap arr (e ∙ ap (place max out) (sym (==→eq p d same)))
    | inr other ↦
        let apart = ==→ne p d other in
        copy_out-inside n ((i + 1) % max) (d + 1) out p arr (update temp (d + 1) (arr i))
          (step_place i out d e) (omega arith) (omega arith)
  ]

  copy_back-before :
      (n i d out p : ℕ) (arr temp : ℕ → Mess)
      → out < max
      → d + n ≤ max
      → i ≡ place max out d
      → p < d
      → copy_back n i d max temp arr (place max out p) ≡ arr (place max out p)
  unfolding copy_back
  copy_back-before zero i d out p arr temp u v e h = refl
  copy_back-before (suc n) i d out p arr temp u v e h =
      copy_back-before n ((i + 1) % max) (d + 1) out p (update arr i (temp (d + 1))) temp u
        (omega arith) (step_place i out d e) (omega arith)
      ∙ update_ne arr i (place max out p) (temp (d + 1)) (λ g.
        let same = place_inj max out p d u (omega arith) (omega arith) (g ∙ e) in omega arith)

  -- The message `p` behind `out` is the copy at `p + 1`.
  pub copy_back-inside :
      (n i d out p : ℕ) (arr temp : ℕ → Mess)
      → out < max
      → d + n ≤ max
      → i ≡ place max out d
      → d ≤ p
      → p < d + n
      → copy_back n i d max temp arr (place max out p) ≡ temp (p + 1)
  unfolding copy_back
  copy_back-inside zero i d out p arr temp u v e h g = absurd (omega arith)
  copy_back-inside (suc n) i d out p arr temp u v e h g = elim (Bool-cases (p == d)) [
    | inl same ↦
        copy_back-before n ((i + 1) % max) (d + 1) out p (update arr i (temp (d + 1))) temp u
          (omega arith) (step_place i out d e) (omega (arith, ==→eq p d same))
        ∙ ap (update arr i (temp (d + 1))) (ap (place max out) (==→eq p d same) ∙ sym e)
        ∙ update_self arr i (temp (d + 1))
        ∙ ap (λ x. temp (x + 1)) (sym (==→eq p d same))
    | inr other ↦
        let apart = ==→ne p d other in
        copy_back-inside n ((i + 1) % max) (d + 1) out p (update arr i (temp (d + 1))) temp u
          (omega arith) (step_place i out d e) (omega arith) (omega arith)
  ]
