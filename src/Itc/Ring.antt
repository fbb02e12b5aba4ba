-- ===== src/Itc/Ring.antt =====
-- The ring of waiting threads as a list in order of arrival: `_itc_removeBlocked` of
-- src/tk_itcshared.c.
use tinker.Base.{
  ℕ, zero, suc, ◌+◌, ◌-◌, ◌%◌, ◌≤◌, ◌<◌, ◌≡◌, ◌≢◌, refl, ap, ◌∙◌, inl, inr, true, false, Option,
  some, update, ltb, ◌==◌, if◌then◌else◌, Bool-cases, mod-eq_of_lt, mod-add-mod, add-mod_right,
  negsuc, is_neg, arith,
}
use tinker.Itc.State.{Itc}
use tinker.Itc.Shared.{back_idx, shift_blocked}

module _ (max : ℕ) where
  -- The place `j` behind `out`.
  abbrev pub place : ℕ → ℕ → ℕ
  place out j = (out + j) % max

  -- The thread that waits at position `j`.
  abbrev pub waiter : Itc → ℕ → Option ℕ
  waiter q j = q.blocked_procs (place q.out_idx j)

  -- `n` threads wait in the ring, and the token is -n if any do.
  pub record IsRing (q : Itc) (n : ℕ) : Type 0 where
    pub out_small : q.out_idx < max
    pub few : n < max
    pub end : q.in_idx ≡ place q.out_idx n
    pub owed : 0 < n → q.token ≡ negsuc (n - 1)
    pub owns : n ≡ 0 → is_neg q.token ≡ false

  pub place_split :
      (out j : ℕ)
      → out < max
      → j < max
      → place out j ≡ (if ltb (out + j) max then out + j else out + j - max)
  place_split out j a b = elim (Bool-cases (ltb (out + j) max)) [
    | inl small ↦ ground (arith, whole)
    | inr large ↦
        ap (λ x. x % max) {x = out + j} {y = out + j - max + max} (ground arith)
        ∙ add-mod_right (out + j - max) max
        ∙ wrapped
        ∙ ground arith
  ]
    where
      whole : out + j < max → place out j ≡ out + j
      whole h = mod-eq_of_lt h

      wrapped : (out + j - max) % max ≡ out + j - max
      wrapped = mod-eq_of_lt (omega arith)

  -- Different positions stand in different places.
  pub place_inj : (out i j : ℕ) → out < max → i < max → j < max → place out i ≡ place out j → i ≡ j
  place_inj out i j a b c e = ground (arith, place_split out i a b, place_split out j a c)

  pub place_next : (out j : ℕ) → (place out j + 1) % max ≡ place out (j + 1)
  place_next out j =
      mod-add-mod (out + j) max 1
      ∙ ap (λ x. x % max) {x = out + j + 1} {y = out + (j + 1)} (omega arith)

  pub place_back :
      (out n : ℕ) → out < max → n + 1 < max → back_idx max (place out (n + 1)) ≡ place out n
  place_back out n a b =
      ground (arith, place_split out (n + 1) a b, place_split out n a (omega arith))

  pub place_shift : (out j : ℕ) → place ((out + 1) % max) j ≡ place out (j + 1)
  place_shift out j =
      mod-add-mod (out + 1) max j
      ∙ ap (λ x. x % max) {x = out + 1 + j} {y = out + (j + 1)} (omega arith)

  -- The loop, from position `p` on, moves the `r` next ones up by one, and no earlier one.
  abbrev pub Shifted : (fuel r p out e : ℕ) → (ℕ → Option ℕ) → Type 0
  Shifted fuel r p out e b =
      (b' : ℕ → Option ℕ) × (shift_blocked max fuel (place out p) e b ≡ some b')
      × ((j : ℕ) → j < p → b' (place out j) ≡ b (place out j))
      × ((j : ℕ) → p ≤ j → j < p + r → b' (place out j) ≡ b (place out (j + 1)))

  abbrev moved_up : (p out : ℕ) → (ℕ → Option ℕ) → ℕ → Option ℕ
  moved_up p out b = update b (place out p) (b ((place out p + 1) % max))

  shift_step :
      (fuel r p out e : ℕ) (b : ℕ → Option ℕ)
      → out < max
      → p + suc r < max
      → e ≡ place out (p + suc r)
      → Shifted fuel r (p + 1) out e (moved_up p out b)
      → Shifted (suc fuel) (suc r) p out e b
  unfolding shift_blocked
  shift_step fuel r p out e b a h x (b', run, before, after) = (
    b',
    rw goes (ap (λ y. shift_blocked max fuel y e b1) (place_next out p) ∙ run),
    λ j c. before j (omega arith) ∙ update_far j (omega arith) (omega arith),
    λ j c d. elim (Bool-cases (j == p)) [
      | inl here ↦
          ap (λ y. b' (place out y)) {x = j} {y = p} (ground arith)
          ∙ before p (omega arith)
          ∙ update_here
          ∙ ap (λ y. b (place out (y + 1))) {x = p} {y = j} (ground arith)
      | inr later ↦
          after j (ground arith) (omega arith) ∙ update_far (j + 1) (omega arith) (ground arith)
    ],
  )
    where
      b1 : ℕ → Option ℕ
      b1 = moved_up p out b

      goes : (place out p == e) ≡ false
      goes = ground (arith, x, place_inj out p (p + suc r) a (omega arith) h)

      update_far : (j : ℕ) → j < max → j ≢ p → b1 (place out j) ≡ b (place out j)
      update_far j c d = ground (arith, place_inj out j p a c (omega arith))

      update_here : b1 (place out p) ≡ b (place out (p + 1))
      update_here = ground (arith, place_next out p)

  pub shift_blocked_lem :
      (fuel r p out e : ℕ) (b : ℕ → Option ℕ)
      → out < max
      → p + r < max
      → r < fuel
      → e ≡ place out (p + r)
      → Shifted fuel r p out e b
  unfolding shift_blocked
  shift_blocked_lem zero r p out e b a h f x = absurd (omega arith)
  shift_blocked_lem (suc fuel) zero p out e b a h f x =
      (b, rw ended, λ j c. refl, λ j c d. absurd (omega arith))
    where
      ended : (place out p == e) ≡ true
      ended = ground (arith, x ∙ ap (place out) {x = p + 0} {y = p} (omega arith))
  shift_blocked_lem (suc fuel) (suc r) p out e b a h f x = shift_step fuel r p out e b a h x (
      shift_blocked_lem fuel r (p + 1) out e (moved_up p out b) a (omega arith) (omega arith)
        (x ∙ ap (place out) {x = p + suc r} {y = p + 1 + r} (omega arith)))
