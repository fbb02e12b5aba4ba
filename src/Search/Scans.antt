-- ===== src/Search/Scans.antt =====
-- Where the two scans of `_tk_quicksort` stop.
use tinker.Base.{
  ℕ, zero, suc, ◌+◌, ◌≤◌, ◌<◌, ◌≡◌, ◌≢◌, refl, sym, subst, ◌∙◌, inl, inr, Bool, true, false, some,
  ◌==◌, Bool-cases, ==→eq, ==→ne, arith,
}
use tinker.Search.Binary.{Sign, below, equal, above}
use tinker.Search.Sort.{is_below, is_above, scan_up, scan_down}

-- `x` comes no later than `y`.
abbrev pub InOrder {ℓ} : {A : Type ℓ} → (A → A → Sign) → A → A → Type 0
InOrder cmp x y = is_above (cmp x y) ≡ false

-- What `qsort` demands of the function that compares.
pub record IsOrder {ℓ} {A : Type ℓ} (cmp : A → A → Sign) : Type ℓ where
  pub flip : (x y : A) → is_below (cmp x y) ≡ is_above (cmp y x)
  pub chain : (x y z : A) → InOrder cmp x y → InOrder cmp y z → InOrder cmp x z

not_both : (s : Sign) → is_below s ≡ is_above s → is_above s ≡ false
not_both below h = refl
not_both equal h = refl
not_both above h = sym h

below_not_above : (s : Sign) → is_below s ≡ true → is_above s ≡ false
below_not_above below h = refl
below_not_above equal h = refl
below_not_above above h = sym h

differ : (f : ℕ → Bool) (x y : ℕ) → f x ≡ true → f y ≡ false → x ≢ y
differ f x y p q e = cc

module _ {ℓ} {A : Type ℓ} (cmp : A → A → Sign) (ord : IsOrder cmp) where
  pub InOrder-refl : (x : A) → InOrder cmp x x
  InOrder-refl x = not_both (cmp x x) (ord.flip x x)

  -- `while (cmp(a[++i], v) < 0)` stops at a place up to `j`, if the element there is no lower.
  pub scan_up_lem :
      (fuel i j r : ℕ) (a : ℕ → A)
      → i < j
      → j ≤ i + fuel
      → InOrder cmp (a r) (a j)
      → (s : ℕ) × (scan_up cmp fuel i r a ≡ some s)
        × (i < s)
        × (s ≤ j)
        × InOrder cmp (a r) (a s)
        × ((p : ℕ) → i < p → p < s → InOrder cmp (a p) (a r))
  unfolding scan_up
  scan_up_lem zero i j r a h f stop = absurd (omega arith)
  scan_up_lem (suc fuel) i j r a h f stop = elim (Bool-cases (is_below (cmp (a (i + 1)) (a r)))) [
    | inr here ↦ (
      i + 1,
      rw here refl,
      omega arith,
      omega arith,
      sym (ord.flip (a (i + 1)) (a r)) ∙ here,
      λ p x y. absurd (omega arith),
    )
    | inl on ↦
        let apart =
          differ (λ p. is_below (cmp (a p) (a r))) (i + 1) j on (ord.flip (a j) (a r) ∙ stop) in
        let q = scan_up_lem fuel (i + 1) j r a (omega arith) (omega arith) stop in
        (
          q.0,
          rw on q.1,
          omega (arith, q.2),
          q.3,
          q.4,
          λ p x y. elim (Bool-cases (p == i + 1)) [
            | inl e ↦
                subst (λ k. InOrder cmp (a k) (a r)) (sym (==→eq p (i + 1) e))
                  (below_not_above (cmp (a (i + 1)) (a r)) on)
            | inr e ↦ let g = ==→ne p (i + 1) e in q.5 p (omega arith) y
          ],
        )
  ]

  -- `while (cmp(a[--j], v) > 0)` stops at a place from `i` on, if the element there is no higher.
  pub scan_down_lem :
      (i j r : ℕ) (a : ℕ → A)
      → i < j
      → InOrder cmp (a i) (a r)
      → (s : ℕ) × (scan_down cmp j r a ≡ some s)
        × (i ≤ s)
        × (s < j)
        × InOrder cmp (a s) (a r)
        × ((p : ℕ) → s < p → p < j → InOrder cmp (a r) (a p))
  unfolding scan_down
  scan_down_lem i zero r a h stop = absurd (omega arith)
  scan_down_lem i (suc j) r a h stop = elim (Bool-cases (is_above (cmp (a j) (a r)))) [
    | inr here ↦ (j, rw here refl, omega arith, omega arith, here, λ p x y. absurd (omega arith))
    | inl on ↦
        let apart = differ (λ p. is_above (cmp (a p) (a r))) j i on stop in
        let q = scan_down_lem i j r a (omega arith) stop in
        (
          q.0,
          rw on q.1,
          q.2,
          omega (arith, q.3),
          q.4,
          λ p x y. elim (Bool-cases (p == j)) [
            | inl e ↦
                subst (λ k. InOrder cmp (a r) (a k)) (sym (==→eq p j e))
                  (below_not_above (cmp (a r) (a j)) (ord.flip (a r) (a j) ∙ on))
            | inr e ↦ let g = ==→ne p j e in q.5 p x (omega arith)
          ],
        )
  ]

  pub InOrder-carry : {x y x' y' : A} → x' ≡ x → y' ≡ y → InOrder cmp x y → InOrder cmp x' y'
  InOrder-carry e f h = cc
