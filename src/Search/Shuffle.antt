-- ===== src/Search/Shuffle.antt =====
-- Exchanges within a range of places, and what they keep.
use tinker.Base.{
  ℕ, ◌≤◌, ◌<◌, ◌≡◌, ◌≢◌, refl, sym, ap, subst, ◌∙◌, ◌⊎◌, inl, inr, update, update_self, update_ne,
  ◌==◌, if◌then◌else◌, Bool-cases, ==→eq, ==→ne, arith,
}
use tinker.Search.Sort.{swap}

-- The memory `c` comes from `a` by exchanges of places from `l` to `r`.
pub data Shuffled {ℓ} {A : Type ℓ} (l r : ℕ) (a : ℕ → A) : (ℕ → A) → Type ℓ where
  same : Shuffled l r a a
  exchange :
      {b : ℕ → A} (i j : ℕ)
      → Shuffled l r a b
      → (l ≤ i) × (i ≤ r)
      → (l ≤ j) × (j ≤ r)
      → Shuffled l r a (swap b i j)

-- The memory `b` has the elements of `a`, each as often, at the places that `from` tells, and
-- outside the places from `l` to `r` it has those of `a` where they were.
pub record IsRearranged {ℓ} {A : Type ℓ} (l r : ℕ) (a b : ℕ → A) : Type ℓ where
  pub from : ℕ → ℕ
  pub back : ℕ → ℕ
  pub from_back : (p : ℕ) → from (back p) ≡ p
  pub back_from : (p : ℕ) → back (from p) ≡ p
  pub moved : (p : ℕ) → b p ≡ a (from p)
  pub inside : (p : ℕ) → l ≤ p → p ≤ r → (l ≤ from p) × (from p ≤ r)
  pub inside_back : (p : ℕ) → l ≤ p → p ≤ r → (l ≤ back p) × (back p ≤ r)
  pub kept : (p : ℕ) → (p < l) ⊎ (r < p) → b p ≡ a p

abbrev exchanged : ℕ → ℕ → ℕ → ℕ
exchanged i j p = if p == j then i else if p == i then j else p

exchanged_twice : (i j p : ℕ) → exchanged i j (exchanged i j p) ≡ p
exchanged_twice i j p = ground arith

exchanged_inside :
    (l r i j p : ℕ)
    → (l ≤ i) × (i ≤ r)
    → (l ≤ j) × (j ≤ r)
    → (l ≤ p) × (p ≤ r)
    → (l ≤ exchanged i j p) × (exchanged i j p ≤ r)
exchanged_inside l r i j p u v h = ground arith

module _ {ℓ} {A : Type ℓ} where
  pub swap_left : (b : ℕ → A) (i j : ℕ) → swap b i j i ≡ b j
  swap_left b i j = elim (Bool-cases (i == j)) [
    | inl e ↦ rw e (ap b (==→eq i j e))
    | inr e ↦ update_ne (update b i (b j)) j i (b i) (==→ne i j e) ∙ update_self b i (b j)
  ]

  pub swap_right : (b : ℕ → A) (i j : ℕ) → swap b i j j ≡ b i
  swap_right b i j = update_self (update b i (b j)) j (b i)

  pub swap_other : (b : ℕ → A) (i j p : ℕ) → p ≢ i → p ≢ j → swap b i j p ≡ b p
  swap_other b i j p h g = update_ne (update b i (b j)) j p (b i) g ∙ update_ne b i p (b j) h

  swap-exchanged : (b : ℕ → A) (i j p : ℕ) → swap b i j p ≡ b (exchanged i j p)
  swap-exchanged b i j p = elim (Bool-cases (p == j)) [
    | inl e ↦ rw e refl
    | inr e ↦ elim (Bool-cases (p == i)) [ inl h ↦ rw (e, h) refl | inr h ↦ rw (e, h) refl ]
  ]

  pub Shuffled-trans :
      {l r : ℕ} {a b c : ℕ → A} → Shuffled l r a b → Shuffled l r b c → Shuffled l r a c
  Shuffled-trans p same = p
  Shuffled-trans p (exchange i j q x y) = exchange i j (Shuffled-trans p q) x y

  pub Shuffled-widen :
      {l r l' r' : ℕ} {a b : ℕ → A} → l' ≤ l → r ≤ r' → Shuffled l r a b → Shuffled l' r' a b
  Shuffled-widen x y same = same
  Shuffled-widen x y (exchange i j q u v) =
      exchange i j (Shuffled-widen x y q) (omega arith) (omega arith)

  -- A place out of the range keeps its element.
  pub Shuffled-outside :
      {l r : ℕ} {a b : ℕ → A} (p : ℕ) → Shuffled l r a b → (p < l) ⊎ (r < p) → b p ≡ a p
  Shuffled-outside p same h = refl
  Shuffled-outside p (exchange {b} i j q u v) h =
      swap_other b i j p (λ e. omega arith) (λ e. omega arith) ∙ Shuffled-outside p q h

  -- What holds of every element of the range still does.
  pub Shuffled-all :
      {l r : ℕ} {a b : ℕ → A} (P : A → Type 0)
      → Shuffled l r a b
      → ((p : ℕ) → l ≤ p → p ≤ r → P (a p))
      → (p : ℕ) → l ≤ p
      → p ≤ r
      → P (b p)
  Shuffled-all P same h = h
  Shuffled-all P (exchange {b} i j q u v) h = λ p x y.
      subst P (sym (swap-exchanged b i j p))
        (Shuffled-all P q h (exchanged i j p) (ground arith) (ground arith))

  pub Shuffled-IsRearranged : {l r : ℕ} {a b : ℕ → A} → Shuffled l r a b → IsRearranged l r a b
  Shuffled-IsRearranged same = record {
    from = λ p. p;
    back = λ p. p;
    from_back = λ p. refl;
    back_from = λ p. refl;
    moved = λ p. refl;
    inside = λ p x y. (x, y);
    inside_back = λ p x y. (x, y);
    kept = λ p h. refl;
  }
  Shuffled-IsRearranged {l = l} {r = r} (exchange {b} i j q u v) =
      let w = Shuffled-IsRearranged q in
      record {
        from = λ p. w.from (exchanged i j p);
        back = λ p. exchanged i j (w.back p);
        from_back = λ p. ap w.from (exchanged_twice i j (w.back p)) ∙ w.from_back p;
        back_from = λ p. ap (exchanged i j) (w.back_from (exchanged i j p)) ∙ exchanged_twice i j p;
        moved = λ p. swap-exchanged b i j p ∙ w.moved (exchanged i j p);
        inside = λ p x y.
            let e = exchanged_inside l r i j p u v (x, y) in w.inside (exchanged i j p) e.0 e.1;
        inside_back = λ p x y. exchanged_inside l r i j (w.back p) u v (w.inside_back p x y);
        kept = λ p h. Shuffled-outside p (exchange i j q u v) h;
      }
