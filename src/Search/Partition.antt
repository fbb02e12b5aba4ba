-- ===== src/Search/Partition.antt =====
-- What the partition of `_tk_quicksort` leaves.
use tinker.Base.{
  ℕ, zero, suc, ◌+◌, ◌-◌, ◌≤◌, ◌<◌, ◌≡◌, ◌≢◌, refl, sym, ap, subst, ◌∙◌, inl, inr, true, false,
  some, leb, ltb, ◌==◌, Bool-cases, ==→eq, ==→ne, ltb→lt, ltb→le, leb→le, leb→lt, arith,
}
use tinker.Kernel.State.{done}
use tinker.Search.Binary.{Sign}
use tinker.Search.Sort.{swap, scan_up, scan_down, partition}
use tinker.Search.Shuffle.{
  Shuffled, same, exchange, swap_left, swap_right, swap_other, Shuffled-trans,
}
use tinker.Search.Scans.{InOrder, IsOrder, scan_up_lem, scan_down_lem, InOrder-refl, InOrder-carry}

module _ {ℓ} {A : Type ℓ} (cmp : A → A → Sign) (ord : IsOrder cmp) where
  -- The loop between its rounds: up to `i` no element is higher than the last, from `j` on none is
  -- lower.
  record IsParting (l i j r : ℕ) (a : ℕ → A) : Type 0 where
    order : i < j
    inside : j ≤ r
    edge : l ≤ i + 1
    stop : InOrder cmp (a i) (a r)
    low : (p : ℕ) → l ≤ p → p ≤ i → InOrder cmp (a p) (a r)
    high : (p : ℕ) → j ≤ p → p ≤ r → InOrder cmp (a r) (a p)

  -- The elements before the place `p` are no higher than the last one, the others no lower.
  pub record IsParted (l r p : ℕ) (b : ℕ → A) : Type 0 where
    pub from : l ≤ p
    pub to : p ≤ r
    pub low : (q : ℕ) → l ≤ q → q < p → InOrder cmp (b q) (b r)
    pub high : (q : ℕ) → p ≤ q → q ≤ r → InOrder cmp (b r) (b q)

  -- What one round of the two scans finds.
  record IsScanned (i j r s t : ℕ) (a : ℕ → A) : Type 0 where
    up : (i < s) × (s ≤ j)
    down : (i ≤ t) × (t < j)
    not_lower : InOrder cmp (a r) (a s)
    not_higher : InOrder cmp (a t) (a r)
    lower : (p : ℕ) → i < p → p < s → InOrder cmp (a p) (a r)
    higher : (p : ℕ) → t < p → p < j → InOrder cmp (a r) (a p)

  module _ {l i j r s t : ℕ} {a : ℕ → A} (ok : IsParting l i j r a)
      (found : IsScanned i j r s t a) where
    IsScanned-low : (p : ℕ) → l ≤ p → p < s → InOrder cmp (a p) (a r)
    IsScanned-low p x y = elim (Bool-cases (ltb i p)) [
      | inl h ↦ found.lower p (ltb→lt i p h) y
      | inr h ↦ ok.low p x (ltb→le i p h)
    ]

    IsScanned-high : (p : ℕ) → t < p → p ≤ r → InOrder cmp (a r) (a p)
    IsScanned-high p x y = elim (Bool-cases (ltb p j)) [
      | inl h ↦ found.higher p x (ltb→lt p j h)
      | inr h ↦ ok.high p (ltb→le p j h) y
    ]

    met-IsParted : t ≤ s → IsParted l r s a
    met-IsParted h = record {
      from = omega (arith, ok.edge, found.up.0);
      to = omega (arith, ok.inside, found.up.1);
      low = IsScanned-low;
      high = λ q x y. elim (Bool-cases (q == s)) [
        | inl e ↦ subst (λ k. InOrder cmp (a r) (a k)) (sym (==→eq q s e)) found.not_lower
        | inr e ↦ let g = ==→ne q s e in IsScanned-high q (omega arith) y
      ];
    }

    swapped-IsParting : s < t → IsParting l s t r (swap a s t)
    swapped-IsParting h =
        let kept : (p : ℕ) → p ≢ s → p ≢ t → swap a s t p ≡ a p = swap_other a s t in
        let last : swap a s t r ≡ a r =
          kept r (λ e. omega (arith, found.down, ok.inside))
            (λ e. omega (arith, found.down, ok.inside)) in
        record {
          order = h;
          inside = omega (arith, ok.inside, found.down);
          edge = omega (arith, ok.edge, found.up);
          stop = InOrder-carry cmp ord (swap_left a s t) last found.not_higher;
          low = λ p x y. elim (Bool-cases (p == s)) [
            | inl e ↦
                InOrder-carry cmp ord (ap (swap a s t) (==→eq p s e) ∙ swap_left a s t) last
                  found.not_higher
            | inr e ↦
                let g = ==→ne p s e in
                InOrder-carry cmp ord (kept p g (λ e. omega arith)) last
                  (IsScanned-low p x (omega arith))
          ];
          high = λ p x y. elim (Bool-cases (p == t)) [
            | inl e ↦
                InOrder-carry cmp ord last (ap (swap a s t) (==→eq p t e) ∙ swap_right a s t)
                  found.not_lower
            | inr e ↦
                let g = ==→ne p t e in
                InOrder-carry cmp ord last (kept p (λ e. omega arith) g)
                  (IsScanned-high p (omega arith) y)
          ];
        }

  module _ (fuel i j r s t : ℕ) (a : ℕ → A) (u : scan_up cmp (r + 1) i r a ≡ some s)
      (d : scan_down cmp j r a ≡ some t) where
    partition-met : leb t s ≡ true → partition cmp (suc fuel) i j r a ≡ done (s, a)
    unfolding partition
    partition-met h = rw (partition, u, d, h) refl

    partition-apart :
        leb t s ≡ false → partition cmp (suc fuel) i j r a ≡ partition cmp fuel s t r (swap a s t)
    unfolding partition
    partition-apart h = rw (partition, u, d, h) refl

  -- The loop ends, and parts the elements by the last one.
  partition_lem :
      (fuel l i j r : ℕ) (a : ℕ → A)
      → j < i + fuel
      → 0 < l
      → IsParting l i j r a
      → (p : ℕ) × (b : ℕ → A) × (partition cmp fuel i j r a ≡ done (p, b))
        × IsParted l r p b
        × Shuffled l r a b
  partition_lem zero l i j r a f pos ok = absurd (omega (arith, ok.order))
  partition_lem (suc fuel) l i j r a f pos ok =
      let u =
        scan_up_lem cmp ord (r + 1) i j r a ok.order (omega (arith, ok.inside))
          (ok.high j (omega arith) ok.inside) in
      let d = scan_down_lem cmp ord i j r a ok.order ok.stop in
      let found : IsScanned i j r u.0 d.0 a = record {
        up = (u.2, u.3);
        down = (d.2, d.3);
        not_lower = u.4;
        not_higher = d.4;
        lower = u.5;
        higher = d.5;
      } in
      elim (Bool-cases (leb d.0 u.0)) [
        | inl met ↦ (
          u.0,
          a,
          partition-met fuel i j r u.0 d.0 a u.1 d.1 met,
          met-IsParted ok found (leb→le d.0 u.0 met),
          same,
        )
        | inr apart ↦
            let q =
              partition_lem fuel l u.0 d.0 r (swap a u.0 d.0) (omega (arith, u.2, d.3)) pos
                (swapped-IsParting ok found (leb→lt d.0 u.0 apart)) in
            (
              q.0,
              q.1,
              partition-apart fuel i j r u.0 d.0 a u.1 d.1 apart ∙ q.2,
              q.3,
              Shuffled-trans
                  (exchange u.0 d.0 same (omega (arith, u, ok.edge), omega (arith, u, ok.inside))
                    (omega (arith, leb→lt d.0 u.0 apart, u, ok.edge), omega (arith, d, ok.inside)))
                  q.4,
            )
      ]

  pub partition-IsParted :
      (l r : ℕ) (a : ℕ → A)
      → 0 < l
      → l < r
      → InOrder cmp (a (l - 1)) (a r)
      → (p : ℕ) × (b : ℕ → A) × (partition cmp (r + 1) (l - 1) r r a ≡ done (p, b))
        × IsParted l r p b
        × Shuffled l r a b
  partition-IsParted l r a pos h edge =
      partition_lem (r + 1) l (l - 1) r r a (omega arith) pos (record {
        order = omega arith;
        inside = omega arith;
        edge = omega arith;
        stop = edge;
        low = λ p x y. absurd (omega arith);
        high = λ p x y.
            subst (λ k. InOrder cmp (a r) (a k)) (omega arith) (InOrder-refl cmp ord (a r));
      })
