-- ===== src/Search/Sorted.antt =====
-- What `_tk_quicksort` and `qsort` leave.
use tinker.Base.{
  ℕ, zero, suc, ◌+◌, ◌-◌, ◌≤◌, ◌<◌, ◌≡◌, refl, ap, ◌∙◌, inl, inr, ltb, ◌==◌, Bool-cases, ==→eq,
  ==→ne, ltb→lt, ltb→le, lt→ltb, arith,
}
use tinker.Kernel.State.{Outcome, done, ◌>>=◌}
use tinker.Search.Binary.{Sign}
use tinker.Search.Sort.{swap, partition, quicksort, qsort}
use tinker.Search.Shuffle.{
  Shuffled, same, exchange, swap_left, swap_right, swap_other, Shuffled-trans, Shuffled-widen,
  Shuffled-outside, Shuffled-all, IsRearranged, Shuffled-IsRearranged,
}
use tinker.Search.Scans.{InOrder, InOrder-carry, IsOrder, InOrder-refl}
use tinker.Search.Partition.{IsParted, partition-IsParted}

-- The elements from `l` to `r` are in order.
abbrev pub IsAscending {ℓ} : {A : Type ℓ} → (A → A → Sign) → ℕ → ℕ → (ℕ → A) → Type 0
IsAscending cmp l r a = (p q : ℕ) → l ≤ p → p ≤ q → q ≤ r → InOrder cmp (a p) (a q)

-- The element before the places from `l` to `r` is no higher than any of theirs.
abbrev pub IsGuarded {ℓ} : {A : Type ℓ} → (A → A → Sign) → ℕ → ℕ → (ℕ → A) → Type 0
IsGuarded cmp l r a = (p : ℕ) → l ≤ p → p ≤ r → InOrder cmp (a (l - 1)) (a p)

module _ {ℓ} {A : Type ℓ} (cmp : A → A → Sign) (ord : IsOrder cmp) where
  -- The place `p` parts the range: no element before it is higher, none after it lower.
  record IsSplit (l r p : ℕ) (c : ℕ → A) : Type 0 where
    low : (q : ℕ) → l ≤ q → q < p → InOrder cmp (c q) (c p)
    high : (q : ℕ) → p < q → q ≤ r → InOrder cmp (c p) (c q)

  swap-IsSplit : {l r p : ℕ} {b : ℕ → A} → IsParted cmp ord l r p b → IsSplit l r p (swap b p r)
  swap-IsSplit {l} {r} {p} {b} parted = record {
    low = λ q x y.
        InOrder-carry cmp ord
          (swap_other b p r q (λ e. omega arith) (λ e. omega (arith, parted.to))) (swap_left b p r)
          (parted.low q x y);
    high = λ q x y. elim (Bool-cases (q == r)) [
      | inl e ↦
          InOrder-carry cmp ord (swap_left b p r) (ap (swap b p r) (==→eq q r e) ∙ swap_right b p r)
            (parted.high p (omega arith) parted.to)
      | inr e ↦
          InOrder-carry cmp ord (swap_left b p r)
            (swap_other b p r q (λ g. omega arith) (==→ne q r e)) (parted.high q (omega arith) y)
    ];
  }

  -- Both sides sorted, the whole is.
  module _ {l r p : ℕ} {c d e : ℕ → A} (split : IsSplit l r p c) (place : (l ≤ p) × (p ≤ r))
      (pos : 0 < l) (left : Shuffled l (p - 1) c d) (right : Shuffled (p + 1) r d e)
      (left_done : IsAscending cmp l (p - 1) d) (right_done : IsAscending cmp (p + 1) r e) where
    at_p : e p ≡ c p
    at_p =
        Shuffled-outside p right (inl (omega arith))
        ∙ Shuffled-outside p left (inr (omega (arith, place)))

    low_end : (q : ℕ) → l ≤ q → q < p → InOrder cmp (e q) (e p)
    low_end q x y = InOrder-carry cmp ord (Shuffled-outside q right (inl (omega arith))) at_p (
        Shuffled-all (λ z. InOrder cmp z (c p)) left (λ k u v. split.low k u (omega arith)) q x
          (omega arith))

    high_end : (q : ℕ) → p < q → q ≤ r → InOrder cmp (e p) (e q)
    high_end q x y = InOrder-carry cmp ord at_p refl (
        Shuffled-all (λ z. InOrder cmp (c p) z) right
          (λ k u v.
            InOrder-carry cmp ord refl (Shuffled-outside k left (inr (omega arith)))
              (split.high k (omega arith) v))
          q (omega arith) y)

    joined-IsAscending : IsAscending cmp l r e
    joined-IsAscending i j x y z = elim (Bool-cases (ltb j p)) [
      | inl h ↦
          let g = ltb→lt j p h in
          InOrder-carry cmp ord (Shuffled-outside i right (inl (omega arith)))
            (Shuffled-outside j right (inl (omega arith))) (left_done i j x y (omega arith))
      | inr h ↦
          let g = ltb→le j p h in
          elim (Bool-cases (ltb p i)) [
            | inl k ↦ right_done i j (omega (arith, ltb→lt p i k)) y z
            | inr k ↦ ord.chain (e i) (e p) (e j) (up_to i x (ltb→le p i k)) (from j g z)
          ]
    ]
      where
        up_to : (q : ℕ) → l ≤ q → q ≤ p → InOrder cmp (e q) (e p)
        up_to q x y = elim (Bool-cases (q == p)) [
          | inl h ↦ InOrder-carry cmp ord (ap e (==→eq q p h)) refl (InOrder-refl cmp ord (e p))
          | inr h ↦ let g = ==→ne q p h in low_end q x (omega arith)
        ]

        from : (q : ℕ) → p ≤ q → q ≤ r → InOrder cmp (e p) (e q)
        from q x y = elim (Bool-cases (q == p)) [
          | inl h ↦ InOrder-carry cmp ord refl (ap e (==→eq q p h)) (InOrder-refl cmp ord (e p))
          | inr h ↦ let g = ==→ne q p h in high_end q (omega arith) y
        ]

  quicksort-steps :
      (fuel l r p : ℕ) (a b d : ℕ → A) (o : Outcome (ℕ → A))
      → l < r
      → partition cmp (r + 1) (l - 1) r r a ≡ done (p, b)
      → quicksort cmp fuel l (p - 1) (swap b p r) ≡ done d
      → quicksort cmp fuel (p + 1) r d ≡ o
      → quicksort cmp (suc fuel) l r a ≡ o
  unfolding quicksort
  quicksort-steps fuel l r p a b d o h e f g =
      rw (quicksort, lt→ltb l r h, e) (ap (λ z. z >>= λ x. quicksort cmp fuel (p + 1) r x) f ∙ g)

  quicksort_lem :
      (fuel l r : ℕ) (a : ℕ → A)
      → r + 1 - l < fuel
      → 0 < l
      → IsGuarded cmp l r a
      → (b : ℕ → A) × (quicksort cmp fuel l r a ≡ done b) × Shuffled l r a b × IsAscending cmp l r b
  unfolding quicksort
  quicksort_lem zero l r a f pos guard = absurd (omega arith)
  quicksort_lem (suc fuel) l r a f pos guard = elim (Bool-cases (ltb l r)) [
    | inr over ↦ (
      a,
      rw over refl,
      same,
      λ p q x y z.
          InOrder-carry cmp ord (ap a (omega (arith, ltb→le l r over))) refl
            (InOrder-refl cmp ord (a q)),
    )
    | inl goes ↦
        let u =
          partition-IsParted cmp ord l r a pos (ltb→lt l r goes)
            (guard r (omega (arith, ltb→lt l r goes)) (omega arith)) in
        let p : ℕ = u.0 in
        let parted : IsParted cmp ord l r p u.1 = u.3 in
        let c : ℕ → A = swap u.1 p r in
        let moved : Shuffled l r a c =
          exchange p r u.4 (parted.from, parted.to) (omega (arith, ltb→lt l r goes), omega arith) in
        let split : IsSplit l r p c = swap-IsSplit parted in
        let left =
          quicksort_lem fuel l (p - 1) c (omega (arith, parted.from, parted.to, ltb→lt l r goes))
            pos (left_guard moved parted) in
        let right =
          quicksort_lem fuel (p + 1) r left.0
            (omega (arith, parted.from, parted.to, ltb→lt l r goes)) (omega arith)
            (right_guard split left.2 parted) in
        (
          right.0,
          quicksort-steps fuel l r p a u.1 left.0 (done right.0) (ltb→lt l r goes) u.2 left.1
              right.1,
          Shuffled-trans moved (
              Shuffled-trans (Shuffled-widen (omega arith) (omega (arith, parted.to)) left.2)
                (Shuffled-widen (omega (arith, parted.from)) (omega arith) right.2)),
          joined-IsAscending split (parted.from, parted.to) pos left.2 right.2 left.3 right.3,
        )
  ]
    where
      left_guard :
          {p : ℕ} {b c : ℕ → A}
          → Shuffled l r a c
          → IsParted cmp ord l r p b
          → IsGuarded cmp l (p - 1) c
      left_guard moved parted q x y =
          InOrder-carry cmp ord (Shuffled-outside (l - 1) moved (inl (omega arith))) refl (
            Shuffled-all (λ z. InOrder cmp (a (l - 1)) z) moved guard q x
              (omega (arith, parted.to)))

      right_guard :
          {p : ℕ} {b c d : ℕ → A}
          → IsSplit l r p c
          → Shuffled l (p - 1) c d
          → IsParted cmp ord l r p b
          → IsGuarded cmp (p + 1) r d
      right_guard {p} {b} {c} {d} split moved parted q x y =
          let kept : (k : ℕ) → p ≤ k → d k ≡ c k =
            λ k h. Shuffled-outside k moved (inr (omega (arith, parted.from))) in
          InOrder-carry cmp ord (ap d (omega arith) ∙ kept p (omega arith)) (kept q (omega arith))
            (split.high q (omega arith) y)

-- `qsort` of `count` elements, of at most 255 bytes each, none of them lower than what stands before the array, ends. It leaves
-- the elements in ascending order, each as often as before, and changes nothing outside the array.
pub qsort-IsAscending {ℓ} :
    {A : Type ℓ} (cmp : A → A → Sign) (count : ℕ) (a : ℕ → A)
    → IsOrder cmp
    → IsGuarded cmp 1 count a
    → (b : ℕ → A) × (qsort cmp count a ≡ done b)
      × IsAscending cmp 1 count b
      × IsRearranged 1 count a b
unfolding qsort
qsort-IsAscending cmp count a ord guard =
    let q = quicksort_lem cmp ord (count + 1) 1 count a (omega arith) (omega arith) guard in
    (q.0, q.1, q.3, Shuffled-IsRearranged q.2)
