-- ===== src/Search/Found.antt =====
-- What the binary search of src/tk_ansi_search.c returns.
use tinker.Base.{
  ℕ, zero, suc, ◌+◌, ◌-◌, ◌/◌, ◌≤◌, ◌<◌, ◌≡◌, ◌≢◌, refl, sym, ap, ◌∙◌, ◌⊎◌, inl, inr, Bool, true,
  false, Option, none, some, ltb, if◌then◌else◌, Bool-cases, ltb→lt, ltb→le, ℤ, pos, negsuc, arith,
}
use tinker.Kernel.State.{done, hangs, ◌>>=◌}
use tinker.Search.Binary.{Sign, below, equal, above, bsearch_from, found_at, bsearch}

-- The elements in order, as the key sees them: above it come only such ones, and below it likewise.
pub record IsSorted (cmp : ℕ → Sign) : Type 0 where
  pub up : (i j : ℕ) → i ≤ j → cmp i ≡ below → cmp j ≡ below
  pub down : (i j : ℕ) → i ≤ j → cmp j ≡ above → cmp i ≡ above

-- The place `p` parts the elements of `n` that the key is above from those that it is below.
pub record IsGap (cmp : ℕ → Sign) (n p : ℕ) : Type 0 where
  pub inside : p ≤ n
  pub before : (i : ℕ) → i < p → cmp i ≡ above
  pub after : (i : ℕ) → p ≤ i → i < n → cmp i ≡ below

-- The answer is the index of an equal element, or -p - 1 for the place `p` where the key belongs.
abbrev pub IsAnswer : (ℕ → Sign) → ℕ → ℤ → Type 0
IsAnswer cmp n (pos x) = (x < n) × (cmp x ≡ equal)
IsAnswer cmp n (negsuc p) = IsGap cmp n p

abbrev end_of : ℕ × Bool → ℕ
end_of y = if y.1 then y.0 else y.0 + 1

-- What the loop knows: the places it has left, and how it left the last one.
record IsNarrowed (cmp : ℕ → Sign) (n l e : ℕ) (last : Option (ℕ × Bool)) : Type 0 where
  order : l ≤ e
  inside : e ≤ n
  before : (i : ℕ) → i < l → cmp i ≡ above
  after : (i : ℕ) → e ≤ i → i < n → cmp i ≡ below
  edge : l ≡ e → (y : ℕ × Bool) × (last ≡ some y) × (end_of y ≡ l)

Sign-cases : (s : Sign) → (s ≡ below) ⊎ (s ≡ equal) ⊎ (s ≡ above)
Sign-cases below = inl refl
Sign-cases equal = inr (inl refl)
Sign-cases above = inr (inr refl)

module _ (cmp : ℕ → Sign) (sorted : IsSorted cmp) (n : ℕ) where
  at_end :
      (l e fuel : ℕ) (last : Option (ℕ × Bool))
      → IsNarrowed cmp n l e last
      → ltb l e ≡ false
      → (z : ℤ) × (bsearch_from (suc fuel) l e last cmp ≡ done z) × IsAnswer cmp n z
  unfolding bsearch_from
  at_end l e fuel last ok over =
      let edge = ok.edge (omega (arith, ok.order, ltb→le _ _ over)) in
      (
        negsuc l,
        rw over (
            ap
              (λ (o : Option (ℕ × Bool)). elim o [
                | none ↦ hangs
                | some y ↦ if y.1 then done (negsuc y.0) else done (negsuc (y.0 + 1))
              ])
              edge.1
            ∙ by_sign edge.0 edge.2),
        record {
          inside = omega (arith, ok.order, ok.inside);
          before = ok.before;
          after = λ i a b. ok.after i (omega (arith, ok.order, ltb→le _ _ over)) b;
        },
      )
    where
      by_sign :
          (y : ℕ × Bool)
          → end_of y ≡ l
          → (if y.1 then done (negsuc y.0) else done (negsuc (y.0 + 1))) ≡ done (negsuc l)
      by_sign (x, true) h = ap (λ v. done (negsuc v)) h
      by_sign (x, false) h = ap (λ v. done (negsuc v)) h

  bsearch_from_lem :
      (fuel l e : ℕ) (last : Option (ℕ × Bool))
      → e - l < fuel
      → IsNarrowed cmp n l e last
      → (z : ℤ) × (bsearch_from fuel l e last cmp ≡ done z) × IsAnswer cmp n z
  unfolding bsearch_from
  bsearch_from_lem zero l e last f ok = absurd (omega arith)
  bsearch_from_lem (suc fuel) l e last f ok = elim (Bool-cases (ltb l e)) [
    | inr over ↦ at_end l e fuel last ok over
    | inl goes ↦ elim (Sign-cases (cmp x)) [
      | inr (inl same) ↦ (pos x, rw (goes, same), (omega (arith, bounds goes, ok.inside), same))
      | inl lower ↦
          rw (goes, lower)
            (bsearch_from_lem fuel l x (some (x, true)) (omega (arith, bounds goes)) (record {
              order = (bounds goes).0;
              inside = omega (arith, bounds goes, ok.inside);
              before = ok.before;
              after = λ i a b. sorted.up x i a lower;
              edge = λ h. ((x, true), refl, sym h);
            }))
      | inr (inr higher) ↦
          rw (goes, higher)
            (bsearch_from_lem fuel (x + 1) e (some (x, false)) (omega (arith, bounds goes))
              (record {
                order = omega (arith, bounds goes);
                inside = ok.inside;
                before = λ i a. sorted.down i x (omega arith) higher;
                after = ok.after;
                edge = λ h. ((x, false), refl, refl);
              }))
    ]
  ]
    where
      x : ℕ
      x = (e - 1 + l) / 2

      bounds : ltb l e ≡ true → (l ≤ x) × (x < e)
      bounds h = (omega (arith, ltb→lt _ _ h), omega (arith, ltb→lt _ _ h))

  -- On an array of at least one element that is in order around the key, the search ends. It returns
  -- the index of an element equal to the key, or, if there is none, -p - 1 for the place `p`: the key
  -- is above the elements before `p` and below the others.
  pub bsearch_from-IsAnswer :
      0 < n → (z : ℤ) × (bsearch_from (n + 1) 0 n none cmp ≡ done z) × IsAnswer cmp n z
  bsearch_from-IsAnswer some_element = bsearch_from_lem (n + 1) 0 n none (omega arith) (record {
    order = omega arith;
    inside = omega arith;
    before = λ i a. absurd (omega arith);
    after = λ i a b. absurd (omega arith);
    edge = λ h. absurd (omega arith);
  })

above_differs : {s : Sign} → s ≡ above → s ≡ equal → ⊥
above_differs a b = cc

below_differs : {s : Sign} → s ≡ below → s ≡ equal → ⊥
below_differs a b = cc

-- `bsearch` on such an array returns the index of an element equal to the key, or NULL if there is
-- none.
pub bsearch_lem {ℓ} :
    {A : Type ℓ} (compare : A → A → Sign) (key : A) (array : ℕ → A) (count : ℕ)
    → 0 < count
    → IsSorted (λ i. compare key (array i))
    → ((x : ℕ) × (bsearch compare key array count ≡ done (some x))
        × (x < count)
        × (compare key (array x) ≡ equal))
      ⊎ ((bsearch compare key array count ≡ done none)
          × ((i : ℕ) → i < count → compare key (array i) ≢ equal))
unfolding bsearch
bsearch_lem compare key array count some_element sorted =
    settle (bsearch_from-IsAnswer (λ i. compare key (array i)) sorted count some_element)
  where
    settle :
        (z : ℤ) × (bsearch_from (count + 1) 0 count none (λ i. compare key (array i)) ≡ done z)
          × IsAnswer (λ i. compare key (array i)) count z
        → ((x : ℕ) × (bsearch compare key array count ≡ done (some x))
            × (x < count)
            × (compare key (array x) ≡ equal))
          ⊎ ((bsearch compare key array count ≡ done none)
              × ((i : ℕ) → i < count → compare key (array i) ≢ equal))
    settle (pos x, run, hit) =
        let both : (x < count) × (compare key (array x) ≡ equal) = hit in
        inl (x, ap (λ o. o >>= λ z. done (found_at z)) run, both.0, both.1)
    settle (negsuc p, run, gap) = inr (
      ap (λ o. o >>= λ z. done (found_at z)) run,
      λ i h e. elim (Bool-cases (ltb i p)) [
        | inl less ↦ above_differs (gap.before i (ltb→lt _ _ less)) e
        | inr more ↦ below_differs (gap.after i (ltb→le _ _ more) h) e
      ],
    )
