-- ===== src/Memory/Count.antt =====
-- How many blocks of a heap are in use.
use tinker.Base.{
  ℕ, zero, suc, ◌+◌, ◌-◌, ◌%◌, ◌≤◌, ◌<◌, ◌≡◌, ◌≢◌, refl, ap, subst, ◌∙◌, inl, inr, some, update,
  ltb, ◌==◌, if◌then◌else◌, Bool-cases, mod-eq_of_lt, mod-add-mod, mod-lt, add-mod_right, arith,
}
use tinker.Memory.Heap.{find_block}

-- The blocks in use among the first `n`.
unfoldable pub count_used : ℕ → (ℕ → ℕ) → ℕ
count_used zero used = 0
count_used (suc n) used = count_used n used + (if used n == 0 then 0 else 1)

count_used-le : (n : ℕ) (used : ℕ → ℕ) → count_used n used ≤ n
unfolding count_used
count_used-le zero used = omega arith
count_used-le (suc n) used = ground (arith, count_used-le n used)

-- If not every block is in use, one is free.
pub count_used-free :
    (n : ℕ) (used : ℕ → ℕ) → count_used n used < n → (j : ℕ) × (j < n) × (used j ≡ 0)
unfolding count_used
count_used-free zero used h = absurd (omega arith)
count_used-free (suc n) used h = elim (Bool-cases (used n == 0)) [
  | inl free ↦ (n, omega arith, ground arith)
  | inr taken ↦ let r = count_used-free n used (ground arith) in (r.0, omega (arith, r.1), r.2)
]

-- A write past the counted blocks does not count.
count_used-far :
    (n j v : ℕ) (used : ℕ → ℕ) → n ≤ j → count_used n (update used j v) ≡ count_used n used
unfolding count_used
count_used-far zero j v used h = refl
count_used-far (suc n) j v used h = ground (arith, count_used-far n j v used)

pub count_used-take :
    (n j : ℕ) (used : ℕ → ℕ)
    → j < n
    → used j ≡ 0
    → count_used n (update used j 1) ≡ count_used n used + 1
unfolding count_used
count_used-take zero j used h f = absurd (omega arith)
count_used-take (suc n) j used h f = elim (Bool-cases (j == n)) [
  | inl last ↦ ground (arith, count_used-far n j 1 used)
  | inr before ↦ ground (arith, count_used-take n j used)
]

pub count_used-give :
    (n j : ℕ) (used : ℕ → ℕ)
    → j < n
    → used j ≢ 0
    → count_used n (update used j 0) + 1 ≡ count_used n used
unfolding count_used
count_used-give zero j used h f = absurd (omega arith)
count_used-give (suc n) j used h f = elim (Bool-cases (j == n)) [
  | inl last ↦ ground (arith, count_used-far n j 0 used)
  | inr before ↦ ground (arith, count_used-give n j used)
]

module _ (max : ℕ) (used : ℕ → ℕ) where
  -- What the search returns is free.
  find_block-free :
      (fuel i t : ℕ) → i < max → find_block max fuel i used ≡ some t → (t < max) × (used t ≡ 0)
  unfolding find_block
  find_block-free zero i t pos e = absurd (ground arith)
  find_block-free (suc fuel) i t pos e = elim (Bool-cases (used i == 0)) [
    | inr taken ↦
        find_block-free fuel ((i + 1) % max) t (mod-lt (i + 1) (omega arith)) (ground arith)
    | inl free ↦ ground arith
  ]

  -- If some block is free, `d` blocks behind the start, the search does not go past it.
  find_block-finds :
      (fuel i d : ℕ)
      → d < fuel
      → i < max
      → used ((i + d) % max) ≡ 0
      → (t : ℕ) × (find_block max fuel i used ≡ some t)
  unfolding find_block
  find_block-finds zero i d h b v = absurd (omega arith)
  find_block-finds (suc fuel) i zero h b v =
      let here : used i ≡ 0 =
        subst (λ x. used x ≡ 0) {x = (i + 0) % max} {y = i}
          (ap (λ x. x % max) {x = i + 0} {y = i} (omega arith) ∙ mod-eq_of_lt b) v in
      (i, rw here)
  find_block-finds (suc fuel) i (suc d) h b v = elim (Bool-cases (used i == 0)) [
    | inl free ↦ (i, rw free)
    | inr taken ↦
        rw taken (
          find_block-finds fuel ((i + 1) % max) d (omega arith) (mod-lt (i + 1) (omega arith))
            later)
  ]
    where
      later : used (((i + 1) % max + d) % max) ≡ 0
      later =
          ap used (
            mod-add-mod (i + 1) max d
            ∙ ap (λ x. x % max) {x = i + 1 + d} {y = i + suc d} (omega arith))
          ∙ v

  -- One round suffices if a block is free.
  pub find_block_lem :
      (i j : ℕ)
      → i < max
      → j < max
      → used j ≡ 0
      → (t : ℕ) × (find_block max max i used ≡ some t) × (t < max) × (used t ≡ 0)
  find_block_lem i j a b v =
      let found = find_block-finds max i gap (ground arith) a (ap used reach ∙ v) in
      let free = find_block-free max i found.0 a found.1 in (found.0, found.1, free.0, free.1)
    where
      gap : ℕ
      gap = if ltb j i then j + max - i else j - i

      reach : (i + gap) % max ≡ j
      reach = elim (Bool-cases (ltb j i)) [
        | inl behind ↦
            ap (λ x. x % max) {x = i + gap} {y = j + max} (ground arith)
            ∙ add-mod_right j max
            ∙ mod-eq_of_lt b
        | inr ahead ↦ ap (λ x. x % max) {x = i + gap} {y = j} (ground arith) ∙ mod-eq_of_lt b
      ]
