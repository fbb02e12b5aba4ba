-- ===== src/Search/Sort.antt =====
-- `_tk_quicksort` and `qsort` of src/tk_ansi_search.c, over any type of elements. The memory is a
-- function of the place: the element `a[i]` of the source stands at the place `i + 1`, so that the
-- place 0 is the one before the array, `a[-1]`. A read before that place is not modelled, and the
-- theorems make none. The counters
-- `qsort_depth` and `curr_depth`, which nothing reads, are left out.
use tinker.Base.{
  ℕ, zero, suc, ◌+◌, ◌-◌, Bool, true, false, Option, none, some, update, ltb, leb, if◌then◌else◌,
}
use tinker.Kernel.State.{Outcome, done, hangs, ◌>>=◌}
use tinker.Search.Binary.{Sign, below, equal, above}

abbrev pub is_below : Sign → Bool
is_below below = true
is_below equal = false
is_below above = false

abbrev pub is_above : Sign → Bool
is_above below = false
is_above equal = false
is_above above = true

module _ {ℓ} {A : Type ℓ} where
  -- `_swap`, for elements of at most 255 bytes, the size of its buffer; a longer one would overflow it.
  abbrev pub swap : (ℕ → A) → ℕ → ℕ → ℕ → A
  swap a l r = update (update a l (a r)) r (a l)

  module _ (cmp : A → A → Sign) where
    -- `while (cmp(a[++i], v) < 0) ;`, on fuel; `r` is where `v` points.
    unfoldable pub scan_up : (fuel i r : ℕ) → (ℕ → A) → Option ℕ
    scan_up zero i r a = none
    scan_up (suc fuel) i r a =
        let rest = scan_up fuel (i + 1) r a in
        if is_below (cmp (a (i + 1)) (a r)) then rest else some (i + 1)

    -- `while (cmp(a[--j], v) > 0) ;` down to the place 0. What the source reads below that place is not
    -- modelled: `none`, of which no theorem says anything.
    unfoldable pub scan_down : (j r : ℕ) → (ℕ → A) → Option ℕ
    scan_down zero r a = none
    scan_down (suc j) r a =
        let rest = scan_down j r a in if is_above (cmp (a j) (a r)) then rest else some j

    -- `for (;;)`, on fuel: the place `i` where it ends, and the memory.
    unfoldable pub partition : (fuel i j r : ℕ) → (ℕ → A) → Outcome (ℕ × (ℕ → A))
    partition zero i j r a = hangs
    partition (suc fuel) i j r a = elim (scan_up (r + 1) i r a) [
      | none ↦ hangs
      | some i' ↦ elim (scan_down j r a) [
        | none ↦ hangs
        | some j' ↦
            let rest = partition fuel i' j' r (swap a i' j') in
            if leb j' i' then done (i', a) else rest
      ]
    ]

    unfoldable pub quicksort : (fuel l r : ℕ) → (ℕ → A) → Outcome (ℕ → A)
    quicksort zero l r a = hangs
    quicksort (suc fuel) l r a =
        if ltb l r
        then (partition (r + 1) (l - 1) r r a >>= λ p.
            quicksort fuel l (p.0 - 1) (swap p.1 p.0 r) >>= λ b. quicksort fuel (p.0 + 1) r b)
        else done a

    -- `qsort` on an array of `count` elements.
    unfoldable pub qsort : (count : ℕ) → (ℕ → A) → Outcome (ℕ → A)
    qsort count a = quicksort (count + 1) 1 count a
