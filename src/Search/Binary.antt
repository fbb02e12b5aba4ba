-- ===== src/Search/Binary.antt =====
-- `_tk_bsearch` and `bsearch` of src/tk_ansi_search.c, over any type of elements. An array is a
-- function of the index.
use tinker.Base.{
  ℕ, zero, suc, ◌+◌, ◌-◌, ◌/◌, Bool, true, false, Option, none, some, ltb, if◌then◌else◌, ℤ, pos,
  negsuc,
}
use tinker.Kernel.State.{Outcome, done, hangs, ◌>>=◌}

-- The sign of what `cmp` returns: below 0, 0, above 0.
pub data Sign : Type 0 where
  below equal above : Sign

-- The loop on fuel. `e` is `r + 1`, so that it does not go below 0. `last` holds `x` and whether `rc`
-- is below 0; if no round has set them, there is no result.
unfoldable pub bsearch_from : (fuel l e : ℕ) → Option (ℕ × Bool) → (ℕ → Sign) → Outcome ℤ
bsearch_from zero l e last cmp = hangs
bsearch_from (suc fuel) l e last cmp =
    let x = (e - 1 + l) / 2 in
    if ltb l e
    then elim (cmp x) [
      | equal ↦ done (pos x)
      | below ↦ bsearch_from fuel l x (some (x, true)) cmp
      | above ↦ bsearch_from fuel (x + 1) e (some (x, false)) cmp
    ]
    else elim last [
      | none ↦ hangs
      | some y ↦ if y.1 then done (negsuc y.0) else done (negsuc (y.0 + 1))
    ]

-- The index that a result stands for, or NULL.
abbrev pub found_at : ℤ → Option ℕ
found_at (pos x) = some x
found_at (negsuc x) = none

-- `bsearch` on an array of `count` elements.
unfoldable pub bsearch {ℓ} : {A : Type ℓ} → (A → A → Sign) → A → (ℕ → A) → ℕ → Outcome (Option ℕ)
bsearch compare key array count =
    bsearch_from (count + 1) 0 count none (λ i. compare key (array i)) >>= λ z. done (found_at z)
