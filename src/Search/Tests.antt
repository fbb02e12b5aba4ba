-- ===== src/Search/Tests.antt =====
-- The binary search at an array of three numbers.
use tinker.Base.{
  ℕ, ◌+◌, ◌*◌, ◌<◌, ◌≡◌, ◌≢◌, ◌⊎◌, refl, none, some, ltb, ◌==◌, if◌then◌else◌, ℤ, arith,
}
use tinker.Kernel.State.{done, ◌>>=◌}
use tinker.Search.Sort.{scan_up, scan_down, partition, quicksort, qsort}
use tinker.Search.Shuffle.{IsRearranged}
use tinker.Search.Scans.{IsOrder}
use tinker.Search.Sorted.{IsAscending, qsort-IsAscending}
use tinker.Search.Binary.{Sign, below, equal, above, bsearch_from, bsearch}
use tinker.Search.Found.{IsSorted, IsAnswer, bsearch_from-IsAnswer, bsearch_lem}

abbrev sign_of : ℕ → ℕ → Sign
sign_of a b = if ltb a b then below else if a == b then equal else above

-- 0, 10, 20, ...
abbrev tens : ℕ → ℕ
tens i = i * 10

tens-IsSorted : IsSorted (λ i. sign_of 7 (tens i))
tens-IsSorted = record { up = λ i j a b. ground arith; down = λ i j a b. ground arith }

-- 20 stands at 2.
finds_twenty : bsearch sign_of 20 tens 3 ≡ done (some 2)
unfolding bsearch bsearch_from
finds_twenty = refl

bsearch_from-IsAnswer_example :
    (z : ℤ) × (bsearch_from 4 0 3 none (λ i. sign_of 7 (tens i)) ≡ done z)
    × IsAnswer (λ i. sign_of 7 (tens i)) 3 z
bsearch_from-IsAnswer_example =
    bsearch_from-IsAnswer (λ i. sign_of 7 (tens i)) tens-IsSorted 3 (omega arith)

tens_found :
    ((x : ℕ) × (bsearch sign_of 7 tens 3 ≡ done (some x)) × (x < 3) × (sign_of 7 (tens x) ≡ equal))
    ⊎ ((bsearch sign_of 7 tens 3 ≡ done none) × ((i : ℕ) → i < 3 → sign_of 7 (tens i) ≢ equal))
tens_found = bsearch_lem sign_of 7 tens 3 (omega arith) tens-IsSorted

-- The array 3, 1, 2, with `edge` before it.
abbrev three : (edge : ℕ) → ℕ → ℕ
three edge p = if p == 1 then 3 else if p == 2 then 1 else if p == 3 then 2 else edge

sign_of-IsOrder : IsOrder sign_of
sign_of-IsOrder = record { flip = λ x y. ground arith; chain = λ x y z g h. ground arith }

sorts_three : (qsort sign_of 3 (three 0) >>= λ a. done (a 1 * 100 + a 2 * 10 + a 3)) ≡ done 123
unfolding qsort quicksort partition scan_up scan_down
sorts_three = refl

qsort-IsAscending_example :
    (b : ℕ → ℕ) × (qsort sign_of 3 (three 0) ≡ done b)
    × IsAscending sign_of 1 3 b
    × IsRearranged 1 3 (three 0) b
qsort-IsAscending_example =
    qsort-IsAscending sign_of 3 (three 0) sign_of-IsOrder (λ p x y. ground arith)
