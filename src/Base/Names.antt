-- ===== src/Base/Names.antt =====
-- Strings as lists of characters without the 0 at their end.
use Prim.Native.Nat.{ℕ, zero, suc}
use mathlib.Core.Path.{◌≡◌, refl}
use mathlib.Core.Bool.{Bool, true, false, ◌&&◌}
use mathlib.Core.List.{List, [], ◌∷◌}
use native.Mathlib.Omega.{arith}
use tinker.Base.Tests.{◌==◌}

-- `strncmp(s, t, n) == 0`
unfoldable pub same_name : (n : ℕ) → List ℕ → List ℕ → Bool
same_name zero s t = true
same_name (suc n) [] [] = true
same_name (suc n) [] (y ∷ t) = false
same_name (suc n) (x ∷ s) [] = false
same_name (suc n) (x ∷ s) (y ∷ t) = x == y && same_name n s t

pub same_name_refl : (n : ℕ) (s : List ℕ) → same_name n s s ≡ true
unfolding same_name
same_name_refl zero s = refl
same_name_refl (suc n) [] = refl
same_name_refl (suc n) (x ∷ s) = rw (same_itself x) (same_name_refl n s)
  where
    same_itself : (x : ℕ) → (x == x) ≡ true
    same_itself x = ground arith
