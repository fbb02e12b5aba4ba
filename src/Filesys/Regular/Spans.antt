-- ===== src/Filesys/Regular/Spans.antt =====
-- How many sectors of a file of src/filesys/fs_ifreg.c some bytes take, and which bytes stand there.
use tinker.Base.{ℕ, zero, suc, ◌+◌, ◌-◌, ◌*◌, ◌<◌, ◌≤◌, ◌≡◌, ap, ◌∙◌, arith}
use tinker.Filesys.Regular.{RegFile, RegHandle, advanced, next_sector}

-- `m` sectors follow the current one, and `nleft` bytes end in the last of them.
pub record Spans (D m nleft : ℕ) (h : RegHandle) (count : ℕ) : Type 0 where
  pub last : h.csector + m + 1 ≡ count
  pub inside : h.sidx ≤ D
  pub some_left : 0 < nleft
  pub reaches : m * D < nleft + h.sidx
  pub ends : nleft + h.sidx ≤ D + m * D

-- The handle at the start of the next sector.
abbrev pub moved_on : ℕ → RegHandle → RegHandle
moved_on D h = next_sector (advanced (D - h.sidx) h)

module _ (D m nleft : ℕ) (h : RegHandle) {count : ℕ} (s : Spans D (suc m) nleft h count) where
  product : suc m * D ≡ m * D + D
  product = grind arith

  -- The current sector has less than is left, and there is a next one.
  pub chunk-lt : D - h.sidx < nleft
  chunk-lt = omega (arith, s.reaches, s.inside, product)

  pub chunk-next : h.csector + 1 < count
  chunk-next = omega (arith, s.last)

  pub chunk-Spans : Spans D m (nleft - (D - h.sidx)) (moved_on D h) count
  chunk-Spans = record {
    last = omega (arith, s.last);
    inside = omega arith;
    some_left = omega (arith, chunk-lt);
    reaches = omega (arith, s.reaches, s.inside, product);
    ends = omega (arith, s.ends, s.inside, product);
  }

-- From the place of the handle on, the sectors have the `nleft` bytes of the buffer behind the first `n`.
abbrev pub Holds : (D m nleft n : ℕ) → RegHandle → RegFile → (ℕ → ℕ) → Type 0
Holds D zero nleft n h f buf = (j : ℕ) → j < nleft → f.sectors h.csector (h.sidx + j) ≡ buf (n + j)
Holds D (suc m) nleft n h f buf =
    ((j : ℕ) → j < D - h.sidx → f.sectors h.csector (h.sidx + j) ≡ buf (n + j))
    × Holds D m (nleft - (D - h.sidx)) (n + (D - h.sidx)) (moved_on D h) f buf

-- Only the sectors count.
pub Holds-sectors :
    (D m nleft n : ℕ) (h : RegHandle) (f f' : RegFile) (buf : ℕ → ℕ)
    → f'.sectors ≡ f.sectors
    → Holds D m nleft n h f buf
    → Holds D m nleft n h f' buf
Holds-sectors D zero nleft n h f f' buf same e =
    λ j a. ap (λ (s : ℕ → ℕ → ℕ). s h.csector (h.sidx + j)) same ∙ e j a
Holds-sectors D (suc m) nleft n h f f' buf same e = (
  (λ j a. ap (λ (s : ℕ → ℕ → ℕ). s h.csector (h.sidx + j)) same ∙ e.0 j a),
  Holds-sectors D m (nleft - (D - h.sidx)) (n + (D - h.sidx)) (moved_on D h) f f' buf same e.1,
)
