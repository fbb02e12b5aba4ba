-- ===== src/Filesys/Regular/Reading.antt =====
-- The loop of `read` of src/filesys/fs_ifreg.c over the sectors of a file.
use tinker.Base.{
  ℕ, zero, suc, ◌+◌, ◌-◌, ◌<◌, ◌≤◌, ◌≡◌, refl, ap, ◌∙◌, ◌⊎◌, inl, inr, false, ltb, Bool-cases,
  ltb→lt, lt→ltb, le→leb, arith,
}
use tinker.Kernel.State.{done}
use tinker.Filesys.Regular.{RegFile, RegHandle, Copied, take_bytes, read_loop}
use tinker.Filesys.Regular.Spans.{Spans, moved_on, chunk-lt, chunk-next, chunk-Spans, Holds}

-- What the loop of `read` gives: the bytes that the sectors hold, behind those that it had.
pub record IsRead (nleft n : ℕ) (out buf : ℕ → ℕ) (c : Copied (ℕ → ℕ)) : Type 0 where
  pub all : c.count ≡ n + nleft
  pub taken : (j : ℕ) → n ≤ j → j < n + nleft → c.target j ≡ buf j
  pub others : (j : ℕ) → (j < n) ⊎ (n + nleft ≤ j) → c.target j ≡ out j

module _ (D : ℕ) (buf : ℕ → ℕ) (f : RegFile) where
  -- The buffer after a full chunk.
  got : ℕ → RegHandle → (ℕ → ℕ) → ℕ → ℕ
  got n h out = take_bytes out n (D - h.sidx) (λ j. f.sectors h.csector (h.sidx + j))

  read_loop-chunk :
      (fuel m nleft n : ℕ) (h : RegHandle) (out : ℕ → ℕ)
      → Spans D (suc m) nleft h f.count
      → read_loop D (suc fuel) (D - h.sidx) nleft n h f out
        ≡ read_loop D fuel
            (D - 0)
            (nleft - (D - h.sidx))
            (n + (D - h.sidx))
            (moved_on D h)
            f
            (got n h out)
  unfolding read_loop got
  read_loop-chunk fuel m nleft n h out s =
      let more = lt→ltb (D - h.sidx) nleft (chunk-lt D m nleft h s) in
      let next = lt→ltb (h.csector + 1) f.count (chunk-next D m nleft h s) in
      let whole : D ≡ D - 0 = omega arith in
      rw (more, next)
        (ap
          (λ x.
            read_loop D fuel x (nleft - (D - h.sidx)) (n + (D - h.sidx)) (moved_on D h) f
              (got n h out))
          whole)

  read_loop-last :
      (fuel nleft n : ℕ) (h : RegHandle) (out : ℕ → ℕ)
      → Spans D 0 nleft h f.count
      → read_loop D (suc fuel) (D - h.sidx) nleft n h f out
        ≡ done (record {
          count = n + nleft;
          eof = false;
          handle = h;
          target = take_bytes out n nleft (λ j. f.sectors h.csector (h.sidx + j));
        })
  unfolding read_loop
  read_loop-last fuel nleft n h out s = ground (arith, s.ends)

  taken-last :
      (nleft n : ℕ) (h : RegHandle) (out : ℕ → ℕ) (j : ℕ)
      → ((i : ℕ) → i < nleft → f.sectors h.csector (h.sidx + i) ≡ buf (n + i))
      → n ≤ j
      → j < n + nleft
      → take_bytes out n nleft (λ i. f.sectors h.csector (h.sidx + i)) j ≡ buf j
  unfolding take_bytes
  taken-last nleft n h out j e a b =
      let place : n + (j - n) ≡ j = omega arith in
      rw (le→leb n j a, lt→ltb j (n + nleft) b) (e (j - n) (omega arith) ∙ ap buf place)

  others-last :
      (k n : ℕ) (h : RegHandle) (out : ℕ → ℕ) (j : ℕ)
      → (j < n) ⊎ (n + k ≤ j)
      → take_bytes out n k (λ i. f.sectors h.csector (h.sidx + i)) j ≡ out j
  unfolding take_bytes
  others-last k n h out j a = ground arith

  got-taken :
      (n : ℕ) (h : RegHandle) (out : ℕ → ℕ) (j : ℕ)
      → ((i : ℕ) → i < D - h.sidx → f.sectors h.csector (h.sidx + i) ≡ buf (n + i))
      → n ≤ j
      → j < n + (D - h.sidx)
      → got n h out j ≡ buf j
  unfolding got
  got-taken n h out j e a b = taken-last (D - h.sidx) n h out j e a b

  got-others :
      (n : ℕ) (h : RegHandle) (out : ℕ → ℕ) (j : ℕ)
      → (j < n) ⊎ (n + (D - h.sidx) ≤ j)
      → got n h out j ≡ out j
  unfolding got
  got-others n h out j a = others-last (D - h.sidx) n h out j a

  pub read_loop-IsRead :
      (m fuel nleft n : ℕ) (h : RegHandle) (out : ℕ → ℕ)
      → m < fuel
      → Spans D m nleft h f.count
      → Holds D m nleft n h f buf
      → (c : Copied (ℕ → ℕ)) × (read_loop D fuel (D - h.sidx) nleft n h f out ≡ done c)
        × IsRead nleft n out buf c
  read_loop-IsRead m zero nleft n h out rounds s e = absurd (omega arith)
  read_loop-IsRead zero (suc fuel) nleft n h out rounds s e = (
    _,
    read_loop-last fuel nleft n h out s,
    record {
      all = refl;
      taken = λ j a b. taken-last nleft n h out j e a b;
      others = λ j a. others-last nleft n h out j a;
    },
  )
  read_loop-IsRead (suc m) (suc fuel) nleft n h out rounds s e =
      let rest =
        read_loop-IsRead m fuel (nleft - (D - h.sidx)) (n + (D - h.sidx)) (moved_on D h)
          (got n h out) (omega arith) (chunk-Spans D m nleft h s) e.1 in
      let r = rest.2 in
      let enough : D - h.sidx < nleft = chunk-lt D m nleft h s in
      (
        rest.0,
        read_loop-chunk fuel m nleft n h out s ∙ rest.1,
        record {
          all = omega (arith, r.all, enough);
          taken = λ j a b. elim (Bool-cases (ltb j (n + (D - h.sidx)))) [
            | inl early ↦
                r.others j (inl (ltb→lt j _ early)) ∙ got-taken n h out j e.0 a (ltb→lt j _ early)
            | inr late ↦ r.taken j (ground (arith, late)) (omega (arith, b, enough))
          ];
          others = λ j a.
              r.others j (omega (arith, a, enough))
              ∙ got-others n h out j (omega (arith, a, enough));
        },
      )
