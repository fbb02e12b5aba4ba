-- ===== src/Filesys/Regular/Writing.antt =====
-- The loop of `write` of src/filesys/fs_ifreg.c over the sectors of a file.
use tinker.Base.{
  ℕ, zero, suc, ◌+◌, ◌-◌, ◌<◌, ◌≡◌, refl, ap, ◌∙◌, inl, inr, false, ltb, Bool-cases, ltb→lt, lt→ltb,
  arith,
}
use tinker.Kernel.State.{done}
use tinker.Filesys.Regular.{RegFile, RegHandle, Copied, put_bytes, write_loop}
use tinker.Filesys.Regular.Spans.{Spans, moved_on, chunk-lt, chunk-next, chunk-Spans, Holds}

-- What the loop of `write` has done: all bytes are moved, and it ends in the last sector; `didx` has not
-- counted the last chunk; and what stands before the place of the handle is as it was.
pub record IsWritten (D m nleft n : ℕ) (h : RegHandle) (f : RegFile) (c : Copied RegFile)
    : Type 0 where
  pub all : c.count ≡ n + nleft
  pub on : c.eof ≡ false
  pub at_last : c.handle.csector + 1 ≡ f.count
  pub same_ptr : c.handle.ptr ≡ h.ptr
  pub as_long : (c.target.count ≡ f.count) × (c.target.maxsize ≡ f.maxsize)
  pub lost : c.handle.didx < h.didx + nleft
  pub restarts : (0 < m → c.handle.sidx ≡ 0) × (m ≡ 0 → c.handle.sidx ≡ h.sidx)
  pub before : (i j : ℕ) → i < h.csector → c.target.sectors i j ≡ f.sectors i j
  pub here : (j : ℕ) → j < h.sidx → c.target.sectors h.csector j ≡ f.sectors h.csector j

module _ (D : ℕ) (buf : ℕ → ℕ) where
  -- The rest of the loop after a full chunk.
  chunked : ℕ → RegHandle → RegFile → RegFile
  chunked n h f = put_bytes f h.csector h.sidx (D - h.sidx) (λ j. buf (n + j))

  chunked-Spans :
      (m nleft n : ℕ) (h : RegHandle) (f : RegFile)
      → Spans D (suc m) nleft h f.count
      → Spans D m (nleft - (D - h.sidx)) (moved_on D h) (chunked n h f).count
  unfolding chunked put_bytes
  chunked-Spans m nleft n h f s = chunk-Spans D m nleft h s

  write_loop-chunk :
      (fuel m nleft n : ℕ) (h : RegHandle) (f : RegFile)
      → Spans D (suc m) nleft h f.count
      → write_loop D (suc fuel) (D - h.sidx) nleft n h f buf
        ≡ write_loop D fuel
            (D - 0)
            (nleft - (D - h.sidx))
            (n + (D - h.sidx))
            (moved_on D h)
            (chunked n h f)
            buf
  unfolding write_loop chunked
  write_loop-chunk fuel m nleft n h f s =
      let more = lt→ltb (D - h.sidx) nleft (chunk-lt D m nleft h s) in
      let next = lt→ltb (h.csector + 1) f.count (chunk-next D m nleft h s) in
      let whole : D ≡ D - 0 = omega arith in
      rw (more, next)
        (ap
          (λ x.
            write_loop D fuel x (nleft - (D - h.sidx)) (n + (D - h.sidx)) (moved_on D h)
              (chunked n h f) buf)
          whole)

  write_loop-last :
      (fuel nleft n : ℕ) (h : RegHandle) (f : RegFile)
      → Spans D 0 nleft h f.count
      → write_loop D (suc fuel) (D - h.sidx) nleft n h f buf
        ≡ done (record {
          count = n + nleft;
          eof = false;
          handle = h;
          target = put_bytes f h.csector h.sidx nleft (λ j. buf (n + j));
        })
  unfolding write_loop
  write_loop-last fuel nleft n h f s = ground (arith, s.ends)

  chunk-IsWritten :
      (m nleft n : ℕ) (h : RegHandle) (f : RegFile) (c : Copied RegFile)
      → Spans D (suc m) nleft h f.count
      → IsWritten D m (nleft - (D - h.sidx)) (n + (D - h.sidx)) (moved_on D h) (chunked n h f) c
      → IsWritten D (suc m) nleft n h f c
  unfolding chunked put_bytes
  chunk-IsWritten m nleft n h f c s w =
      let enough = chunk-lt D m nleft h s in
      record {
        all = omega (arith, w.all, enough);
        on = w.on;
        at_last = w.at_last;
        same_ptr = w.same_ptr;
        as_long = w.as_long;
        lost = omega (arith, w.lost, enough);
        restarts = (
          (λ p. elim (Bool-cases (ltb 0 m)) [
            | inl more ↦ w.restarts.0 (ltb→lt 0 m more)
            | inr end ↦ w.restarts.1 (ground arith)
          ]),
          λ p. absurd (omega arith),
        );
        before = λ i j p. w.before i j (omega arith) ∙ ground arith;
        here = λ j p. w.before h.csector j (omega arith) ∙ ground arith;
      }

  chunked-holds :
      (n : ℕ) (h : RegHandle) (f : RegFile) (j : ℕ)
      → j < D - h.sidx
      → (chunked n h f).sectors h.csector (h.sidx + j) ≡ buf (n + j)
  unfolding chunked put_bytes
  chunked-holds n h f j p = ground arith

  pub write_loop-IsWritten :
      (m fuel nleft n : ℕ) (h : RegHandle) (f : RegFile)
      → m < fuel
      → Spans D m nleft h f.count
      → (c : Copied RegFile) × (write_loop D fuel (D - h.sidx) nleft n h f buf ≡ done c)
        × IsWritten D m nleft n h f c
        × Holds D m nleft n h c.target buf
  write_loop-IsWritten m zero nleft n h f rounds s = absurd (omega arith)
  write_loop-IsWritten zero (suc fuel) nleft n h f rounds s = (
    _,
    write_loop-last fuel nleft n h f s,
    unfold put_bytes in
        record {
          all = refl;
          on = refl;
          at_last = omega (arith, s.last);
          same_ptr = refl;
          as_long = (refl, refl);
          lost = omega (arith, s.some_left);
          restarts = (λ p. absurd (omega arith), λ p. refl);
          before = λ i j p. ground arith;
          here = λ j p. ground arith;
        },
    λ j p. unfold put_bytes in ground arith,
  )
  write_loop-IsWritten (suc m) (suc fuel) nleft n h f rounds s =
      let rest =
        write_loop-IsWritten m fuel (nleft - (D - h.sidx)) (n + (D - h.sidx)) (moved_on D h)
          (chunked n h f) (omega arith) (chunked-Spans m nleft n h f s) in
      let w = rest.2 in
      (
        rest.0,
        write_loop-chunk fuel m nleft n h f s ∙ rest.1,
        chunk-IsWritten m nleft n h f rest.0 s w,
        (λ j p. w.before h.csector (h.sidx + j) (omega arith) ∙ chunked-holds n h f j p, rest.3),
      )
