-- ===== src/Filesys/Regular/Overwrite.antt =====
-- A second `write` after a long one, in src/filesys/fs_ifreg.c.
use tinker.Base.{
  ℕ, ◌+◌, ◌*◌, ◌<◌, ◌≤◌, ◌≡◌, refl, ap, sym, subst, ◌∙◌, inl, inr, true, false, not, ◌||◌, none,
  some, ltb, ltb→lt, Bool-cases, arith,
}
use tinker.Kernel.State.{done}
use tinker.Filesys.Regular.{
  FileFlags, RegFile, RegHandle, moved, Copied, put_bytes, blank_file, fresh_handle, open_regular,
  fits, write_here, write_regular, read_regular,
}
use tinker.Filesys.Regular.Growth.{IsChain, IsGrown, extend-IsGrown}
use tinker.Filesys.Regular.Writing.{IsWritten}
use tinker.Filesys.Regular.Fresh.{IsWriter, more, write-long}
use tinker.Filesys.Regular.Trip.{IsReader, read-short, opened-fresh, reopened-fresh}

-- The handle and the file that a long write leaves: `sidx` starts anew, and `ptr` has stayed at the first
-- byte of the file.
record IsStale (D len : ℕ) (h : RegHandle) (f : RegFile) : Type 0 where
  chain : IsChain D f
  at_last : h.csector + 1 ≡ f.count
  restarted : h.sidx ≡ 0
  stale : h.ptr ≡ (0, 0)
  sized : f.dsize ≡ h.didx
  short : h.didx < len
  room : len ≤ f.maxsize

module _ (D : ℕ) (pos : 0 < D) where
  written-IsStale :
      (len : ℕ) (g : RegFile) (c : Copied RegFile)
      → D < len
      → IsGrown D len (blank_file D) g
      → IsWritten D (more g) len 0 (fresh_handle D) g c
      → IsStale D len c.handle (record c.target { dsize = c.handle.didx })
  unfolding blank_file fresh_handle
  written-IsStale len g c long grown w = record {
    chain = record {
      some_sector = omega (arith, w.as_long.0, grown.chain.some_sector);
      whole = w.as_long.1 ∙ grown.chain.whole ∙ ap (λ n. n * D) (sym w.as_long.0);
    };
    at_last = w.at_last ∙ sym w.as_long.0;
    restarted = w.restarts.0 several;
    stale = w.same_ptr;
    sized = refl;
    short = omega (arith, w.lost);
    room = omega (arith, grown.enough, w.as_long.1);
  }
    where
      several : 0 < more g
      several = elim (Bool-cases (ltb 0 (more g))) [
        | inl many ↦ ltb→lt 0 (more g) many
        | inr one ↦
            let single : g.count ≡ 1 = ground (arith, one, grown.chain.some_sector) in
            let once : 1 * D ≡ D = omega arith in
            let size : g.maxsize ≡ D = grown.chain.whole ∙ ap (λ n. n * D) single ∙ once in
            absurd (omega (arith, size, grown.enough, long))
      ]

  write-stale :
      (o : FileFlags) (supply len k : ℕ) (buf : ℕ → ℕ) (h : RegHandle) (f : RegFile)
      → IsWriter o
      → IsStale D len h f
      → 0 < k
      → k ≤ D
      → k ≤ supply * D
      → (h' : RegHandle) × (f' : RegFile) × (write_regular D o supply k buf h f
          ≡ done (moved k, h', f'))
        × ((j : ℕ) → j < k → f'.sectors 0 j ≡ buf j)
  unfolding write_regular write_here put_bytes
  write-stale o supply len k buf h f (ok, writes, appends) s some_k small memory =
      let g =
        extend-IsGrown D (f.count + k + h.didx + 1) (k + h.didx) supply h.csector f pos s.chain
          s.at_last (omega (arith, s.short, s.room)) (omega (arith, s.short, s.room))
          (omega arith) in
      let r = write_here D k buf h g.0 in
      let past : ltb f.dsize (k + h.didx) ≡ true = ground (arith, s.sized, some_k) in
      let goes : not (o.rdwr || o.wronly) ≡ false = ap not writes in
      let in_place : fits D k h ≡ true = ground (arith, s.restarted, small) in
      (
        r.0,
        r.1,
        rw (ok, goes, past, appends, g.1, in_place) refl,
        λ j a. ground (arith, ap (λ (p : ℕ × ℕ). p.0) s.stale, ap (λ (p : ℕ × ℕ). p.1) s.stale, a),
      )

-- After a `write` of more than a sector holds to a new file, open for writing with O_APPEND and with memory
-- for its sectors, the size of the file is less than what was written, and a second `write`, of at least
-- one byte and at most a sector, goes to the start of the file: who opens the file
-- then reads the bytes of the second `write` there.
pub second_write_overwrites :
    (D : ℕ) (o r : FileFlags) (supply len again k : ℕ) (buf buf' out : ℕ → ℕ) {h : RegHandle}
    {f : RegFile}
    → 0 < D
    → open_regular D o true none ≡ done (some h, some f)
    → IsWriter o
    → IsReader r
    → D < len
    → len ≤ D + supply * D
    → 0 < k
    → k ≤ D
    → k ≤ again * D
    → (h1 : RegHandle) × (f1 : RegFile) × (write_regular D o supply len buf h f
        ≡ done (moved len, h1, f1))
      × (f1.dsize < len)
      × (h2 : RegHandle) × (f2 : RegFile) × (write_regular D o again k buf' h1 f1
          ≡ done (moved k, h2, f2))
      × (g : RegHandle) × (open_regular D r true (some f2) ≡ done (some g, some f2))
      × (g' : RegHandle) × (out' : ℕ → ℕ) × (read_regular D r k g f2 out ≡ done (moved k, g', out'))
      × ((j : ℕ) → j < k → out' j ≡ buf' j)
second_write_overwrites D o r supply len again k buf buf' out {h} {f} pos e writer reader long
      memory some_k small spare =
    let first = write-long D pos o supply len buf writer long memory in
    let f1 : RegFile = record first.1.target { dsize = first.1.handle.didx } in
    let stale = written-IsStale D pos len first.0 first.1 long first.3 first.5 in
    let second =
      write-stale D pos o again len k buf' first.1.handle f1 writer stale some_k small spare in
    let got = read-short D pos r k second.1 buf' out reader small second.3 in
    let opened = opened-fresh D o e in
    (
      first.1.handle,
      f1,
      subst (λ x. write_regular D o supply len buf x f ≡ done (moved len, first.1.handle, f1))
          opened.0
          (subst
            (λ y.
              write_regular D o supply len buf (fresh_handle D) y
              ≡ done (moved len, first.1.handle, f1))
            opened.1 first.2),
      short_size first.1.handle f1 stale,
      second.0,
      second.1,
      second.2,
      fresh_handle D,
      reopened-fresh D r reader second.1,
      got.0,
      got.1,
      got.2,
      got.3,
    )
  where
    short_size : (x : RegHandle) (y : RegFile) → IsStale D len x y → y.dsize < len
    short_size x y s = omega (arith, s.sized, s.short)
