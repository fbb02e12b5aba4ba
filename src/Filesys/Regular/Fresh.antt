-- ===== src/Filesys/Regular/Fresh.antt =====
-- `write` to a new file of src/filesys/fs_ifreg.c.
use tinker.Base.{
  ℕ, zero, suc, ◌+◌, ◌-◌, ◌*◌, ◌<◌, ◌≤◌, ◌≡◌, refl, subst, ap, sym, ◌∙◌, ◌⊎◌, inl, inr, true, false,
  not, ◌||◌, ltb, ◌==◌, if◌then◌else◌, lt→ltb, arith,
}
use tinker.Kernel.State.{done}
use tinker.Filesys.Regular.{
  FileFlags, RegFile, moved, flags_ok, Copied, blank_file, fresh_handle, fits, write_loop, extend,
  write_chunks, write_here, write_regular,
}
use tinker.Filesys.Regular.Growth.{IsChain, IsGrown, extend-IsGrown}
use tinker.Filesys.Regular.Spans.{Spans, Holds}
use tinker.Filesys.Regular.Writing.{IsWritten, write_loop-IsWritten}

product-pred : (D n : ℕ) → 0 < n → n * D ≡ (n - 1) * D + D
product-pred D zero h = absurd (omega arith)
product-pred D (suc n) h = let less : suc n - 1 ≡ n = omega arith in rw less (grind arith)

-- The sectors behind the first one.
abbrev pub more : RegFile → ℕ
more f = f.count - 1

-- A writer's flags.
abbrev pub IsWriter : FileFlags → Type 0
IsWriter o = (flags_ok o ≡ true) × (o.rdwr || o.wronly ≡ true) × (o.append ≡ true)

module _ (D : ℕ) (pos : 0 < D) where
  blank-IsChain : IsChain D (blank_file D)
  unfolding blank_file
  blank-IsChain = record { some_sector = omega arith; whole = omega arith }

  grown-Spans :
      (len : ℕ) (f : RegFile)
      → 0 < len
      → IsGrown D len (blank_file D) f
      → Spans D (more f) len (fresh_handle D) f.count
  unfolding blank_file fresh_handle
  grown-Spans len f some_len g = record {
    last = omega (arith, g.longer);
    inside = omega arith;
    some_left = some_len;
    reaches = reach g.least;
    ends = omega (arith, g.enough, g.chain.whole, product);
  }
    where
      product : f.count * D ≡ more f * D + D
      product = product-pred D f.count g.chain.some_sector

      zero_times : 0 * D ≡ 0
      zero_times = omega arith

      reach : (f.count ≡ 1) ⊎ (f.maxsize < len + D) → more f * D < len + 0
      reach (inr h) = omega (arith, h, g.chain.whole, product)
      reach (inl e) =
          let none_more : more f * D ≡ 0 = ap (λ n. (n - 1) * D) e ∙ zero_times in
          omega (arith, none_more)

  -- Room is found for a write to a new file.
  pub grows :
      (len supply : ℕ)
      → len ≤ D + supply * D
      → (f : RegFile) × (extend D
            ((blank_file D).count + len + 0 + 1)
            (len + 0)
            supply
            0
            (blank_file D)
          ≡ done f)
        × IsGrown D len (blank_file D) f
  grows len supply memory =
      let same : len + 0 ≡ len = omega arith in
      subst
        (λ n.
          (f : RegFile) × (extend D ((blank_file D).count + len + 0 + 1) n supply 0 (blank_file D)
            ≡ done f)
          × IsGrown D len (blank_file D) f)
        (sym same)
        (unfold blank_file in
          extend-IsGrown D _ len supply 0 (blank_file D) pos blank-IsChain (omega arith)
            (omega arith) (omega arith) (omega arith))

  pub write-goes :
      (o : FileFlags) (supply len : ℕ) (buf : ℕ → ℕ) {f : RegFile}
      → IsWriter o
      → 0 < len
      → extend D ((blank_file D).count + len + 0 + 1) (len + 0) supply 0 (blank_file D) ≡ done f
      → write_regular D o supply len buf (fresh_handle D) (blank_file D) ≡ (
          if fits D len (fresh_handle D)
          then done (let r = write_here D len buf (fresh_handle D) f in (moved len, r.0, r.1))
          else write_chunks D len buf (fresh_handle D) f)
  unfolding write_regular fresh_handle
  write-goes o supply len buf (ok, writes, appends) some_len e =
      let past : ltb (blank_file D).dsize (len + 0) ≡ true =
        unfold blank_file in lt→ltb 0 (len + 0) (omega arith) in
      let goes : not (o.rdwr || o.wronly) ≡ false = ap not writes in
      rw (ok, goes, past, appends, e) refl

  -- A write that the first sector cannot hold.
  pub write-long :
      (o : FileFlags) (supply len : ℕ) (buf : ℕ → ℕ)
      → IsWriter o
      → D < len
      → len ≤ D + supply * D
      → (f : RegFile) × (c : Copied RegFile) × (write_regular D o supply len buf
            (fresh_handle D)
            (blank_file D)
          ≡ done (moved len, c.handle, record c.target { dsize = c.handle.didx }))
        × IsGrown D len (blank_file D) f
        × Spans D (more f) len (fresh_handle D) f.count
        × IsWritten D (more f) len 0 (fresh_handle D) f c
        × Holds D (more f) len 0 (fresh_handle D) c.target buf
  write-long o supply len buf ok long memory =
      let g = grows len supply memory in
      let s = grown-Spans len g.0 (omega arith) g.2 in
      let w =
        write_loop-IsWritten D buf (more g.0) (g.0.count + 1) len 0 (fresh_handle D) g.0
          (omega arith) s in
      (
        g.0,
        w.0,
        write-goes o supply len buf ok (omega arith) g.1 ∙ copied g.0 w.0 w.1 w.2,
        g.2,
        s,
        w.2,
        w.3,
      )
    where
      copied :
          (f : RegFile) (c : Copied RegFile)
          → write_loop D (f.count + 1) (D - (fresh_handle D).sidx) len 0 (fresh_handle D) f buf
            ≡ done c
          → IsWritten D (more f) len 0 (fresh_handle D) f c
          → (if fits D len (fresh_handle D)
              then done (let r = write_here D len buf (fresh_handle D) f in (moved len, r.0, r.1))
              else write_chunks D len buf (fresh_handle D) f)
            ≡ done (moved len, c.handle, record c.target { dsize = c.handle.didx })
      copied f c e w =
          let too_long : fits D len (fresh_handle D) ≡ false =
            unfold fresh_handle in ground (arith, long) in
          let last : (c.handle.csector + 1 == c.target.count) ≡ true =
            ground (arith, w.at_last, w.as_long) in
          let all : (c.count == len) ≡ true = ground (arith, w.all) in
          rw (too_long) (unfold write_chunks in (rw (e, w.on, last, all) refl))
