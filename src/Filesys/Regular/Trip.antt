-- ===== src/Filesys/Regular/Trip.antt =====
-- What is written to a new file of src/filesys/fs_ifreg.c can be read.
use tinker.Base.{
  ℕ, ◌+◌, ◌*◌, ◌-◌, none, some, ◌<◌, ◌≤◌, ◌≡◌, refl, subst, ap, sym, ◌∙◌, inl, inr, true, false,
  ltb, leb, if◌then◌else◌, Bool-cases, lt→ltb, le→leb, arith,
}
use tinker.Kernel.State.{done}
use tinker.Filesys.Regular.{
  FileFlags, RegFile, RegHandle, moved, flags_ok, Copied, put_bytes, take_bytes, advanced,
  blank_file, fresh_handle, fits, read_loop, read_regular, open_regular, write_chunks, write_here,
  write_regular,
}
use tinker.Filesys.Regular.Spans.{Spans, Holds, Holds-sectors}
use tinker.Filesys.Regular.Reading.{read_loop-IsRead}
use tinker.Filesys.Regular.Fresh.{IsWriter, more, write-goes, write-long, grows}

-- A reader's flags.
abbrev pub IsReader : FileFlags → Type 0
IsReader r = (flags_ok r ≡ true) × (r.wronly ≡ false) × (r.creat ≡ false)

module _ (D : ℕ) (pos : 0 < D) where
  -- `read` of `len` bytes from the start of the file gives the first ones of `buf`.
  abbrev pub Gives : FileFlags → (len : ℕ) → RegFile → (buf out : ℕ → ℕ) → Type 0
  Gives r len f buf out =
      (h : RegHandle) × (out' : ℕ → ℕ) × (read_regular D r len (fresh_handle D) f out
        ≡ done (moved len, h, out'))
      × ((j : ℕ) → j < len → out' j ≡ buf j)
      × ((j : ℕ) → len ≤ j → out' j ≡ out j)

  pub read-short :
      (r : FileFlags) (len : ℕ) (f : RegFile) (buf out : ℕ → ℕ)
      → IsReader r
      → len ≤ D
      → ((j : ℕ) → j < len → f.sectors 0 j ≡ buf j)
      → Gives r len f buf out
  unfolding read_regular fresh_handle take_bytes
  read-short r len f buf out (ok, reads, old) short e = (
    advanced len (fresh_handle D),
    take_bytes out 0 len (λ j. f.sectors 0 (0 + j)),
    rw (ok, reads) (ground (arith, short)),
    (λ j a.
        let start : 0 + (j - 0) ≡ j = omega arith in
        rw (le→leb 0 j (omega arith), lt→ltb j (0 + len) (omega arith))
          (ap (f.sectors 0) start ∙ e j a)),
    (λ j a. ground arith),
  )

  read-loops :
      (r : FileFlags) (len : ℕ) (f : RegFile) (out : ℕ → ℕ) {c : Copied (ℕ → ℕ)}
      → IsReader r
      → D < len
      → read_loop D (f.count + 1) (D - (fresh_handle D).sidx) len 0 (fresh_handle D) f out ≡ done c
      → read_regular D r len (fresh_handle D) f out ≡ done (moved c.count, c.handle, c.target)
  unfolding read_regular
  read-loops r len f out (ok, reads, old) long e =
      let here : ltb f.dsize (fresh_handle D).didx ≡ false = unfold fresh_handle in ground arith in
      let too_long : fits D len (fresh_handle D) ≡ false =
        unfold fresh_handle in ground (arith, long) in
      rw (ok, reads, here, too_long, e) refl

  pub read-long :
      (r : FileFlags) (len m : ℕ) (f : RegFile) (buf out : ℕ → ℕ)
      → IsReader r
      → D < len
      → Spans D m len (fresh_handle D) f.count
      → Holds D m len 0 (fresh_handle D) f buf
      → Gives r len f buf out
  read-long r len m f buf out (ok, reads, old) long s e =
      let c =
        read_loop-IsRead D buf f m (f.count + 1) len 0 (fresh_handle D) out (omega (arith, s.last))
          s e in
      (
        c.0.handle,
        c.0.target,
        read-loops r len f out (ok, reads, old) long c.1
            ∙ ap (λ n. done (moved n, c.0.handle, c.0.target)) (c.2.all ∙ from_zero),
        (λ j a. c.2.taken j (omega arith) (omega arith)),
        (λ j a. c.2.others j (inr (omega arith))),
      )
    where
      from_zero : 0 + len ≡ len
      from_zero = omega arith

  -- A write that the first sector holds.
  pub write-short :
      (o : FileFlags) (supply len : ℕ) (buf : ℕ → ℕ)
      → IsWriter o
      → 0 < len
      → len ≤ D
      → (h : RegHandle) × (f : RegFile) × (write_regular D o supply len buf
            (fresh_handle D)
            (blank_file D)
          ≡ done (moved len, h, f))
        × ((j : ℕ) → j < len → f.sectors 0 j ≡ buf j)
  write-short o supply len buf ok some_len short =
      let g = grows D pos len supply (omega arith) in
      let r = write_here D len buf (fresh_handle D) g.0 in
      (
        r.0,
        r.1,
        write-goes D pos o supply len buf ok some_len g.1 ∙ in_place g.0,
        λ j a. unfold write_here fresh_handle put_bytes in ground arith,
      )
    where
      in_place :
          (f : RegFile)
          → (if fits D len (fresh_handle D)
              then done (let r = write_here D len buf (fresh_handle D) f in (moved len, r.0, r.1))
              else write_chunks D len buf (fresh_handle D) f)
            ≡ done (let r = write_here D len buf (fresh_handle D) f in (moved len, r.0, r.1))
      in_place f =
          let short_enough : fits D len (fresh_handle D) ≡ true =
            unfold fresh_handle in ground (arith, short) in
          rw short_enough refl

pub opened-fresh :
    (D : ℕ) (o : FileFlags) {h : RegHandle} {f : RegFile}
    → open_regular D o true none ≡ done (some h, some f)
    → (fresh_handle D ≡ h) × (blank_file D ≡ f)
unfolding open_regular
opened-fresh D o e = (ground arith, ground arith)

pub reopened-fresh :
    (D : ℕ) (r : FileFlags)
    → IsReader r
    → (f : RegFile) → open_regular D r true (some f) ≡ done (some (fresh_handle D), some f)
unfolding open_regular
reopened-fresh D r (ok, reads, old) f = rw old refl

-- What one `write` of at least one byte puts in a new file that is open for writing with O_APPEND, with
-- memory for its sectors, a `read` of the same length gives back to who opens the file later, however
-- many sectors it takes; nothing else of the reader's buffer changes.
pub write_read :
    (D : ℕ) (o r : FileFlags) (supply len : ℕ) (buf out : ℕ → ℕ) {h : RegHandle} {f : RegFile}
    → 0 < D
    → open_regular D o true none ≡ done (some h, some f)
    → IsWriter o
    → IsReader r
    → 0 < len
    → len ≤ D + supply * D
    → (h' : RegHandle) × (f' : RegFile) × (write_regular D o supply len buf h f
        ≡ done (moved len, h', f'))
      × (g : RegHandle) × (open_regular D r true (some f') ≡ done (some g, some f'))
      × (g' : RegHandle) × (out' : ℕ → ℕ) × (read_regular D r len g f' out
          ≡ done (moved len, g', out'))
      × ((j : ℕ) → j < len → out' j ≡ buf j)
      × ((j : ℕ) → len ≤ j → out' j ≡ out j)
write_read D o r supply len buf out {h} {f} pos e writer reader some_len memory =
    subst (λ x. Trip x f) (opened-fresh D o e).0
      (subst (λ y. Trip (fresh_handle D) y) (opened-fresh D o e).1
        (elim (Bool-cases (leb len D)) [
          | inl short ↦
              let w = write-short D pos o supply len buf writer some_len (ground (arith, short)) in
              back w.0 w.1 w.2
                (read-short D pos r len w.1 buf out reader (ground (arith, short)) w.3)
          | inr long ↦
              let w = write-long D pos o supply len buf writer (ground (arith, long)) memory in
              let f' : RegFile = record w.1.target { dsize = w.1.handle.didx } in
              back w.1.handle f' w.2 (
                read-long D pos r len (more w.0) f' buf out reader (ground (arith, long))
                  (subst (λ n. Spans D (more w.0) len (fresh_handle D) n) (sym w.5.as_long.0) w.4)
                  (Holds-sectors D (more w.0) len 0 (fresh_handle D) w.1.target f' buf refl w.6))
        ]))
  where
    Trip : RegHandle → RegFile → Type 0
    Trip x y =
        (h' : RegHandle) × (f' : RegFile) × (write_regular D o supply len buf x y
          ≡ done (moved len, h', f'))
        × (g : RegHandle) × (open_regular D r true (some f') ≡ done (some g, some f'))
        × (g' : RegHandle) × (out' : ℕ → ℕ) × (read_regular D r len g f' out
            ≡ done (moved len, g', out'))
        × ((j : ℕ) → j < len → out' j ≡ buf j)
        × ((j : ℕ) → len ≤ j → out' j ≡ out j)

    back :
        (h' : RegHandle) (f' : RegFile)
        → write_regular D o supply len buf (fresh_handle D) (blank_file D)
          ≡ done (moved len, h', f')
        → Gives D pos r len f' buf out
        → Trip (fresh_handle D) (blank_file D)
    back h' f' w (g', out', run, same, others) =
        (h', f', w, fresh_handle D, reopened-fresh D r reader f', g', out', run, same, others)
