-- ===== src/Filesys/Regular/Append.antt =====
-- Writes of src/filesys/fs_ifreg.c that stay in the first sector.
use tinker.Base.{
  ℕ, suc, ◌+◌, ◌-◌, ◌<◌, ◌≤◌, ◌≡◌, refl, ap, true, false, not, ◌||◌, some, none, ltb, lt→ltb,
  le→leb, ◌∙◌, arith,
}
use tinker.Kernel.State.{done}
use tinker.Filesys.Regular.{
  FileFlags, RegFile, RegHandle, moved, put_bytes, blank_file, fresh_handle, open_regular, fits,
  extend, write_here, write_regular,
}
use tinker.Filesys.Regular.Growth.{extend-wide}
use tinker.Filesys.Regular.Fresh.{IsWriter}

-- The handle stands at the end of a file of one sector, and all its indices say so.
pub record AtEnd (D : ℕ) (h : RegHandle) (f : RegFile) : Type 0 where
  pub one : f.count ≡ 1
  pub size : f.maxsize ≡ D
  pub within : f.dsize ≤ D
  pub csector : h.csector ≡ 0
  pub didx : h.didx ≡ f.dsize
  pub sidx : h.sidx ≡ f.dsize
  pub ptr_sector : h.ptr.0 ≡ 0
  pub ptr_place : h.ptr.1 ≡ f.dsize

-- The first `open` with O_CREAT leaves an empty file that way.
pub open_regular-AtEnd :
    (D : ℕ) (o : FileFlags) {h : RegHandle} {f : RegFile}
    → open_regular D o true none ≡ done (some h, some f)
    → AtEnd D h f × (f.dsize ≡ 0)
unfolding open_regular fresh_handle blank_file
open_regular-AtEnd D o e = ground arith

-- `write` at the end of a file of one sector that is open for writing with O_APPEND, of at least one byte
-- and of bytes that still fit: it returns their number, the file
-- has them behind those that it had, which stay, and the handle stands at the new end.
pub write_regular-AtEnd :
    (D : ℕ) (o : FileFlags) (supply k : ℕ) (buf : ℕ → ℕ) (h : RegHandle) (f : RegFile)
    → IsWriter o
    → AtEnd D h f
    → 0 < k
    → f.dsize + k ≤ D
    → (h' : RegHandle) × (f' : RegFile) × (write_regular D o supply k buf h f
        ≡ done (moved k, h', f'))
      × AtEnd D h' f'
      × (f'.dsize ≡ f.dsize + k)
      × ((j : ℕ) → j < f.dsize → f'.sectors 0 j ≡ f.sectors 0 j)
      × ((j : ℕ) → j < k → f'.sectors 0 (f.dsize + j) ≡ buf j)
unfolding write_regular write_here put_bytes
write_regular-AtEnd D o supply k buf h f (ok, writes, appends) e some_k room =
    let past : ltb f.dsize (k + h.didx) ≡ true = ground (arith, e.didx, some_k) in
    let goes : not (o.rdwr || o.wronly) ≡ false = ap not writes in
    let in_place : fits D k h ≡ true = ground (arith, e.sidx, room) in
    let one_round : f.count + k + h.didx + 1 ≡ suc (f.count + k + h.didx) = omega arith in
    let wide =
      ap (λ n. extend D n (k + h.didx) supply h.csector f) one_round
      ∙ extend-wide D (f.count + k + h.didx) (k + h.didx) supply h.csector f
          (omega (arith, e.size, e.didx, room)) in
    let r = write_here D k buf h f in
    (
      r.0,
      r.1,
      rw (ok, goes, past, appends, wide, in_place) refl,
      record {
        one = e.one;
        size = e.size;
        within = omega (arith, e.didx, room);
        csector = e.csector;
        didx = refl;
        sidx = omega (arith, e.didx, e.sidx);
        ptr_sector = e.ptr_sector;
        ptr_place = omega (arith, e.didx, e.ptr_place);
      },
      omega (arith, e.didx),
      (λ j a. ground (arith, e.ptr_sector, e.ptr_place, a)),
      (λ j a.
          let back : f.dsize + j - f.dsize ≡ j = omega arith in
          rw
            (
              e.ptr_sector,
              e.ptr_place,
              le→leb f.dsize (f.dsize + j) (omega arith),
              lt→ltb (f.dsize + j) (f.dsize + k) (omega (arith, a)),
            )
            (ap buf back)),
    )
