-- ===== src/Filesys/Regular.antt =====
-- The regular files of src/filesys/fs_ifreg.c: bytes in a chain of sectors. A sector is its number in the
-- chain, so that the last one is the one whose `next` is NULL; `prev`, which nothing reads, is left out.
-- `D` is DATA_IN_SECTOR_SIZE, and `supply` is the number of sectors that `malloc` still gives; a write
-- through NULL is `hangs`. A copy past the data of a sector, which would overwrite `next`, is not followed:
-- the theorems make none. The small blocks of an `open` have their memory. Lengths do not pass 2^31.
use tinker.Base.{
  ℕ, zero, suc, ◌+◌, ◌-◌, ◌*◌, Bool, true, false, not, ◌&&◌, ◌||◌, Option, none, some, update, ltb,
  leb, ◌==◌, if◌then◌else◌,
}
use tinker.Kernel.State.{Outcome, done, exited, hangs, ◌>>=◌, assert_then, tc_err_assert}
pub mod Growth
pub mod Spans
pub mod Writing
pub mod Reading
pub mod Fresh
pub mod Trip
pub mod Append
pub mod Overwrite
mod Tests

-- The bits of `oflag` that the file system reads; O_RDONLY_NL is 0.
pub record FileFlags : Type 0 where
  pub wronly : Bool
  pub rdwr : Bool
  pub append : Bool
  pub creat : Bool
  pub excl : Bool

-- The data of a node, with the sectors that `sectors` leads to and their number.
pub record RegFile : Type 0 where
  pub maxsize : ℕ
  pub dsize : ℕ
  pub sectors : ℕ → ℕ → ℕ
  pub count : ℕ

-- The data of a handle; `ptr` is a place of a sector.
pub record RegHandle : Type 0 where
  pub ptr : ℕ × ℕ
  pub sidx : ℕ
  pub didx : ℕ
  pub csector : ℕ

-- What a call returns: a length, or -1 and `errno`.
pub data RegResult : Type 0 where
  moved : ℕ → RegResult
  reg_badf reg_nospc reg_inval reg_fbig : RegResult

-- The assertion of `tk_dbg_flags` on the flags.
abbrev pub flags_ok : FileFlags → Bool
flags_ok o = not (o.wronly && o.rdwr)

-- `memcpy` into a sector, from the place `at` on.
unfoldable pub put_bytes : RegFile → (sector at n : ℕ) → (ℕ → ℕ) → RegFile
put_bytes f sector at n bytes = record f {
  sectors =
      update f.sectors sector
        (λ j. if leb at j && ltb j (at + n) then bytes (j - at) else f.sectors sector j);
}

-- `memcpy` out of a sector, to what follows the first `n` bytes of the buffer.
unfoldable pub take_bytes : (ℕ → ℕ) → (n k : ℕ) → (ℕ → ℕ) → ℕ → ℕ
take_bytes out n k bytes j = if leb n j && ltb j (n + k) then bytes (j - n) else out j

-- The loops have moved `n` bytes, or met the end of the chain.
pub record Copied (A : Type 0) : Type 0 where
  pub count : ℕ
  pub eof : Bool
  pub handle : RegHandle
  pub target : A

-- The handle after a full chunk, and at the start of the next sector.
abbrev pub advanced : ℕ → RegHandle → RegHandle
advanced k h = record h { sidx = h.sidx + k; didx = h.didx + k }

abbrev pub next_sector : RegHandle → RegHandle
next_sector h = record h { csector = h.csector + 1; sidx = 0 }

module _ (D : ℕ) where
  unfoldable pub blank_file : RegFile
  blank_file = record { maxsize = D; dsize = 0; sectors = λ i j. 0; count = 1 }

  -- What `open` sets last; `sectors` is the sector 0.
  unfoldable pub fresh_handle : RegHandle
  fresh_handle = record { ptr = (0, 0); sidx = 0; didx = 0; csector = 0 }

  -- The part of `open` on the data of the node, which is NULL before the first one.
  unfoldable pub open_regular :
      FileFlags → (memory : Bool) → Option RegFile → Outcome (Option RegHandle × Option RegFile)
  open_regular o memory none =
      if o.creat && memory then done (some fresh_handle, some blank_file) else hangs
  open_regular o memory (some f) =
      if o.creat && not o.append then done (none, some f) else done (some fresh_handle, some f)

  -- The bytes fit in the sector: an unsigned comparison.
  abbrev pub fits : ℕ → RegHandle → Bool
  fits len h = ltb D h.sidx || leb len (D - h.sidx)

  -- The loop of `read`, on fuel: `n` bytes are moved and `nleft` are left, `slen` in this sector. The last
  -- chunk leaves the handle, since `nleft` is 0 when it is added.
  unfoldable pub read_loop :
      (fuel slen nleft n : ℕ) → RegHandle → RegFile → (ℕ → ℕ) → Outcome (Copied (ℕ → ℕ))
  read_loop zero slen nleft n h f out = hangs
  read_loop (suc fuel) slen nleft n h f out =
      let bytes = λ (j : ℕ). f.sectors h.csector (h.sidx + j) in
      let rest =
        read_loop fuel D (nleft - slen) (n + slen) (next_sector (advanced slen h)) f
          (take_bytes out n slen bytes) in
      if ltb slen nleft
      then (if ltb (h.csector + 1) f.count
          then rest
          else done (record {
            count = n + slen;
            eof = true;
            handle = advanced slen h;
            target = take_bytes out n slen bytes;
          }))
      else done (record {
        count = n + nleft;
        eof = false;
        handle = h;
        target = take_bytes out n nleft bytes;
      })

  -- The loop of `write`, of the same form.
  unfoldable pub write_loop :
      (fuel slen nleft n : ℕ) → RegHandle → RegFile → (ℕ → ℕ) → Outcome (Copied RegFile)
  write_loop zero slen nleft n h f buf = hangs
  write_loop (suc fuel) slen nleft n h f buf =
      let bytes = λ (j : ℕ). buf (n + j) in
      let rest =
        write_loop fuel D (nleft - slen) (n + slen) (next_sector (advanced slen h))
          (put_bytes f h.csector h.sidx slen bytes) buf in
      if ltb slen nleft
      then (if ltb (h.csector + 1) f.count
          then rest
          else done (record {
            count = n + slen;
            eof = true;
            handle = advanced slen h;
            target = put_bytes f h.csector h.sidx slen bytes;
          }))
      else done (record {
        count = n + nleft;
        eof = false;
        handle = h;
        target = put_bytes f h.csector h.sidx nleft bytes;
      })

  -- One round for each sector and one more.
  unfoldable pub read_regular :
      FileFlags
      → (len : ℕ) → RegHandle
      → RegFile
      → (ℕ → ℕ)
      → Outcome (RegResult × RegHandle × (ℕ → ℕ))
  unfolding read_loop
  read_regular o len h f out =
      let bytes = λ (j : ℕ). f.sectors h.csector (h.sidx + j) in
      assert_then (flags_ok o) (
        if o.wronly
        then done (reg_badf, h, out)
        else if ltb f.dsize h.didx
        then done (moved 0, h, out)
        else if fits len h
        then done (moved len, advanced len h, take_bytes out 0 len bytes)
        else read_loop (f.count + 1) (D - h.sidx) len 0 h f out >>= λ c.
            done (moved c.count, c.handle, c.target))

  -- `for (i = 0; len + hdata->didx > idata->maxsize; i++)`, on fuel, from the sector `tsect` on.
  unfoldable pub extend : (fuel need supply tsect : ℕ) → RegFile → Outcome RegFile
  extend zero need supply tsect f = hangs
  extend (suc fuel) need supply tsect f =
      let longer = record f {
        sectors = update f.sectors f.count (λ j. 0);
        count = f.count + 1;
        maxsize = f.maxsize + D;
      } in
      let passed = extend fuel need supply (tsect + 1) f in
      let grown : Outcome RegFile = elim supply [
        | zero ↦ hangs
        | suc s ↦ extend fuel need s (tsect + 1) longer
      ] in
      if ltb f.maxsize need then (if ltb (tsect + 1) f.count then passed else grown) else done f

  -- The copy in `write`, once there are sectors enough, with its two assertions.
  unfoldable pub write_chunks :
      (len : ℕ) → (ℕ → ℕ) → RegHandle → RegFile → Outcome (RegResult × RegHandle × RegFile)
  unfolding write_loop
  write_chunks len buf h f = write_loop (f.count + 1) (D - h.sidx) len 0 h f buf >>= λ c.
      assert_then (not c.eof) (
        assert_then (c.handle.csector + 1 == c.target.count) (
          assert_then (c.count == len)
            (done (moved len, c.handle, record c.target { dsize = c.handle.didx }))))

  -- The copy in `write` to where `ptr` points.
  unfoldable pub write_here : (len : ℕ) → (ℕ → ℕ) → RegHandle → RegFile → RegHandle × RegFile
  write_here len buf h f =
      let h' = record (advanced len h) { ptr = (h.ptr.0, h.ptr.1 + len) } in
      (h', record (put_bytes f h.ptr.0 h.ptr.1 len buf) { dsize = h'.didx })

  unfoldable pub write_regular :
      FileFlags
      → (supply len : ℕ) → (ℕ → ℕ)
      → RegHandle
      → RegFile
      → Outcome (RegResult × RegHandle × RegFile)
  unfolding extend write_chunks write_here
  write_regular o supply len buf h f = assert_then (flags_ok o) (
      if not (o.rdwr || o.wronly)
      then done (reg_badf, h, f)
      else if ltb f.dsize (len + h.didx)
      then (if o.append
          then (extend (f.count + len + h.didx + 1) (len + h.didx) supply h.csector f >>= λ f'.
              (if fits len h
                then done (let r = write_here len buf h f' in (moved len, r.0, r.1))
                else write_chunks len buf h f'))
          else done (reg_nospc, h, f))
      else exited tc_err_assert)
