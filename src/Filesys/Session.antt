-- ===== src/Filesys/Session.antt =====
-- A file that is made, written, opened again and read, through `fs_open`, `fs_write` and `fs_read` of
-- src/filesys/fs_main.c.
use tinker.Base.{
  ℕ, ◌+◌, ◌*◌, ◌<◌, ◌≤◌, ◌≡◌, refl, ap, ◌∙◌, Bool, true, false, List, some, update, update_self,
  arith,
}
use tinker.Base.Names.{same_name, same_name_refl}
use tinker.Kernel.State.{Outcome, done}
use tinker.Filesys.Inode.{Limits, fs_ifreg_io, Inode}
use tinker.Filesys.Regular.{
  FileFlags, RegFile, RegHandle, RegResult, moved, blank_file, fresh_handle, open_regular,
  read_regular, write_regular,
}
use tinker.Filesys.Regular.Fresh.{IsWriter}
use tinker.Filesys.Regular.Trip.{IsReader, write_read}
use tinker.Filesys.Open.{FileSystem, Opened, opened, fs_open}
use tinker.Filesys.Opening.{
  HasKinds, IsNewFile, regular-io, with_file, open_node-regular, fs_open-there, new_regular,
  fs_open-makes,
}
use tinker.Filesys.Calls.{
  FileHandle, FileNumber, file_of, ReadDone, read_file, fs_read, write_file, fs_write,
}

-- The calls of the drivers.
pub record Drivers : Type 0 where
  pub opens : ℕ → FileFlags → Bool → FileSystem → Outcome (Opened × FileSystem)
  pub std_reads : ℕ → (len : ℕ) → (ℕ → ℕ) → FileSystem → Outcome ReadDone
  pub reads : ℕ → FileHandle → (len : ℕ) → (ℕ → ℕ) → FileSystem → Outcome ReadDone
  pub std_writes :
      ℕ → (len : ℕ) → (ℕ → ℕ) → FileSystem → Outcome (RegResult × FileNumber × FileSystem)
  pub writes :
      ℕ
      → FileHandle
      → (len : ℕ) → (ℕ → ℕ)
      → FileSystem
      → Outcome (RegResult × FileNumber × FileSystem)

module _ (D : ℕ) (lim : Limits) (d : Drivers) where
  fs_write-regular :
      (supply : ℕ) (h : FileHandle) (len : ℕ) (buf : ℕ → ℕ) (fs : FileSystem) {f f' : RegFile}
      {g : RegHandle}
      → (fs.tree.inodes h.inode).iohandle ≡ fs_ifreg_io
      → fs.files h.inode ≡ some f
      → write_regular D h.oflag supply len buf h.hdata f ≡ done (moved len, g, f')
      → fs_write D d.std_writes d.writes supply (file_of h) len buf fs
        ≡ done (
          moved len,
          file_of (record h { hdata = g }),
          record fs { files = update fs.files h.inode (some f') },
        )
  unfolding fs_write write_file
  fs_write-regular supply h len buf fs io here run =
      rw (io, fs_write) (rw (here, write_file) (rw run refl))

  fs_read-regular :
      (h : FileHandle) (len : ℕ) (out : ℕ → ℕ) (fs : FileSystem) {f : RegFile} {g : RegHandle}
      {out' : ℕ → ℕ}
      → (fs.tree.inodes h.inode).iohandle ≡ fs_ifreg_io
      → fs.files h.inode ≡ some f
      → read_regular D h.oflag len h.hdata f out ≡ done (moved len, g, out')
      → fs_read D d.std_reads d.reads (file_of h) len out fs
        ≡ done (record {
          result = moved len;
          file = file_of (record h { hdata = g });
          system = fs;
          buffer = out';
        })
  unfolding fs_read read_file
  fs_read-regular h len out fs io here run = rw (io, fs_read) (rw (here, read_file) (rw run refl))

-- The number of a file that is open, from what `fs_open` gives.
abbrev pub handle : (id inode : ℕ) → FileFlags → RegHandle → FileNumber
handle id inode o h = file_of (record { id = id; inode = inode; oflag = o; hdata = h })

-- A name that the root directory does not have, with memory for the sectors and a 0 in memory behind the
-- block of the name: fs_open with O_CREAT and
-- O_APPEND makes the file, fs_write of some bytes writes them all, fs_open without O_CREAT and O_EXCL
-- opens the same file, and fs_read of as many bytes gives those that were written and changes nothing
-- else of the buffer.
pub make_write_read :
    (D : ℕ) (lim : Limits) (d : Drivers) (o r : FileFlags) (supply len : ℕ) (buf out : ℕ → ℕ)
    (filename path name : List ℕ) (fs : FileSystem)
    → 0 < D
    → HasKinds lim
    → IsNewFile lim fs filename path name
    → IsWriter o × (o.creat ≡ true)
    → IsReader r × (r.excl ≡ false)
    → 0 < len
    → len ≤ D + supply * D
    → (i : ℕ) × (fs1 : FileSystem) × (h : RegHandle) × (fs_open D lim d.opens o filename fs
        ≡ done (opened i fs.flid h, fs1))
      × (fs2 : FileSystem) × (h' : RegHandle) × (fs_write D d.std_writes d.writes supply
            (handle fs.flid i o h)
            len
            buf
            fs1
          ≡ done (moved len, handle fs.flid i o h', fs2))
      × (fs3 : FileSystem) × (g : RegHandle) × (fs_open D lim d.opens r filename fs2
          ≡ done (opened i (fs.flid + 1) g, fs3))
      × (g' : RegHandle) × (out' : ℕ → ℕ) × (fs_read D d.std_reads d.reads
            (handle (fs.flid + 1) i r g)
            len
            out
            fs3
          ≡ done (record {
            result = moved len;
            file = handle (fs.flid + 1) i r g';
            system = fs3;
            buffer = out';
          }))
      × ((j : ℕ) → j < len → out' j ≡ buf j)
      × ((j : ℕ) → len ≤ j → out' j ≡ out j)
make_write_read D lim d o r supply len buf out filename path name fs pos kinds new (writer, creates)
      (reader, any) some_len memory =
    let i = fs.tree.ilid in
    let made = fs_open-makes D lim d.opens o filename path name fs kinds new writer.0 creates in
    let trip =
      write_read D o r supply len buf out pos (new_regular D lim d.opens o creates) writer reader
        some_len memory in
    let fs1 = with_file D lim d.opens fs made.0 in
    let fs2 = record fs1 { files = update fs1.files i (some trip.1) } in
    let fs3 = record fs2 {
      files = update fs2.files i (some trip.1);
      fcntr = fs2.fcntr + 1;
      flid = fs2.flid + 1;
    } in
    let regular : (made.0.inodes i).iohandle ≡ fs_ifreg_io =
      ap (λ (n : Inode). n.iohandle) made.3 ∙ regular-io lim kinds in
    let blank = update_self fs.files i (some (blank_file D)) in
    let full : fs2.files i ≡ some trip.1 = update_self fs1.files i (some trip.1) in
    let full' : fs3.files i ≡ some trip.1 = update_self fs2.files i (some trip.1) in
    (
      i,
      fs1,
      fresh_handle D,
      made.1,
      fs2,
      trip.0,
      fs_write-regular D lim d supply
          (record { id = fs.flid; inode = i; oflag = o; hdata = fresh_handle D }) len buf fs1
          regular blank trip.2,
      fs3,
      trip.3,
      fs_open-there D lim d.opens r filename path name fs2 i reader.0 made.2 new.split
            (ap (λ n. same_name lim.name_max n name) made.4 ∙ same_name_refl lim.name_max name)
            (ground (arith, reader, any))
          ∙ open_node-regular D lim d.opens r false i fs2 (ground (arith, reader)) regular
              (ap (open_regular D r true) full ∙ trip.4),
      trip.5,
      trip.6,
      fs_read-regular D lim d (record { id = fs.flid + 1; inode = i; oflag = r; hdata = trip.3 })
          len out fs3 regular full' trip.7,
      trip.8,
      trip.9,
    )
