-- ===== src/Filesys/Calls.antt =====
-- `fs_read` and `fs_write` of src/filesys/fs_main.c on the files that are open. The
-- functions of the standard files and of the drivers, which are not part of the file system, are
-- parameters; the kinds of node other than files have functions that only assert that they are missing.
use tinker.Base.{ℕ, not, ◌||◌, Option, none, some, update, if◌then◌else◌}
use tinker.Kernel.State.{Outcome, done, exited, hangs, ◌>>=◌, assert_then, tc_err_assert}
use tinker.Filesys.Inode.{no_io, fs_ifreg_io, driver_io}
use tinker.Filesys.Regular.{
  FileFlags, RegFile, RegHandle, RegResult, reg_badf, flags_ok, read_regular, write_regular,
}
use tinker.Filesys.Open.{FileSystem}

-- `tk_fhandle_t` with the data of a regular file; what else a driver keeps in a handle is its own.
pub record FileHandle : Type 0 where
  pub id : ℕ
  pub inode : ℕ
  pub oflag : FileFlags
  pub hdata : RegHandle

-- The number of a file: a standard one, 0 to 2, the pointer to a handle, or -1.
pub data FileNumber : Type 0 where
  std_file : ℕ → FileNumber
  file_of : FileHandle → FileNumber
  bad_file : FileNumber

-- What `read` leaves: its result, the handle and the nodes, and the buffer.
pub record ReadDone : Type 0 where
  pub result : RegResult
  pub file : FileNumber
  pub system : FileSystem
  pub buffer : ℕ → ℕ

module _ (D : ℕ) where
  module _ (std : ℕ → (len : ℕ) → (ℕ → ℕ) → FileSystem → Outcome ReadDone)
      (driver : ℕ → FileHandle → (len : ℕ) → (ℕ → ℕ) → FileSystem → Outcome ReadDone) where
    -- `read` of a regular file, whose data is NULL before the first `open` with O_CREAT.
    unfoldable pub read_file :
        FileHandle → (len : ℕ) → (ℕ → ℕ) → FileSystem → Option RegFile → Outcome ReadDone
    read_file h len out fs none = assert_then (flags_ok h.oflag) (
        if h.oflag.wronly
        then done (record { result = reg_badf; file = file_of h; system = fs; buffer = out })
        else hangs)
    read_file h len out fs (some f) = read_regular D h.oflag len h.hdata f out >>= λ r.
        done (record {
          result = r.0;
          file = file_of (record h { hdata = r.1 });
          system = fs;
          buffer = r.2;
        })

    -- `fs_read` with CHECK_FH.
    unfoldable pub fs_read : FileNumber → (len : ℕ) → (ℕ → ℕ) → FileSystem → Outcome ReadDone
    unfolding read_file
    fs_read (std_file i) len out fs = std i len out fs
    fs_read bad_file len out fs =
        done (record { result = reg_badf; file = bad_file; system = fs; buffer = out })
    fs_read (file_of h) len out fs = elim (fs.tree.inodes h.inode).iohandle [
      | no_io ↦ done (record { result = reg_badf; file = file_of h; system = fs; buffer = out })
      | fs_ifreg_io ↦ read_file h len out fs (fs.files h.inode)
      | driver_io d ↦ driver d h len out fs
      | _ ↦ exited tc_err_assert
    ]

  module _
      (std : ℕ → (len : ℕ) → (ℕ → ℕ) → FileSystem → Outcome (RegResult × FileNumber × FileSystem))
      (driver : ℕ
        → FileHandle
        → (len : ℕ) → (ℕ → ℕ)
        → FileSystem
        → Outcome (RegResult × FileNumber × FileSystem)) where
    -- `write` of a regular file.
    unfoldable pub write_file :
        (supply : ℕ)
        → FileHandle
        → (len : ℕ) → (ℕ → ℕ)
        → FileSystem
        → Option RegFile
        → Outcome (RegResult × FileNumber × FileSystem)
    write_file supply h len buf fs none =
        assert_then (flags_ok h.oflag)
          (if not (h.oflag.rdwr || h.oflag.wronly) then done (reg_badf, file_of h, fs) else hangs)
    write_file supply h len buf fs (some f) =
        write_regular D h.oflag supply len buf h.hdata f >>= λ r. done (
          r.0,
          file_of (record h { hdata = r.1 }),
          record fs { files = update fs.files h.inode (some r.2) },
        )

    -- `fs_write` with CHECK_FH.
    unfoldable pub fs_write :
        (supply : ℕ)
        → FileNumber
        → (len : ℕ) → (ℕ → ℕ)
        → FileSystem
        → Outcome (RegResult × FileNumber × FileSystem)
    unfolding write_file
    fs_write supply (std_file i) len buf fs = std i len buf fs
    fs_write supply bad_file len buf fs = done (reg_badf, bad_file, fs)
    fs_write supply (file_of h) len buf fs = elim (fs.tree.inodes h.inode).iohandle [
      | no_io ↦ done (reg_badf, file_of h, fs)
      | fs_ifreg_io ↦ write_file supply h len buf fs (fs.files h.inode)
      | driver_io d ↦ driver d h len buf fs
      | _ ↦ exited tc_err_assert
    ]
