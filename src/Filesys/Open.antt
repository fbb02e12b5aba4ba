-- ===== src/Filesys/Open.antt =====
-- `fs_open` of src/filesys/fs_main.c on the tree of nodes and the regular files. `driver` stands for the
-- `open` of a driver, with the flags and whether the access flags are passed, which is not part of the file system; the kinds of node other than files have an
-- `open` that only asserts that it is missing.
use tinker.Base.{
  ℕ, ◌+◌, Bool, true, false, not, ◌||◌, List, Option, none, some, update, if◌then◌else◌,
}
use tinker.Base.Names.{same_name}
use tinker.Kernel.State.{Outcome, done, exited, hangs, ◌>>=◌, assert_then, tc_err_assert}
use tinker.Filesys.Inode.{
  Limits, fs_ifreg_io, driver_io, Tree, FsError, fs_exist, fs_noent, fs_inval, split_name,
  is_mounted, isearch, imknod,
}
use tinker.Filesys.Regular.{FileFlags, RegFile, RegHandle, flags_ok, open_regular}

-- The nodes, the data of each regular file, and `__fcntr` and `__flid` of src/filesys/filesys.c.
pub record FileSystem : Type 0 where
  pub tree : Tree
  pub files : ℕ → Option RegFile
  pub fcntr : ℕ
  pub flid : ℕ

-- What `open` returns: a handle of a node, or -1 and `errno`.
pub data Opened : Type 0 where
  opened : (inode id : ℕ) → RegHandle → Opened
  refused : FsError → Opened

-- `tk_new_handle`, which has its memory.
unfoldable pub new_handle : FileSystem → FileSystem
new_handle fs = record fs { fcntr = fs.fcntr + 1; flid = fs.flid + 1 }

module _ (D : ℕ) (lim : Limits)
    (driver : ℕ → FileFlags → Bool → FileSystem → Outcome (Opened × FileSystem)) where
  -- The result of `open_regular` for the node `i`.
  unfoldable pub opened_regular :
      (i : ℕ) → FileSystem → Option RegHandle × Option RegFile → Opened × FileSystem
  opened_regular i fs (none, f) =
      (refused fs_inval, record (new_handle fs) { files = update fs.files i f })
  opened_regular i fs (some h, f) =
      (opened i fs.flid h, record (new_handle fs) { files = update fs.files i f })

  -- `inode->iohandle->open(...)`, with the access flags 0 before the node if `access`. The `open` of a file
  -- takes them with O_CREAT: if they are not there, it reads the node as the flags and asserts that it is 0.
  unfoldable pub open_node :
      FileFlags → (access : Bool) (i : ℕ) → FileSystem → Outcome (Opened × FileSystem)
  unfolding opened_regular new_handle
  open_node o access i fs = elim (fs.tree.inodes i).iohandle [
    | fs_ifreg_io ↦
        assert_then (not o.creat || access)
          (open_regular D o true (fs.files i) >>= λ r. done (opened_regular i fs r))
    | driver_io d ↦ driver d o access fs
    | _ ↦ exited tc_err_assert
  ]

  -- The node is new: `imknod` has made it.
  unfoldable pub open_new :
      FileFlags → List ℕ → FileSystem → Option FsError × Tree → Outcome (Opened × FileSystem)
  unfolding open_node
  open_new o filename fs (some e, t) = done (refused e, record fs { tree = t })
  open_new o filename fs (none, t) = isearch lim 0 filename t >>= λ found. elim found [
    | none ↦ hangs
    | some i ↦ open_node o true i (record fs { tree = t })
  ]

  -- The node is there. If its name is not that of the path, the search stopped at a mounted one.
  unfoldable pub open_found :
      FileFlags → (name : List ℕ) (i : ℕ) → FileSystem → Outcome (Opened × FileSystem)
  unfolding open_node
  open_found o name i fs =
      if not (same_name lim.name_max (fs.tree.inodes i).name name)
      then assert_then (is_mounted (fs.tree.inodes i)) (open_node o false i fs)
      else if o.creat || o.excl
      then done (refused fs_exist, fs)
      else open_node o false i fs

  -- `fs_open`; a path never ends in "/" where the code looks for it, behind its last character.
  unfoldable pub fs_open :
      FileFlags → (filename : List ℕ) → FileSystem → Outcome (Opened × FileSystem)
  unfolding open_new open_found
  fs_open o filename fs = assert_then (flags_ok o) (
      isearch lim 0 filename fs.tree >>= λ found. elim found [
        | some i ↦ elim (split_name filename) [ none ↦ hangs | some p ↦ open_found o p.1 i fs ]
        | none ↦
            if o.creat
            then (imknod lim 0 filename lim.s_ifreg 0 fs.tree >>= open_new o filename fs)
            else done (refused fs_noent, fs)
      ])
