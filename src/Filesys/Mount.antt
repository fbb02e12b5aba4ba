-- ===== src/Filesys/Mount.antt =====
-- `mknod`, `mount` and `umount2` of src/filesys/filesys.c; `__Rnod` is the node 0.
use tinker.Base.{ℕ, Bool, not, List, Option, some, none, ◌==◌, if◌then◌else◌, bit_and}
use tinker.Kernel.State.{Outcome, done, ◌>>=◌}
use tinker.Filesys.Inode.{
  Limits, Tree, FsError, fs_inval, fs_notblk, fs_acces, fs_busy, fs_nomem, put_inode, is_mounted,
  isearch, imknod,
}

unfoldable pub mknod :
    Limits → (filename : List ℕ) (mode dev : ℕ) → Tree → Outcome (Option FsError × Tree)
mknod lim filename mode dev t = imknod lim 0 filename mode dev t

-- The tests of `mount` on the directory, and the mounting; `memory` is whether `calloc` succeeds.
unfoldable pub mount_at :
    Limits → (device dir options : ℕ) (memory : Bool) → Tree → Option FsError × Tree
mount_at lim device dir options memory t =
    if bit_and (t.inodes dir).mode lim.s_ifdir == 0
    then (some fs_acces, t)
    else if is_mounted (t.inodes dir)
    then (some fs_busy, t)
    else if not memory
    then (some fs_nomem, t)
    else (
      none,
      put_inode t dir (record (t.inodes dir) {
        mount = some (record { io_device = (t.inodes device).iohandle; options = options });
      }),
    )

-- `mount`
unfoldable pub mount :
    Limits
    → (special_file dir : List ℕ) (options : ℕ) (memory : Bool) → Tree
    → Outcome (Option FsError × Tree)
mount lim special_file dir options memory t = isearch lim 0 special_file t >>= λ device.
    elim device [
      | none ↦ done (some fs_inval, t)
      | some d ↦
          if bit_and (t.inodes d).mode lim.s_ifblk == 0
          then done (some fs_notblk, t)
          else (isearch lim 0 dir t >>= λ at. elim at [
            | none ↦ done (some fs_inval, t)
            | some m ↦ done (mount_at lim d m options memory t)
          ])
    ]

-- `umount2`
unfoldable pub umount2 : Limits → (file : List ℕ) → Tree → Outcome (Option FsError × Tree)
umount2 lim file t = isearch lim 0 file t >>= λ at. elim at [
  | none ↦ done (some fs_inval, t)
  | some m ↦
      if is_mounted (t.inodes m)
      then done (none, put_inode t m (record (t.inodes m) { mount = none }))
      else done (some fs_inval, t)
]
