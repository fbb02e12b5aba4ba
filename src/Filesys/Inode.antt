-- ===== src/Filesys/Inode.antt =====
-- src/filesys/inode.c: the search for a path and the creation of a node. A pointer to a node is its
-- number, the order of its creation, and the root is 0. A string has no 0, and a path is shorter than
-- PATH_MAX, which `imknod` tests. The constants of <sys/stat.h> and <limits.h> are arguments.
use tinker.Base.{
  ℕ, zero, suc, ◌+◌, ◌-◌, Bool, true, false, not, List, [], ◌∷◌, ◌++◌, length, Option, some, none,
  update, ltb, ◌==◌, if◌then◌else◌, bit_or,
}
use tinker.Kernel.State.{Outcome, done, hangs, ◌>>=◌}
use tinker.Base.Names.{same_name}

-- The kinds of `mode_t`, the limits of names, and what follows the block of a node's name in memory, up to
-- a 0: what `malloc` gives.
pub record Limits : Type 0 where
  pub path_max : ℕ
  pub name_max : ℕ
  pub s_ifdir : ℕ
  pub s_ifchr : ℕ
  pub s_ifblk : ℕ
  pub s_ifreg : ℕ
  pub s_iflnk : ℕ
  pub s_ifsock : ℕ
  pub s_ififo : ℕ
  pub behind : List ℕ

-- A `tk_iohandle_t *`: NULL, one of the file system's own, or the one that a driver gave.
pub data IoHandle : Type 0 where
  no_io fs_ifdir_io fs_ifchr_io fs_ifblk_io fs_ifreg_io fs_iflnk_io fs_ifsock_io fs_ififo_io :
      IoHandle
  driver_io : ℕ → IoHandle

-- `tk_mount_t`
pub record Mounted : Type 0 where
  pub io_device : IoHandle
  pub options : ℕ

-- `tk_inode_t`; `down` is the node itself if nothing is below it.
pub record Inode : Type 0 where
  pub id : ℕ
  pub name : List ℕ
  pub mode : ℕ
  pub mount : Option Mounted
  pub belong : ℕ
  pub next : Option ℕ
  pub down : ℕ
  pub iohandle : IoHandle

-- The nodes, `__ilid` and `__icntr`.
pub record Tree : Type 0 where
  pub inodes : ℕ → Inode
  pub ilid : ℕ
  pub icntr : ℕ

pub data FsError : Type 0 where
  fs_nametoolong fs_exist fs_noent fs_notdir fs_inval fs_notblk fs_acces fs_busy fs_nomem : FsError

abbrev pub put_inode : Tree → ℕ → Inode → Tree
put_inode t i n = record t { inodes = update t.inodes i n }

-- `strtok(s, "/")` until it returns NULL; `part` is what of a part was read.
unfoldable pub tokens : (part : List ℕ) → List ℕ → List (List ℕ)
tokens [] [] = []
tokens (x ∷ part) [] = (x ∷ part) ∷ []
tokens part (c ∷ s) = elim (c == 47) [
  | false ↦ tokens (part ++ c ∷ []) s
  | true ↦ elim part [ [] ↦ tokens [] s | x ∷ p ↦ (x ∷ p) ∷ tokens [] s ]
]

-- `igetpath` and `igetname`: what stands up to the last "/", and what follows it; without one the loop
-- leaves the string.
unfoldable pub split_name : List ℕ → Option (List ℕ × List ℕ)
split_name [] = none
split_name (c ∷ s) = elim (split_name s) [
  | some p ↦ some (c ∷ p.0, p.1)
  | none ↦ if c == 47 then some (c ∷ [], s) else none
]

-- `for (; ci && strncmp(ci->name, nd, NAME_MAX); ci = ci->next)`, on fuel.
unfoldable pub walk : (fuel name_max : ℕ) → Option ℕ → List ℕ → Tree → Outcome (Option ℕ)
walk zero name_max ci nd t = hangs
walk (suc fuel) name_max none nd t = done none
walk (suc fuel) name_max (some i) nd t =
    let rest = walk fuel name_max (t.inodes i).next nd t in
    if same_name name_max (t.inodes i).name nd then done (some i) else rest

abbrev pub is_mounted : Inode → Bool
is_mounted n = elim n.mount [ none ↦ false | some m ↦ true ]

-- The loop of `isearch` over the parts of the path.
unfoldable pub search_parts :
    (fuel name_max : ℕ) → List (List ℕ) → Tree → Option ℕ → Outcome (Option ℕ)
search_parts fuel name_max [] t ci = done ci
search_parts fuel name_max (nd ∷ parts) t none = hangs
search_parts fuel name_max (nd ∷ parts) t (some i) =
    let rest =
      walk fuel name_max (some (t.inodes i).down) nd t >>= search_parts fuel name_max parts t in
    if is_mounted (t.inodes i) then done (some i) else rest

-- `isearch`
unfoldable pub isearch : Limits → ℕ → List ℕ → Tree → Outcome (Option ℕ)
isearch lim ci s t = search_parts (t.ilid + 1) lim.name_max (tokens [] s) t (some ci)

-- `for (seekNode = belong->down; seekNode->next; seekNode = seekNode->next)`, on fuel.
unfoldable pub seek_last : (fuel : ℕ) → ℕ → Tree → Outcome ℕ
seek_last zero i t = hangs
seek_last (suc fuel) i t = elim (t.inodes i).next [ none ↦ done i | some j ↦ seek_last fuel j t ]

-- The handler of a new node.
abbrev pub io_of : Limits → (mode dev : ℕ) → IoHandle
io_of lim mode dev =
    if not (dev == 0)
    then driver_io dev
    else if mode == lim.s_ifdir
    then fs_ifdir_io
    else if mode == lim.s_ifchr
    then fs_ifchr_io
    else if mode == lim.s_ifblk
    then fs_ifblk_io
    else if mode == lim.s_ifreg
    then fs_ifreg_io
    else if mode == lim.s_iflnk
    then fs_iflnk_io
    else if mode == lim.s_ifsock
    then fs_ifsock_io
    else if mode == lim.s_ififo
    then fs_ififo_io
    else no_io

-- The name is stored without a 0: it goes on with what follows its block in memory, up to a 0.
abbrev pub new_inode : Limits → Tree → (name : List ℕ) (mode dev belong : ℕ) → Inode
new_inode lim t name mode dev belong = record {
  id = t.ilid;
  name = name ++ lim.behind;
  mode = mode;
  mount = none;
  belong = belong;
  next = none;
  down = t.ilid;
  iohandle = io_of lim mode dev;
}

-- The new node stands in the tree, behind the last one of its directory.
unfoldable pub link_inode : Tree → (belong : ℕ) → Inode → Outcome Tree
link_inode t belong n =
    let new = t.ilid in
    let t' = record (put_inode t new n) { ilid = new + 1; icntr = t.icntr + 1 } in
    let down = (t.inodes belong).down in
    if down == belong
    then done (put_inode t' belong (record (t.inodes belong) { down = new }))
    else (seek_last (t.ilid + 1) down t >>= λ l.
        done (put_inode t' l (record (t.inodes l) { next = some new })))

-- `imknod` with the path and the name apart: an error's -1, or 0.
unfoldable pub make_in :
    Limits
    → ℕ
    → (filename path name : List ℕ) (mode dev : ℕ) → Tree
    → Outcome (Option FsError × Tree)
make_in lim ci filename path name mode dev t =
    if not (ltb (length name) lim.name_max)
    then done (some fs_nametoolong, t)
    else (isearch lim ci filename t >>= λ found. elim found [
      | some i ↦ done (some fs_exist, t)
      | none ↦ isearch lim ci path t >>= λ parent. elim parent [
        | none ↦ done (some fs_noent, t)
        | some b ↦
            if bit_or (t.inodes b).mode lim.s_ifdir == 0
            then done (some fs_notdir, t)
            else (link_inode t b (new_inode lim t name mode dev b) >>= λ t'. done (none, t'))
      ]
    ])

-- `imknod`, as long as there is memory.
unfoldable pub imknod :
    Limits → ℕ → (filename : List ℕ) (mode dev : ℕ) → Tree → Outcome (Option FsError × Tree)
imknod lim ci filename mode dev t =
    if not (ltb (length filename) lim.path_max)
    then done (some fs_nametoolong, t)
    else elim (split_name filename) [
      | none ↦ hangs
      | some p ↦ make_in lim ci filename p.0 p.1 mode dev t
    ]

-- `tk_rmnod`, which only counts.
abbrev pub tk_rmnod : Tree → Tree
tk_rmnod t = record t { icntr = t.icntr - 1 }
