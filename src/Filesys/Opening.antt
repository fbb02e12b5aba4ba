-- ===== src/Filesys/Opening.antt =====
-- `fs_open` of src/filesys/fs_main.c makes a regular file and finds it again.
use tinker.Base.{
  ℕ, ◌+◌, ◌<◌, ◌≡◌, ◌≢◌, refl, sym, ap, ◌∙◌, Bool, true, false, not, ◌||◌, List, [], ◌∷◌, ◌++◌,
  length, none, some, update, update_self, ◌==◌, if◌then◌else◌, bit_or, arith,
}
use tinker.Base.Names.{same_name, same_name_refl}
use tinker.Kernel.State.{Outcome, done, hangs, ◌>>=◌, assert_then}
use tinker.Filesys.Inode.{
  Limits, fs_ifreg_io, Inode, Tree, fs_noent, tokens, split_name, search_parts, isearch, io_of,
  new_inode, imknod,
}
use tinker.Filesys.Chain.{IsTree}
use tinker.Filesys.Found.{imknod-found}
use tinker.Filesys.Regular.{
  FileFlags, RegFile, RegHandle, flags_ok, open_regular, blank_file, fresh_handle,
}
use tinker.Filesys.Open.{
  FileSystem, Opened, opened, refused, new_handle, opened_regular, open_node, open_new, open_found,
  fs_open,
}

-- S_IFREG is another kind than those that `imknod` looks at first, and a 0 follows the block of a node's
-- name in memory.
pub record HasKinds (lim : Limits) : Type 0 where
  pub not_dir : lim.s_ifreg ≢ lim.s_ifdir
  pub not_chr : lim.s_ifreg ≢ lim.s_ifchr
  pub not_blk : lim.s_ifreg ≢ lim.s_ifblk
  pub ended : lim.behind ≡ []

pub regular-io : (lim : Limits) → HasKinds lim → io_of lim lim.s_ifreg 0 ≡ fs_ifreg_io
regular-io lim k = ground (arith, k)

-- A file name of the root directory, which has no such node and is a directory.
pub record IsNewFile (lim : Limits) (fs : FileSystem) (filename path name : List ℕ) : Type 0 where
  pub tree : IsTree fs.tree
  pub root : 0 < fs.tree.ilid
  pub path_short : length filename < lim.path_max
  pub name_short : length name < lim.name_max
  pub split : split_name filename ≡ some (path, name)
  pub at_root : tokens [] path ≡ []
  pub one_part : tokens [] filename ≡ name ∷ []
  pub missing : isearch lim 0 filename fs.tree ≡ done none
  pub is_dir : (bit_or (fs.tree.inodes 0).mode lim.s_ifdir == 0) ≡ false
  pub no_data : fs.files fs.tree.ilid ≡ none

module _ (D : ℕ) (lim : Limits)
    (driver : ℕ → FileFlags → Bool → FileSystem → Outcome (Opened × FileSystem)) where
  pub open_node-regular :
      (o : FileFlags) (access : Bool) (i : ℕ) (fs : FileSystem) {h : RegHandle} {f : RegFile}
      → not o.creat || access ≡ true
      → (fs.tree.inodes i).iohandle ≡ fs_ifreg_io
      → open_regular D o true (fs.files i) ≡ done (some h, some f)
      → open_node D lim driver o access i fs
        ≡ done (
          opened i fs.flid h,
          record fs {
            files = update fs.files i (some f);
            fcntr = fs.fcntr + 1;
            flid = fs.flid + 1;
          },
        )
  unfolding open_node opened_regular new_handle
  open_node-regular o access i fs a e r =
      rw (e, open_node)
        (ap
            (λ b. assert_then b (
              open_regular D o true (fs.files i) >>= λ x.
              done (opened_regular D lim driver i fs x)))
            a
          ∙ rw r refl)

  open_new-opens :
      (o : FileFlags) (filename : List ℕ) (fs : FileSystem) (t : Tree) (i : ℕ)
      → isearch lim 0 filename t ≡ done (some i)
      → open_new D lim driver o filename fs (none, t)
        ≡ open_node D lim driver o true i (record fs { tree = t })
  unfolding open_new
  open_new-opens o filename fs t i e = rw e refl

  fs_open-missing :
      (o : FileFlags) (filename : List ℕ) (fs : FileSystem) (t : Tree)
      → flags_ok o ≡ true
      → isearch lim 0 filename fs.tree ≡ done none
      → o.creat ≡ true
      → imknod lim 0 filename lim.s_ifreg 0 fs.tree ≡ done (none, t)
      → fs_open D lim driver o filename fs ≡ open_new D lim driver o filename fs (none, t)
  unfolding fs_open
  fs_open-missing o filename fs t ok missing creates made =
      rw (ok, missing, fs_open)
        (ap
            (λ b.
              if b
              then imknod lim 0 filename lim.s_ifreg 0 fs.tree
                >>= open_new D lim driver o filename fs
              else done (refused fs_noent, fs))
            creates
          ∙ ap (λ x. x >>= open_new D lim driver o filename fs) made)

  open_found-named :
      (o : FileFlags) (name : List ℕ) (fs : FileSystem) (i : ℕ)
      → same_name lim.name_max (fs.tree.inodes i).name name ≡ true
      → o.creat || o.excl ≡ false
      → open_found D lim driver o name i fs ≡ open_node D lim driver o false i fs
  unfolding open_found
  open_found-named o name fs i named plain = simp (named, plain, open_found) refl

  pub fs_open-there :
      (o : FileFlags) (filename path name : List ℕ) (fs : FileSystem) (i : ℕ)
      → flags_ok o ≡ true
      → isearch lim 0 filename fs.tree ≡ done (some i)
      → split_name filename ≡ some (path, name)
      → same_name lim.name_max (fs.tree.inodes i).name name ≡ true
      → o.creat || o.excl ≡ false
      → fs_open D lim driver o filename fs ≡ open_node D lim driver o false i fs
  unfolding fs_open
  fs_open-there o filename path name fs i ok there split named plain =
      rw (ok, there, fs_open)
        (ap (λ x. elim x [ none ↦ hangs | some p ↦ open_found D lim driver o p.1 i fs ]) split
          ∙ open_found-named o name fs i named plain)

  pub new_regular :
      (o : FileFlags)
      → o.creat ≡ true
      → open_regular D o true none ≡ done (some (fresh_handle D), some (blank_file D))
  unfolding open_regular
  new_regular o creates = rw creates refl

  old_regular :
      (o : FileFlags) (f : RegFile)
      → o.creat ≡ false
      → open_regular D o true (some f) ≡ done (some (fresh_handle D), some f)
  unfolding open_regular
  old_regular o f plain = rw plain refl

  -- The state after the file `i` is opened for the first time.
  abbrev pub with_file : FileSystem → Tree → FileSystem
  with_file fs t = record fs {
    tree = t;
    files = update fs.files fs.tree.ilid (some (blank_file D));
    fcntr = fs.fcntr + 1;
    flid = fs.flid + 1;
  }

  -- The open that makes the file.
  pub fs_open-makes :
      (o : FileFlags) (filename path name : List ℕ) (fs : FileSystem)
      → HasKinds lim
      → IsNewFile lim fs filename path name
      → flags_ok o ≡ true
      → o.creat ≡ true
      → (t : Tree) × (fs_open D lim driver o filename fs
          ≡ done (opened fs.tree.ilid fs.flid (fresh_handle D), with_file fs t))
        × (isearch lim 0 filename t ≡ done (some fs.tree.ilid))
        × (t.inodes fs.tree.ilid ≡ new_inode lim fs.tree name lim.s_ifreg 0 0)
        × ((t.inodes fs.tree.ilid).name ≡ name)
  unfolding isearch search_parts
  fs_open-makes o filename path name fs kinds new ok creates =
      let parts : tokens [] filename ≡ tokens [] path ++ name ∷ [] =
        new.one_part ∙ ap (λ x. x ++ name ∷ []) (sym new.at_root) in
      let parent : isearch lim 0 path fs.tree ≡ done (some 0) =
        ap (λ x. search_parts (fs.tree.ilid + 1) lim.name_max x fs.tree (some 0)) new.at_root in
      let made =
        imknod-found lim fs.tree filename path name lim.s_ifreg 0 0 new.tree new.root new.path_short
          new.name_short new.split parts parent new.missing new.is_dir kinds.ended in
      let found : isearch lim 0 filename made.0 ≡ done (some fs.tree.ilid) =
        ap (λ x. search_parts (made.0.ilid + 1) lim.name_max x made.0 (some 0)) new.one_part
        ∙ made.4 in
      (
        made.0,
        fs_open-missing o filename fs made.0 ok new.missing creates made.1
            ∙ open_new-opens o filename fs made.0 fs.tree.ilid found
            ∙ open_node-regular o true fs.tree.ilid (record fs { tree = made.0 }) (ground arith)
                (ap (λ (n : Inode). n.iohandle) made.2 ∙ regular-io lim kinds)
                (ap (open_regular D o true) new.no_data ∙ new_regular o creates),
        found,
        made.2,
        made.3,
      )

-- `fs_open` with O_CREAT of a name that the root directory does not have: it makes a regular file that is
-- empty and returns a handle at its start; and `fs_open` of that name without O_CREAT and O_EXCL then
-- returns another handle at the start of the same file.
pub create_open_file :
    (D : ℕ) (lim : Limits)
    (driver : ℕ → FileFlags → Bool → FileSystem → Outcome (Opened × FileSystem)) (o r : FileFlags)
    (filename path name : List ℕ) (fs : FileSystem)
    → HasKinds lim
    → IsNewFile lim fs filename path name
    → (flags_ok o ≡ true) × (o.creat ≡ true)
    → (flags_ok r ≡ true) × (r.creat ≡ false) × (r.excl ≡ false)
    → (fs' : FileSystem) × (fs_open D lim driver o filename fs
        ≡ done (opened fs.tree.ilid fs.flid (fresh_handle D), fs'))
      × (fs'.files fs.tree.ilid ≡ some (blank_file D))
      × (fs'' : FileSystem) × (fs_open D lim driver r filename fs'
          ≡ done (opened fs.tree.ilid (fs.flid + 1) (fresh_handle D), fs''))
      × (fs''.files fs.tree.ilid ≡ some (blank_file D))
create_open_file D lim driver o r filename path name fs kinds new (ok, creates) (ok', plain, any) =
    let made = fs_open-makes D lim driver o filename path name fs kinds new ok creates in
    let fs' = with_file D lim driver fs made.0 in
    let there : fs'.files fs.tree.ilid ≡ some (blank_file D) =
      update_self fs.files fs.tree.ilid (some (blank_file D)) in
    (
      fs',
      made.1,
      there,
      _,
      fs_open-there D lim driver r filename path name fs' fs.tree.ilid ok' made.2 new.split
            (ap (λ n. same_name lim.name_max n name) made.4 ∙ same_name_refl lim.name_max name)
            (ground (arith, plain, any))
          ∙ open_node-regular D lim driver r false fs.tree.ilid fs' (ground (arith, plain))
              (ap (λ (n : Inode). n.iohandle) made.3 ∙ regular-io lim kinds)
              (ap (open_regular D r true) there ∙ old_regular D lim driver r (blank_file D) plain),
      update_self fs'.files fs.tree.ilid (some (blank_file D)),
    )
