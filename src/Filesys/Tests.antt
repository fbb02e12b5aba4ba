-- ===== src/Filesys/Tests.antt =====
-- The tree of inodes at small trees.
use tinker.Base.{
  ℕ, ◌+◌, ◌<◌, ◌≤◌, ◌≡◌, true, false, refl, sym, ap, ◌∙◌, inl, inr, List, [], ◌∷◌, ◌++◌, Option,
  some, none, ◌==◌, if◌then◌else◌, Bool-cases, arith,
}
use tinker.Base.Names.{same_name}
use tinker.Kernel.State.{done, hangs}
use tinker.Filesys.Inode.{
  Limits, Inode, Tree, fs_exist, fs_ifdir_io, tokens, split_name, walk, search_parts, isearch,
  new_inode, make_in, imknod,
}
use tinker.Filesys.Mount.{mknod}
use tinker.Filesys.Chain.{IsTree}
use tinker.Filesys.Found.{imknod-found}
use tinker.Filesys.Regular.{FileFlags, RegHandle, moved, blank_file, fresh_handle}
use tinker.Filesys.Open.{FileSystem, opened, refused, open_found, fs_open}
use tinker.Filesys.Calls.{fs_read, fs_write}
use tinker.Filesys.Session.{Drivers, handle, make_write_read}
use tinker.Filesys.Opening.{HasKinds, IsNewFile, create_open_file}

-- Constants as common systems have them.
abbrev lim : Limits
lim = record {
  path_max = 24;
  name_max = 14;
  s_ifdir = 0x4000;
  s_ifchr = 0x2000;
  s_ifblk = 0x6000;
  s_ifreg = 0x8000;
  s_iflnk = 0xa000;
  s_ifsock = 0xc000;
  s_ififo = 0x1000;
  behind = [];
}

abbrev node : (id : ℕ) (name : List ℕ) (next : Option ℕ) (down : ℕ) → Inode
node id name next down = record {
  id = id;
  name = name;
  mode = 0x4000;
  mount = none;
  belong = 0;
  next = next;
  down = down;
  iohandle = fs_ifdir_io;
}

-- The root with the directory "a".
abbrev with_a : Tree
with_a = record {
  inodes = λ i. if i == 0 then node 0 [] none 1 else node 1 (97 ∷ []) none 1;
  ilid = 2;
  icntr = 2;
}

-- The root with the directories "a" and "b".
abbrev with_b : Tree
with_b = record {
  inodes = λ i.
      if i == 0
      then node 0 [] none 1
      else if i == 1
      then node 1 (97 ∷ []) (some 2) 1
      else node 2 (98 ∷ []) none 2;
  ilid = 3;
  icntr = 3;
}

some_differs : {j : ℕ} → none ≡ some j → ⊥
some_differs h = cc

with_a-IsTree : IsTree with_a
with_a-IsTree = record {
  next_small = λ i j h e. absurd (some_differs (sym (no_next i) ∙ e));
  down_small = λ i h. ground arith;
}
  where
    no_next : (i : ℕ) → (with_a.inodes i).next ≡ none
    no_next i = elim (Bool-cases (i == 0)) [ inl e ↦ rw e refl | inr e ↦ rw e refl ]

root_there : isearch lim 0 (47 ∷ []) with_a ≡ done (some 0)
unfolding isearch search_parts walk tokens same_name
root_there = refl

b_missing : isearch lim 0 (47 ∷ 98 ∷ []) with_a ≡ done none
unfolding isearch search_parts walk tokens same_name
b_missing = refl

b_split : split_name (47 ∷ 98 ∷ []) ≡ some (47 ∷ [], 98 ∷ [])
unfolding split_name
b_split = refl

b_tokens : tokens [] (47 ∷ 98 ∷ []) ≡ (98 ∷ []) ∷ []
unfolding tokens
b_tokens = refl

root_tokens : tokens [] (47 ∷ []) ≡ []
unfolding tokens
root_tokens = refl

imknod-found_example :
    (t' : Tree) × (imknod lim 0 (47 ∷ 98 ∷ []) 0x4000 0 with_a ≡ done (none, t'))
    × (t'.inodes 2 ≡ new_inode lim with_a (98 ∷ []) 0x4000 0 0)
    × ((t'.inodes 2).name ≡ 98 ∷ [])
    × (search_parts (t'.ilid + 1) 14 ((98 ∷ []) ∷ []) t' (some 0) ≡ done (some 2))
imknod-found_example =
    imknod-found lim with_a (47 ∷ 98 ∷ []) (47 ∷ []) (98 ∷ []) 0x4000 0 0 with_a-IsTree
      (omega arith) (omega arith) (omega arith) b_split
      (b_tokens ∙ ap (λ x. x ++ (98 ∷ []) ∷ []) (sym root_tokens)) root_there b_missing refl refl

-- A search below the directory "a", which has no nodes, finds the directory itself under its own name,
-- and the node behind it.
finds_itself : isearch lim 0 (47 ∷ 97 ∷ 47 ∷ 97 ∷ []) with_b ≡ done (some 1)
unfolding isearch search_parts walk tokens same_name
finds_itself = refl

finds_neighbour : isearch lim 0 (47 ∷ 97 ∷ 47 ∷ 98 ∷ []) with_b ≡ done (some 2)
unfolding isearch search_parts walk tokens same_name
finds_neighbour = refl

-- So "/a/a" cannot be made.
refuses_own_name : mknod lim (47 ∷ 97 ∷ 47 ∷ 97 ∷ []) 0x4000 0 with_b ≡ done (some fs_exist, with_b)
unfolding mknod imknod make_in isearch search_parts walk tokens same_name split_name
refuses_own_name = refl

-- O_RDWR, without and with O_CREAT.
abbrev to_read : FileFlags
to_read = record { wronly = false; rdwr = true; append = false; creat = false; excl = false }

abbrev to_make : FileFlags
to_make = record { wronly = false; rdwr = true; append = false; creat = true; excl = false }

abbrev no_files : FileSystem
no_files = record { tree = with_a; files = λ i. none; fcntr = 0; flid = 0 }

lim-HasKinds : HasKinds lim
lim-HasKinds = record {
  not_dir = omega arith;
  not_chr = omega arith;
  not_blk = omega arith;
  ended = refl;
}

b-IsNewFile : IsNewFile lim no_files (47 ∷ 98 ∷ []) (47 ∷ []) (98 ∷ [])
b-IsNewFile = record {
  tree = with_a-IsTree;
  root = omega arith;
  path_short = omega arith;
  name_short = omega arith;
  split = b_split;
  at_root = root_tokens;
  one_part = b_tokens;
  missing = b_missing;
  is_dir = refl;
  no_data = refl;
}

makes_and_opens :
    (fs' : FileSystem) × (fs_open 8 lim (λ d o access fs. hangs) to_make (47 ∷ 98 ∷ []) no_files
      ≡ done (opened 2 0 (fresh_handle 8), fs'))
    × (fs'.files 2 ≡ some (blank_file 8))
    × (fs'' : FileSystem) × (fs_open 8 lim (λ d o access fs. hangs) to_read (47 ∷ 98 ∷ []) fs'
        ≡ done (opened 2 1 (fresh_handle 8), fs''))
    × (fs''.files 2 ≡ some (blank_file 8))
makes_and_opens =
    create_open_file 8 lim (λ d o access fs. hangs) to_make to_read (47 ∷ 98 ∷ []) (47 ∷ [])
      (98 ∷ []) no_files lim-HasKinds b-IsNewFile (refl, refl) (refl, refl, refl)

-- With O_CREAT and without O_EXCL, a file that is there is refused.
refuses_file :
    fs_open 8 lim (λ d o access fs. hangs) to_make (47 ∷ 97 ∷ []) no_files
    ≡ done (refused fs_exist, no_files)
unfolding fs_open open_found isearch search_parts walk tokens same_name split_name
refuses_file = refl

-- No driver answers.
abbrev no_drivers : Drivers
no_drivers = record {
  opens = λ d o access fs. hangs;
  std_reads = λ i len out fs. hangs;
  reads = λ d h len out fs. hangs;
  std_writes = λ i len buf fs. hangs;
  writes = λ d h len buf fs. hangs;
}

abbrev to_append : FileFlags
to_append = record { wronly = true; rdwr = false; append = true; creat = true; excl = true }

make_write_read_example :
    (i : ℕ) × (fs1 : FileSystem) × (h : RegHandle) × (fs_open 8 lim no_drivers.opens to_append
        (47 ∷ 98 ∷ [])
        no_files
      ≡ done (opened i 0 h, fs1))
    × (fs2 : FileSystem) × (h' : RegHandle) × (fs_write 8 no_drivers.std_writes no_drivers.writes 2
          (handle 0 i to_append h)
          20
          (λ j. j + 65)
          fs1
        ≡ done (moved 20, handle 0 i to_append h', fs2))
    × (fs3 : FileSystem) × (g : RegHandle) × (fs_open 8 lim no_drivers.opens to_read
          (47 ∷ 98 ∷ [])
          fs2
        ≡ done (opened i 1 g, fs3))
    × (g' : RegHandle) × (out' : ℕ → ℕ) × (fs_read 8 no_drivers.std_reads no_drivers.reads
          (handle 1 i to_read g)
          20
          (λ j. 0)
          fs3
        ≡ done (record {
          result = moved 20;
          file = handle 1 i to_read g';
          system = fs3;
          buffer = out';
        }))
    × ((j : ℕ) → j < 20 → out' j ≡ j + 65)
    × ((j : ℕ) → 20 ≤ j → out' j ≡ 0)
make_write_read_example =
    make_write_read 8 lim no_drivers to_append to_read 2 20 (λ j. j + 65) (λ j. 0) (47 ∷ 98 ∷ [])
      (47 ∷ []) (98 ∷ []) no_files (omega arith) lim-HasKinds b-IsNewFile ((refl, refl, refl), refl)
      ((refl, refl, refl), refl) (omega arith) (omega arith)
