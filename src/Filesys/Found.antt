-- ===== src/Filesys/Found.antt =====
-- A node that `imknod` of src/filesys/inode.c makes is found.
use mathlib.Core.List.{append-nil}
use tinker.Base.{
  ℕ, suc, ◌+◌, ◌<◌, ◌≡◌, refl, sym, ap, ◌∙◌, inl, inr, true, false, List, [], ◌∷◌, ◌++◌, length,
  Option, some, none, update_self, update_ne, lt→ltb, ◌==◌, Bool-cases, ==→eq, ==→ne, bit_or, arith,
}
use tinker.Kernel.State.{done, hangs, ◌>>=◌}
use tinker.Base.Names.{same_name, same_name_refl}
use tinker.Filesys.Inode.{
  Limits, Inode, Tree, put_inode, tokens, split_name, walk, is_mounted, search_parts, isearch,
  seek_last, new_inode, link_inode, make_in, imknod,
}
use tinker.Filesys.Chain.{
  IsTree, IsAppended, walk-hit, seek_last-next, walk-appended, seek_last-ends,
}
use tinker.Filesys.Parts.{search_parts-append, search_parts-missing, search_parts-found}

-- The directory `b` of `t` with the node `n` in it.
module _ (lim : Limits) (t : Tree) (ok : IsTree t) (b : ℕ) (small : b < t.ilid) (n : Inode)
    (nd : List ℕ) (named : same_name lim.name_max n.name nd ≡ true)
    (missing : search_parts (t.ilid + 1) lim.name_max (nd ∷ []) t (some b) ≡ done none) where
  -- The tree with the new node, before a pointer to it is set.
  abbrev added : Tree
  added = record (put_inode t t.ilid n) { ilid = t.ilid + 1; icntr = t.icntr + 1 }

  added-kept : (i : ℕ) → i < t.ilid → added.inodes i ≡ t.inodes i
  added-kept i h = update_ne t.inodes t.ilid i n (λ e. omega arith)

  -- A write to an old node.
  abbrev linked : ℕ → Inode → Tree
  linked l x = put_inode added l x

  linked-new : (l : ℕ) (x : Inode) → l < t.ilid → (linked l x).inodes t.ilid ≡ n
  linked-new l x h =
      update_ne added.inodes l t.ilid x (λ e. omega arith) ∙ update_self t.inodes t.ilid n

  abbrev below : Inode
  below = record (t.inodes b) { down = t.ilid }

  abbrev behind : ℕ → Inode
  behind l = record (t.inodes l) { next = some t.ilid }

  behind-IsAppended : (l : ℕ) → l < t.ilid → IsAppended lim.name_max t (linked l (behind l)) l nd
  behind-IsAppended l h = record {
    kept = λ i g e. update_ne added.inodes l i (behind l) e ∙ added-kept i g;
    same_last = ap (λ x. x.name) (update_self added.inodes l (behind l));
    last_next = ap (λ x. x.next) (update_self added.inodes l (behind l));
    named = ap (λ x. same_name lim.name_max x.name nd) (linked-new l (behind l) h) ∙ named;
  }

  -- What does not depend on `next` is not changed when a node is put behind the last one.
  behind-reads {ℓ} :
      {X : Type ℓ} (f : Inode → X)
      → ((x : Inode) → f (record x { next = some t.ilid }) ≡ f x)
      → (l : ℕ) → f ((linked l (behind l)).inodes b) ≡ f (t.inodes b)
  behind-reads f same l = elim (Bool-cases (b == l)) [
    | inl e ↦
        ap (λ i. f ((linked l (behind l)).inodes i)) (==→eq b l e)
        ∙ ap f (update_self added.inodes l (behind l))
        ∙ same (t.inodes l)
        ∙ ap (λ i. f (t.inodes i)) (sym (==→eq b l e))
    | inr e ↦ ap f (update_ne added.inodes l b (behind l) (==→ne b l e) ∙ added-kept b small)
  ]

  more_fuel :
      (t' : Tree) (ci : Option ℕ)
      → walk (t.ilid + 1 + 1) lim.name_max ci nd t' ≡ walk (suc (t.ilid + 1)) lim.name_max ci nd t'
  more_fuel t' ci =
      ap (λ f. walk f lim.name_max ci nd t') {x = t.ilid + 1 + 1} {y = suc (t.ilid + 1)}
        (omega arith)

  -- In a directory without nodes.
  first-found :
      search_parts (t.ilid + 1 + 1) lim.name_max (nd ∷ []) (linked b below) (some b)
      ≡ done (some t.ilid)
  first-found =
      let miss = search_parts-missing (t.ilid + 1) lim.name_max nd t b missing in
      let at_b = update_self added.inodes b below in
      search_parts-found (t.ilid + 1 + 1) lim.name_max nd (linked b below) b t.ilid
        (ap is_mounted at_b ∙ miss.0)
        (ap (λ x. walk (t.ilid + 1 + 1) lim.name_max (some x.down) nd (linked b below)) at_b
          ∙ more_fuel (linked b below) (some t.ilid)
          ∙ walk-hit (t.ilid + 1) lim.name_max t.ilid nd (linked b below)
              (ap (λ x. same_name lim.name_max x.name nd) (linked-new b below small) ∙ named))

  -- Behind the last node.
  next-found :
      (l : ℕ)
      → seek_last (t.ilid + 1) (t.inodes b).down t ≡ done l
      → l < t.ilid
      → search_parts (t.ilid + 1 + 1) lim.name_max (nd ∷ []) (linked l (behind l)) (some b)
        ≡ done (some t.ilid)
  next-found l e h =
      let miss = search_parts-missing (t.ilid + 1) lim.name_max nd t b missing in
      search_parts-found (t.ilid + 1 + 1) lim.name_max nd (linked l (behind l)) b t.ilid
        (behind-reads is_mounted (λ x. refl) l ∙ miss.0)
        (ap (λ d. walk (t.ilid + 1 + 1) lim.name_max (some d) nd (linked l (behind l)))
            (behind-reads (λ x. x.down) (λ x. refl) l)
          ∙ more_fuel (linked l (behind l)) (some (t.inodes b).down)
          ∙ walk-appended (t.ilid + 1) lim.name_max (t.inodes b).down l nd t (linked l (behind l))
              ok (behind-IsAppended l h) (ok.down_small b small) miss.1 e)

  link_inode-found :
      (t' : Tree) × (link_inode t b n ≡ done t')
      × (t'.ilid ≡ t.ilid + 1)
      × (t'.inodes t.ilid ≡ n)
      × (search_parts (t'.ilid + 1) lim.name_max (nd ∷ []) t' (some b) ≡ done (some t.ilid))
  unfolding link_inode
  link_inode-found = elim (Bool-cases ((t.inodes b).down == b)) [
    | inl empty ↦
        (linked b below, rw (link_inode, empty) refl, refl, linked-new b below small, first-found)
    | inr full ↦
        let miss = search_parts-missing (t.ilid + 1) lim.name_max nd t b missing in
        let last = seek_last-ends (t.ilid + 1) lim.name_max (t.inodes b).down nd t miss.1 in
        let h =
          (seek_last-next (t.ilid + 1) (t.inodes b).down last.0 t ok (ok.down_small b small)
            last.1).1 in
        (
          linked last.0 (behind last.0),
          rw (link_inode, full) (ap (λ o. o >>= λ l. done (linked l (behind l))) last.1),
          refl,
          linked-new last.0 (behind last.0) h,
          next-found last.0 last.1 h,
        )
  ]

make_in-done :
    (lim : Limits) (t t' : Tree) (filename path name : List ℕ) (mode dev b : ℕ)
    → length name < lim.name_max
    → isearch lim 0 path t ≡ done (some b)
    → isearch lim 0 filename t ≡ done none
    → (bit_or (t.inodes b).mode lim.s_ifdir == 0) ≡ false
    → link_inode t b (new_inode lim t name mode dev b) ≡ done t'
    → make_in lim 0 filename path name mode dev t ≡ done (none, t')
unfolding make_in
make_in-done lim t t' filename path name mode dev b short parent missing dir linking =
    rw (make_in, lt→ltb (length name) lim.name_max short, missing, parent, dir)
      (ap (λ o. o >>= λ x. done (none, x)) linking)

imknod-parts :
    (lim : Limits) (t : Tree) (filename path name : List ℕ) (mode dev : ℕ)
    → length filename < lim.path_max
    → split_name filename ≡ some (path, name)
    → imknod lim 0 filename mode dev t ≡ make_in lim 0 filename path name mode dev t
unfolding imknod
imknod-parts lim t filename path name mode dev short split =
    rw (imknod, lt→ltb (length filename) lim.path_max short)
      (ap (λ o. elim o [ none ↦ hangs | some p ↦ make_in lim 0 filename p.0 p.1 mode dev t ]) split)

-- `imknod` of a new path, in a directory that the path before its last part names, returns 0. The new
-- node has the kind, the handler and the name that were asked for, and a search in that directory then
-- finds it, if a 0 follows the block of the name in memory, where the code does not write one.
pub imknod-found :
    (lim : Limits) (t : Tree) (filename path name : List ℕ) (mode dev b : ℕ)
    → IsTree t
    → b < t.ilid
    → length filename < lim.path_max
    → length name < lim.name_max
    → split_name filename ≡ some (path, name)
    → tokens [] filename ≡ tokens [] path ++ name ∷ []
    → isearch lim 0 path t ≡ done (some b)
    → isearch lim 0 filename t ≡ done none
    → (bit_or (t.inodes b).mode lim.s_ifdir == 0) ≡ false
    → lim.behind ≡ []
    → (t' : Tree) × (imknod lim 0 filename mode dev t ≡ done (none, t'))
      × (t'.inodes t.ilid ≡ new_inode lim t name mode dev b)
      × ((t'.inodes t.ilid).name ≡ name)
      × (search_parts (t'.ilid + 1) lim.name_max (name ∷ []) t' (some b) ≡ done (some t.ilid))
unfolding isearch
imknod-found lim t filename path name mode dev b ok small short short' split parts parent missing
      dir ended =
    let named : name ++ lim.behind ≡ name = ap (λ x. name ++ x) ended ∙ append-nil name in
    let missing' : search_parts (t.ilid + 1) lim.name_max (name ∷ []) t (some b) ≡ done none =
      ap (λ o. o >>= search_parts (t.ilid + 1) lim.name_max (name ∷ []) t) (sym parent)
      ∙ sym (search_parts-append (t.ilid + 1) lim.name_max name t (tokens [] path) (some 0))
      ∙ ap (λ x. search_parts (t.ilid + 1) lim.name_max x t (some 0)) (sym parts)
      ∙ missing in
    let r =
      link_inode-found lim t ok b small (new_inode lim t name mode dev b) name
        (ap (λ x. same_name lim.name_max x name) named ∙ same_name_refl lim.name_max name)
        missing' in
    (
      r.0,
      imknod-parts lim t filename path name mode dev short split
          ∙ make_in-done lim t r.0 filename path name mode dev b short' parent missing dir r.1,
      r.3,
      ap (λ (n : Inode). n.name) r.3 ∙ named,
      r.4,
    )
