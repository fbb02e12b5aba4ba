-- ===== src/Filesys/Parts.antt =====
-- `isearch` of src/filesys/inode.c on a path of several parts.
use tinker.Base.{
  ℕ, ◌≡◌, refl, sym, ap, ◌∙◌, inl, inr, Bool, true, false, List, [], ◌∷◌, ◌++◌, Option, some, none,
  if◌then◌else◌, Bool-cases,
}
use tinker.Kernel.State.{Outcome, done, exited, hangs, ◌>>=◌}
use tinker.Filesys.Inode.{Tree, walk, is_mounted, search_parts}
use tinker.Filesys.Chain.{found_not_none}

if_bind :
    (c : Bool) (i : ℕ) (o : Outcome (Option ℕ)) (f g k : Option ℕ → Outcome (Option ℕ))
    → (c ≡ true → done (some i) ≡ k (some i))
    → ((x : Option ℕ) → f x ≡ (g x >>= k))
    → (if c then done (some i) else (o >>= f)) ≡ ((if c then done (some i) else (o >>= g)) >>= k)
if_bind true i o f g k h e = h refl
if_bind false i (done x) f g k h e = e x
if_bind false i (exited c) f g k h e = refl
if_bind false i hangs f g k h e = refl

module _ (fuel name_max : ℕ) (nd : List ℕ) (t : Tree) where
  -- A path of several parts is searched part by part.
  pub search_parts-append :
      (parts : List (List ℕ)) (ci : Option ℕ)
      → search_parts fuel name_max (parts ++ nd ∷ []) t ci
        ≡ (search_parts fuel name_max parts t ci >>= search_parts fuel name_max (nd ∷ []) t)
  unfolding search_parts
  search_parts-append [] ci = refl
  search_parts-append (p ∷ parts) none = refl
  search_parts-append (p ∷ parts) (some i) =
      if_bind (is_mounted (t.inodes i)) i (walk fuel name_max (some (t.inodes i).down) p t)
        (search_parts fuel name_max (parts ++ nd ∷ []) t) (search_parts fuel name_max parts t)
        (search_parts fuel name_max (nd ∷ []) t)
        (λ h. sym (
          ap
            (λ c.
              if c
              then done (some i)
              else (walk fuel name_max (some (t.inodes i).down) nd t
                  >>= search_parts fuel name_max [] t))
            h))
        (search_parts-append parts)

  -- A name that is missing in a directory is missing among the nodes of the directory.
  pub search_parts-missing :
      (b : ℕ)
      → search_parts fuel name_max (nd ∷ []) t (some b) ≡ done none
      → (is_mounted (t.inodes b) ≡ false)
        × (walk fuel name_max (some (t.inodes b).down) nd t ≡ done none)
  unfolding search_parts
  search_parts-missing b h = elim (Bool-cases (is_mounted (t.inodes b))) [
    | inl m ↦ absurd (found_not_none (sym (by_mount m) ∙ h))
    | inr m ↦ (
      m,
      sym (bind-search (walk fuel name_max (some (t.inodes b).down) nd t)) ∙ sym (by_mount m) ∙ h,
    )
  ]
    where
      by_mount :
          {c : Bool}
          → is_mounted (t.inodes b) ≡ c
          → search_parts fuel name_max (nd ∷ []) t (some b) ≡ (
              if c
              then done (some b)
              else (walk fuel name_max (some (t.inodes b).down) nd t
                  >>= search_parts fuel name_max [] t))
      by_mount m =
          ap
            (λ c.
              if c
              then done (some b)
              else (walk fuel name_max (some (t.inodes b).down) nd t
                  >>= search_parts fuel name_max [] t))
            m

      bind-search : (o : Outcome (Option ℕ)) → (o >>= search_parts fuel name_max [] t) ≡ o
      bind-search (done x) = refl
      bind-search (exited c) = refl
      bind-search hangs = refl

  pub search_parts-found :
      (b i : ℕ)
      → is_mounted (t.inodes b) ≡ false
      → walk fuel name_max (some (t.inodes b).down) nd t ≡ done (some i)
      → search_parts fuel name_max (nd ∷ []) t (some b) ≡ done (some i)
  unfolding search_parts
  search_parts-found b i free found =
      ap
        (λ c.
          if c
          then done (some b)
          else walk fuel name_max (some (t.inodes b).down) nd t >>= search_parts fuel name_max [] t)
        free
      ∙ ap (λ o. o >>= search_parts fuel name_max [] t) found
