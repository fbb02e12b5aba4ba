-- ===== src/Filesys/Chain.antt =====
-- A search along the nodes of a directory of src/filesys/inode.c, before and after a node is added.
use tinker.Base.{
  ℕ, zero, suc, ◌<◌, ◌≡◌, ◌≢◌, refl, sym, ap, subst, ◌∙◌, ◌⊎◌, inl, inr, Bool, true, false, List,
  Option, some, none, if◌then◌else◌, Bool-cases,
}
use tinker.Kernel.State.{Outcome, done, exited, hangs}
use tinker.Base.Names.{same_name}
use tinker.Filesys.Inode.{Tree, walk, seek_last}

-- The nodes that exist point to nodes that exist.
pub record IsTree (t : Tree) : Type 0 where
  pub next_small : (i j : ℕ) → i < t.ilid → (t.inodes i).next ≡ some j → j < t.ilid
  pub down_small : (i : ℕ) → i < t.ilid → (t.inodes i).down < t.ilid

abbrev pub has_name : ℕ → Tree → ℕ → List ℕ → Bool
has_name name_max t i nd = same_name name_max (t.inodes i).name nd

-- The tree `t'` is `t` with a node of the name `nd` behind the node `l`.
pub record IsAppended (name_max : ℕ) (t t' : Tree) (l : ℕ) (nd : List ℕ) : Type 0 where
  pub kept : (i : ℕ) → i < t.ilid → i ≢ l → t'.inodes i ≡ t.inodes i
  pub same_last : (t'.inodes l).name ≡ (t.inodes l).name
  pub last_next : (t'.inodes l).next ≡ some t.ilid
  pub named : has_name name_max t' t.ilid nd ≡ true

hangs_not_done {ℓ} : {A : Type ℓ} {a : A} → hangs ≡ done a → ⊥
hangs_not_done h = cc

pub found_not_none : {i : ℕ} → ◌≡◌ {A = Outcome (Option ℕ)} (done (some i)) (done none) → ⊥
found_not_none h = cc

next_not_none : {i : ℕ} {o : Option ℕ} → o ≡ some i → o ≡ none → ⊥
next_not_none h g = cc

-- One step of the two loops.
walk-miss :
    (fuel name_max i : ℕ) (nd : List ℕ) (t : Tree)
    → has_name name_max t i nd ≡ false
    → walk (suc fuel) name_max (some i) nd t ≡ walk fuel name_max (t.inodes i).next nd t
unfolding walk
walk-miss fuel name_max i nd t h =
    ap (λ b. if b then done (some i) else walk fuel name_max (t.inodes i).next nd t) h

pub walk-hit :
    (fuel name_max i : ℕ) (nd : List ℕ) (t : Tree)
    → has_name name_max t i nd ≡ true
    → walk (suc fuel) name_max (some i) nd t ≡ done (some i)
unfolding walk
walk-hit fuel name_max i nd t h =
    ap (λ b. if b then done (some i) else walk fuel name_max (t.inodes i).next nd t) h

seek_last-step :
    (fuel i : ℕ) (t : Tree) (o : Option ℕ)
    → (t.inodes i).next ≡ o
    → seek_last (suc fuel) i t ≡ elim o [ none ↦ done i | some j ↦ seek_last fuel j t ]
unfolding seek_last
seek_last-step fuel i t o h = ap (λ x. elim x [ none ↦ done i | some j ↦ seek_last fuel j t ]) h

pub Option-cases {ℓ} : {A : Type ℓ} (o : Option A) → (o ≡ none) ⊎ ((a : A) × (o ≡ some a))
Option-cases none = inl refl
Option-cases (some a) = inr (a, refl)

done_inj : {i l : ℕ} → ◌≡◌ {A = Outcome ℕ} (done i) (done l) → i ≡ l
done_inj {i} h = ap (λ o. elim o [ done x ↦ x | exited c ↦ i | hangs ↦ i ]) h

-- The last node has none behind it.
pub seek_last-next :
    (fuel i l : ℕ) (t : Tree)
    → IsTree t
    → i < t.ilid
    → seek_last fuel i t ≡ done l
    → ((t.inodes l).next ≡ none) × (l < t.ilid)
unfolding seek_last
seek_last-next zero i l t ok h e = absurd (hangs_not_done e)
seek_last-next (suc fuel) i l t ok h e = elim (Option-cases (t.inodes i).next) [
  | inl g ↦
      let same : i ≡ l = done_inj (sym (seek_last-step fuel i t none g) ∙ e) in
      (ap (λ x. (t.inodes x).next) (sym same) ∙ g, subst (λ x. x < t.ilid) same h)
  | inr (j, g) ↦
      seek_last-next fuel j l t ok (ok.next_small i j h g)
        (sym (seek_last-step fuel i t (some j) g) ∙ e)
]

-- A name that was missing among the nodes from `i` on is found at the new node.
pub walk-appended :
    (fuel name_max i l : ℕ) (nd : List ℕ) (t t' : Tree)
    → IsTree t
    → IsAppended name_max t t' l nd
    → i < t.ilid
    → walk fuel name_max (some i) nd t ≡ done none
    → seek_last fuel i t ≡ done l
    → walk (suc fuel) name_max (some i) nd t' ≡ done (some t.ilid)
unfolding walk seek_last
walk-appended zero name_max i l nd t t' ok app h missing e = absurd (hangs_not_done e)
walk-appended (suc fuel) name_max i l nd t t' ok app h missing e =
    elim (Bool-cases (has_name name_max t i nd)) [
      | inl hit ↦ absurd (found_not_none (sym (walk-hit fuel name_max i nd t hit) ∙ missing))
      | inr miss ↦ elim (Option-cases (t.inodes i).next) [
        | inl g ↦
            let same : i ≡ l = done_inj (sym (seek_last-step fuel i t none g) ∙ e) in
            let miss' : has_name name_max t' i nd ≡ false =
              ap (λ x. same_name name_max (t'.inodes x).name nd) same
              ∙ ap (λ x. same_name name_max x nd) app.same_last
              ∙ ap (λ x. same_name name_max (t.inodes x).name nd) (sym same)
              ∙ miss in
            walk-miss (suc fuel) name_max i nd t' miss'
            ∙ ap (λ o. walk (suc fuel) name_max o nd t')
                (ap (λ x. (t'.inodes x).next) same ∙ app.last_next)
            ∙ walk-hit fuel name_max t.ilid nd t' app.named
        | inr (j, g) ↦
            let end = seek_last-next (suc fuel) i l t ok h e in
            let apart : i ≢ l =
              λ s. next_not_none (ap (λ x. (t.inodes x).next) (sym s) ∙ g) end.0 in
            let kept = app.kept i h apart in
            walk-miss (suc fuel) name_max i nd t'
              (ap (λ x. same_name name_max x.name nd) kept ∙ miss)
            ∙ ap (λ o. walk (suc fuel) name_max o nd t') (ap (λ x. x.next) kept ∙ g)
            ∙ walk-appended fuel name_max j l nd t t' ok app (ok.next_small i j h g)
                (ap (λ o. walk fuel name_max o nd t) (sym g)
                  ∙ sym (walk-miss fuel name_max i nd t miss)
                  ∙ missing)
                (sym (seek_last-step fuel i t (some j) g) ∙ e)
      ]
    ]

-- A search that finds nothing comes to the last node.
pub seek_last-ends :
    (fuel name_max i : ℕ) (nd : List ℕ) (t : Tree)
    → walk fuel name_max (some i) nd t ≡ done none
    → (l : ℕ) × (seek_last fuel i t ≡ done l)
unfolding walk seek_last
seek_last-ends zero name_max i nd t missing = absurd (hangs_not_done missing)
seek_last-ends (suc fuel) name_max i nd t missing = elim (Bool-cases (has_name name_max t i nd)) [
  | inl hit ↦ absurd (found_not_none (sym (walk-hit fuel name_max i nd t hit) ∙ missing))
  | inr miss ↦ elim (Option-cases (t.inodes i).next) [
    | inl g ↦ (i, seek_last-step fuel i t none g)
    | inr (j, g) ↦
        let r = seek_last-ends fuel name_max j nd t (
          ap (λ o. walk fuel name_max o nd t) (sym g)
          ∙ sym (walk-miss fuel name_max i nd t miss)
          ∙ missing) in
        (r.0, seek_last-step fuel i t (some j) g ∙ r.1)
  ]
]
