-- ===== src/Kernel/Keep/Delete.antt =====
-- `tk_delete_thread` of src/tk.c.
use tinker.Base.{
  ℕ, zero, suc, ◌+◌, ◌-◌, ◌<◌, ◌≡◌, ◌≢◌, refl, ap, ◌∙◌, ◌⊎◌, inl, inr, Bool, true, false, none,
  some, ltb, Bool-cases, ==_refl, arith,
}
use tinker.Kernel.State.{Tuning, Kernel, done, IsDone, IsDone-value, put_tcb, tk_ok, zombi_only}
use tinker.Kernel.Family.{
  detach_child, detach_from, try_detach_from, detach_children, try_detach_parent,
}
use tinker.Kernel.Threads.{remove_slot, bury, kill, delete_thread}
use tinker.Kernel.Rows.Defs.{IsSane, RowsOk}
use tinker.Kernel.Rows.Remove.{remove_slot-RowsOk}
use tinker.Kernel.Rows.Place.{Seat, SameRows, SameRows-trans, same_rows-RowsOk, invalid-RowsOk}
use tinker.Kernel.Rows.Kin.{detach_children-SameRows, try_detach_parent-SameRows}

-- A valid thread, other than the root thread, that stands in a row.
pub record IsListed (cfg : Tuning) (out : ℕ → Bool) (k : Kernel) (t : ℕ) : Type 0 where
  pub small : t < cfg.max_threads
  pub live : (k.pool t).valid ≡ true
  pub here : out t ≡ false
  pub other : t ≢ 0

-- The kernel without the thread `t`.
abbrev pub buried : Tuning → ℕ → Kernel → Kernel
buried cfg t k =
    let k' =
      remove_slot cfg (k.pool t).prio (k.pool t).idx
        (record k { procs_in_use = k.procs_in_use - 1 }) in
    put_tcb k' t (record (k'.pool t) { valid = false })

pub kill-SameRows :
    (cfg : Tuning) (k : Kernel) (t : ℕ) {r : Bool × Kernel} → kill cfg t k ≡ done r → SameRows k r.1
unfolding kill
kill-SameRows cfg k t e =
    SameRows-trans (record { schedule = refl; rr = refl; seats = λ s. ground arith })
      (SameRows-trans
        (detach_children-SameRows cfg t (put_tcb k t (record (k.pool t) { state = zombi_only })))
        (try_detach_parent-SameRows t false _ e))

-- The parent of `t`, if it has one, is another valid thread that counts `t`.
pub record IsCounted (k : Kernel) (t g : ℕ) : Type 0 where
  pub distinct : g ≢ t
  pub live : (k.pool g).valid ≡ true
  pub positive : 0 < (k.pool g).no_childs

abbrev pub HasFamily : Kernel → ℕ → Type 0
HasFamily k t = ((k.pool t).gid ≡ none) ⊎ ((g : ℕ) × ((k.pool t).gid ≡ some g) × IsCounted k t g)

detach_child-HasFamily : (t j : ℕ) (k : Kernel) → HasFamily k t → HasFamily (detach_child t j k) t
unfolding detach_child
detach_child-HasFamily t j k (inl e) = inl (ground arith)
detach_child-HasFamily t j k (inr (g, e, c)) = inr (g, ground arith, ground arith)

detach_from-HasFamily : (t n j : ℕ) (k : Kernel) → HasFamily k t → HasFamily (detach_from t n j k) t
unfolding detach_from
detach_from-HasFamily t zero j k h = h
detach_from-HasFamily t (suc n) j k h = elim (Bool-cases (ltb 0 (k.pool t).no_childs)) [
  | inl more ↦
      rw more
        (detach_from-HasFamily t n (j + 1) (detach_child t j k) (detach_child-HasFamily t j k h))
  | inr end ↦ rw end h
]

try_detach_from-IsDone :
    (t g : ℕ) (k : Kernel) → IsCounted k t g → IsDone (try_detach_from t false (some g) k)
unfolding try_detach_from
try_detach_from-IsDone t g k c = ground (arith, c)

kill-IsDone : (cfg : Tuning) (t : ℕ) (k : Kernel) → HasFamily k t → IsDone (kill cfg t k)
unfolding kill detach_children try_detach_parent
kill-IsDone cfg t k h = settle (detach_from-HasFamily t cfg.max_threads 0 _ zombie)
  where
    zombie : HasFamily (put_tcb k t (record (k.pool t) { state = zombi_only })) t
    zombie = elim h [
      | inl e ↦ inl (ground arith)
      | inr (g, e, c) ↦ inr (g, ground arith, ground (arith, c))
    ]

    settle : {m : Kernel} → HasFamily m t → IsDone (try_detach_from t false (m.pool t).gid m)
    settle {m} (inl e) = rw e tt
    settle {m} (inr (g, e, c)) = rw e (try_detach_from-IsDone t g m c)

pub IsListed-same :
    {cfg : Tuning} {out : ℕ → Bool} (k k' : Kernel) (t : ℕ)
    → SameRows k k'
    → IsListed cfg out k t
    → IsListed cfg out k' t
IsListed-same k k' t same l = record {
  small = l.small;
  live = ap (λ (c : Seat). c.0) (same.seats t) ∙ l.live;
  here = l.here;
  other = l.other;
}

module _ {cfg : Tuning} (sane : IsSane cfg) {out : ℕ → Bool} (k : Kernel) (t : ℕ)
    (ok : RowsOk cfg out k) (l : IsListed cfg out k t) where
  pub bury-done : bury cfg t k ≡ done (tk_ok, buried cfg t k)
  unfolding bury
  bury-done = rw (ok.home t l.small l.live l.here l.other, ==_refl t)

  pub buried-RowsOk : RowsOk cfg out (buried cfg t k)
  buried-RowsOk = invalid-RowsOk cfg out t _ l.other (
      remove_slot-RowsOk cfg sane out counted
        (same_rows-RowsOk k counted ok (record { schedule = refl; rr = refl; seats = λ s. refl })) t
        l.small l.live l.here l.other)
    where
      counted : Kernel
      counted = record k { procs_in_use = k.procs_in_use - 1 }

-- A thread other than the root thread, whose parent (if it has one) counts it, is deleted with no
-- assertion failing: the call returns TK_OK, and the schedule stays in order. A zombie is always
-- taken out of the pool.
pub delete_thread-RowsOk :
    {cfg : Tuning} {out : ℕ → Bool} (k : Kernel) (t : ℕ)
    → IsSane cfg
    → RowsOk cfg out k
    → IsListed cfg out k t
    → HasFamily k t
    → (k' : Kernel) × (delete_thread cfg t k ≡ done (tk_ok, k'))
      × RowsOk cfg out k'
      × (((k.pool t).state.zombi ≡ false) ⊎ ((k'.pool t).valid ≡ false))
unfolding delete_thread
delete_thread-RowsOk {cfg} {out} k t sane ok l fam = elim (Bool-cases (k.pool t).state.zombi) [
  | inl z ↦ (
    buried cfg t k,
    rw (l.live, z) (bury-done sane k t ok l),
    buried-RowsOk sane k t ok l,
    inr (ground arith),
  )
  | inr alive ↦ finish alive (IsDone-value (kill cfg t k) (kill-IsDone cfg t k fam))
]
  where
    finish :
        (k.pool t).state.zombi ≡ false
        → (r : Bool × Kernel) × (kill cfg t k ≡ done r)
        → (k' : Kernel) × (delete_thread cfg t k ≡ done (tk_ok, k'))
          × RowsOk cfg out k'
          × (((k.pool t).state.zombi ≡ false) ⊎ ((k'.pool t).valid ≡ false))
    finish alive ((b, m), e) =
        let same : SameRows k m = kill-SameRows cfg k t e in
        let ok' : RowsOk cfg out m = same_rows-RowsOk k m ok same in
        let l' : IsListed cfg out m t = IsListed-same k m t same l in
        elim (Bool-cases b) [
          | inl told ↦ (
            buried cfg t m,
            rw (l.live, alive, e, told) (bury-done sane m t ok' l'),
            buried-RowsOk sane m t ok' l',
            inl alive,
          )
          | inr kept ↦ (m, rw (l.live, alive, e, kept), ok', inl alive)
        ]
