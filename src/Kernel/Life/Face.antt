-- ===== src/Kernel/Life/Face.antt =====
-- What the calls of src/tk.c leave of the threads that they are not about.
use tinker.Base.{
  ℕ, zero, suc, ◌+◌, ◌-◌, ◌≡◌, ◌≢◌, refl, sym, ◌⊎◌, ap, subst, ◌∙◌, inl, inr, Bool, true, false,
  ◌&&◌, Option, none, some, ltb, if◌then◌else◌, Bool-cases, arith,
}
use tinker.Kernel.State.{
  Tuning, Tcb, Kernel, done, zombi_only, put_tcb, Status, tk_ok, Outcome, >>=-eq-done,
}
use tinker.Kernel.Family.{
  is_tcb, detach_child, detach_from, detach_children, unblock_parent, leave_parent, try_detach_from,
  try_detach_parent,
}
use tinker.Kernel.Threads.{remove_slot, bury, kill, delete_thread}
use tinker.Kernel.Rows.Shift.{but_idx-shift_slots, rest-shift_slots}

-- What `tk_delete_thread` does with a thread that it has made a zombie.
abbrev after_kill : Tuning → ℕ → Bool × Kernel → Outcome (Status × Kernel)
after_kill cfg t r = if r.0 then bury cfg t r.1 else done (tk_ok, r.1)

-- What a thread under construction, and the root thread, must keep.
abbrev pub Face : Type 0
Face = Bool × ℕ × ℕ × Bool

abbrev pub face : Tcb → Face
face b = (b.valid, b.thid, b.prio, b.state.zombi)

-- The call leaves the thread `s` its face, and the global `proc_idx`.
pub record Spares (s : ℕ) (k k' : Kernel) : Type 0 where
  pub same : face (k'.pool s) ≡ face (k.pool s)
  pub latest : k'.proc_idx ≡ k.proc_idx

pub Spares-refl : (s : ℕ) (k : Kernel) → Spares s k k
Spares-refl s k = record { same = refl; latest = refl }

pub Spares-trans : {s : ℕ} {k l m : Kernel} → Spares s k l → Spares s l m → Spares s k m
Spares-trans a b = record { same = b.same ∙ a.same; latest = b.latest ∙ a.latest }

detach_child-Spares : (s t j : ℕ) (k : Kernel) → Spares s k (detach_child t j k)
unfolding detach_child
detach_child-Spares s t j k = record { same = ground arith; latest = ground arith }

detach_from-Spares : (s t n j : ℕ) (k : Kernel) → Spares s k (detach_from t n j k)
unfolding detach_from
detach_from-Spares s t zero j k = Spares-refl s k
detach_from-Spares s t (suc n) j k = elim (Bool-cases (ltb 0 (k.pool t).no_childs)) [
  | inl more ↦ rw more (
      Spares-trans (detach_child-Spares s t j k)
        (detach_from-Spares s t n (j + 1) (detach_child t j k)))
  | inr end ↦ rw end (Spares-refl s k)
]

pub detach_children-Spares :
    (s : ℕ) (cfg : Tuning) (t : ℕ) (k : Kernel) → Spares s k (detach_children cfg t k)
unfolding detach_children
detach_children-Spares s cfg t k = detach_from-Spares s t cfg.max_threads 0 k

unblock_parent-Spares : (s t g : ℕ) (k : Kernel) → Spares s k (unblock_parent t g k)
unfolding unblock_parent
unblock_parent-Spares s t g k = record { same = ground arith; latest = refl }

leave_parent-Spares :
    (s t g : ℕ) (k : Kernel) {r : Bool × Kernel} → leave_parent t g k ≡ done r → Spares s k r.1
unfolding leave_parent
leave_parent-Spares s t g k e = record { same = ground arith; latest = ground arith }

try_detach_from-Spares :
    (s t : ℕ) (force : Bool) (g : Option ℕ) (k : Kernel) {r : Bool × Kernel}
    → try_detach_from t force g k ≡ done r
    → Spares s k r.1
unfolding try_detach_from
try_detach_from-Spares s t force none k {r} e =
    let same : k ≡ r.1 = cc in subst (Spares s k) same (Spares-refl s k)
try_detach_from-Spares s t force (some g) k {r} e = elim (Bool-cases (k.pool g).valid) [
  | inr bad ↦ absurd (ground arith)
  | inl good ↦ elim (Bool-cases ((k.pool g).state.term && is_tcb (k.pool g).bon_entity t)) [
    | inl w ↦
        Spares-trans (unblock_parent-Spares s t g k)
          (leave_parent-Spares s t g (unblock_parent t g k) {r = r} (ground arith))
    | inr w ↦ elim (Bool-cases force) [
      | inl f ↦ leave_parent-Spares s t g k {r = r} (ground arith)
      | inr f ↦ subst (Spares s k) (ground arith) (Spares-refl s k)
    ]
  ]
]

pub try_detach_parent-Spares :
    (s t : ℕ) (force : Bool) (k : Kernel) {r : Bool × Kernel}
    → try_detach_parent t force k ≡ done r
    → Spares s k r.1
unfolding try_detach_parent
try_detach_parent-Spares s t force k e = try_detach_from-Spares s t force (k.pool t).gid k e

pub remove_slot-Spares :
    (s : ℕ) (cfg : Tuning) (p i : ℕ) (k : Kernel) → Spares s k (remove_slot cfg p i k)
unfolding remove_slot
remove_slot-Spares s cfg p i k = record {
  same = ap face (but_idx-shift_slots cfg p ((k.rr p).procs_at_prio - i) i k s);
  latest =
      ap (λ (m : Kernel). m.proc_idx) (rest-shift_slots cfg p ((k.rr p).procs_at_prio - i) i k);
}

bury-Spares :
    (s : ℕ) (cfg : Tuning) (t : ℕ) (k : Kernel) {r : Status × Kernel}
    → s ≢ t
    → bury cfg t k ≡ done r
    → Spares s k r.1
unfolding bury
bury-Spares s cfg t k {r} n e =
    let spared =
      remove_slot-Spares s cfg (k.pool t).prio (k.pool t).idx
        (record k { procs_in_use = k.procs_in_use - 1 }) in
    record { same = ground (arith, spared.same); latest = ground (arith, spared.latest) }

kill-Spares :
    (s : ℕ) (cfg : Tuning) (t : ℕ) (k : Kernel) {r : Bool × Kernel}
    → s ≢ t
    → kill cfg t k ≡ done r
    → Spares s k r.1
unfolding kill
kill-Spares s cfg t k n e =
    Spares-trans {l = put_tcb k t (record (k.pool t) { state = zombi_only })}
      (record { same = ground arith; latest = refl })
      (Spares-trans (detach_children-Spares s cfg t _) (try_detach_parent-Spares s t false _ e))

-- How a deletion ends: there was nothing to delete, the thread was buried, at once or once it was killed,
-- or it was killed and stays as a zombie.
pub data Deleted (cfg : Tuning) (t : ℕ) (k : Kernel) (r : Status × Kernel) : Type 0 where
  absent : r.1 ≡ k → Deleted cfg t k r
  buried : (k.pool t).valid ≡ true → bury cfg t k ≡ done r → Deleted cfg t k r
  killed :
      (q : Bool × Kernel)
      → (k.pool t).valid ≡ true
      → kill cfg t k ≡ done q
      → (r.1 ≡ q.1) ⊎ (bury cfg t q.1 ≡ done r)
      → Deleted cfg t k r

pub delete_thread-Deleted :
    (cfg : Tuning) (t : ℕ) (k : Kernel) {r : Status × Kernel}
    → delete_thread cfg t k ≡ done r
    → Deleted cfg t k r
unfolding delete_thread
delete_thread-Deleted cfg t k {r} e = elim (Bool-cases (k.pool t).valid) [
  | inr gone ↦ absent (ground arith)
  | inl live ↦ elim (Bool-cases (k.pool t).state.zombi) [
    | inl z ↦ buried live (ground arith)
    | inr alive ↦
        let i = >>=-eq-done (kill cfg t k) (after_kill cfg t) (ground arith) in
        killed i.0 live i.1 (told i.0 i.2)
  ]
]
  where
    told :
        (q : Bool × Kernel) → after_kill cfg t q ≡ done r → (r.1 ≡ q.1) ⊎ (bury cfg t q.1 ≡ done r)
    told (true, m) h = inr h
    told (false, m) h = inl (cc)

pub delete_thread-Spares :
    (s : ℕ) (cfg : Tuning) (t : ℕ) (k : Kernel) {r : Status × Kernel}
    → s ≢ t
    → delete_thread cfg t k ≡ done r
    → Spares s k r.1
delete_thread-Spares s cfg t k {r} n e = settle (delete_thread-Deleted cfg t k e)
  where
    settle : Deleted cfg t k r → Spares s k r.1
    settle (absent h) = subst (Spares s k) (sym h) (Spares-refl s k)
    settle (buried live h) = bury-Spares s cfg t k n h
    settle (killed q live h (inl last)) = subst (Spares s k) (sym last) (kill-Spares s cfg t k n h)
    settle (killed q live h (inr last)) =
        Spares-trans (kill-Spares s cfg t k n h) (bury-Spares s cfg t q.1 n last)
